-- ===== src/Dto.antt =====
-- pkg/dto: what requests and responses carry.
pub mod Pagination

-- ===== src/Unique.antt =====
-- pkg/unique: identifiers.
pub mod Snowflake

-- ===== src/Utils.antt =====
-- pkg/utils: helpers of the other packages.
pub mod Math

-- ===== src/Encoding.antt =====
-- pkg/encoding: text for numbers and bytes.
pub mod Base62

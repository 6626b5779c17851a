-- ===== src/Algorithm.antt =====
-- pkg/algorithm: searching, failure detection, rate limits, delays, eviction, subsequences.
pub mod Search
pub mod CircuitBreaker
pub mod Evict

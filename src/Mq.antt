-- ===== src/Mq.antt =====
-- pkg/mq: the message queues.
pub mod Forge

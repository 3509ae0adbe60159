-- ===== src/Queue.antt =====
-- internal/queue/consumer.go and the message handler of cmd/server/main.go: the workers behind the
-- Redis stream.
pub mod Handler
pub mod Consumer
pub mod Tests

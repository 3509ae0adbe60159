-- ===== src/Sender.antt =====
-- internal/sender: the delivery of a message to one of the destination servers.
pub mod Balancer
pub mod Reply
pub mod Http
pub mod Tests

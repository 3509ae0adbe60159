-- ===== src/Tcp.antt =====
-- internal/teltonika/tcp: the server for device connections, its sessions and its pipeline.
pub mod Session
pub mod Pipeline
pub mod Tests

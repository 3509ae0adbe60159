-- ===== src/Parser.antt =====
-- internal/parser: parsed GPS records, whatever format they came in.
pub mod Data
pub mod Hooshnic
pub mod Routing
mod Sorting
pub mod Samples
mod Tests
pub mod Teltonika

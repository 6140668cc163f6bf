-- ===== src/Obe.antt =====
-- obe/obe.c: the parts of the core that join the components.
pub mod Routing
pub mod Streams
pub mod Clock
mod Tests

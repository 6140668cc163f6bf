-- ===== src/Sdi.antt =====
-- input/sdi/sdi.c: helpers of the SDI capture inputs, one module per group.
pub mod Lines
pub mod Pixels
pub mod Services
pub mod Selected
mod Tests

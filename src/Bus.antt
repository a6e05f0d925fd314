-- ===== src/Bus.antt =====
-- The data bus helpers of verilate/include/bus.h.
pub mod LoadOp
pub mod Dbus
pub mod Task
pub mod Pipeline
pub mod Cbus
pub mod Compare

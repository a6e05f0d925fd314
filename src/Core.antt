-- ===== src/Core.antt =====
-- The processor core of vsrc/: its datapath, on signals that are numbers below a power of two.
pub mod Signals
pub mod Sequence
pub mod Mul
pub mod Div
mod Powers
pub mod Lanes
pub mod Decode
pub mod Alu
pub mod Control
pub mod Datapath
pub mod Isa
pub mod System

-- ===== src/Simulator.antt =====
-- The sequential simulator, sim_seq.cpp.
pub mod Double
pub mod Tests
pub mod Machine
pub mod Operand
pub mod Arithmetic
pub mod Transfer
pub mod Branch
pub mod Execute
pub mod Assembly
pub mod Params
pub mod Program
pub mod Frame
pub mod Run

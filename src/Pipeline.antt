-- ===== src/Pipeline.antt =====
-- The pipelined simulator, sim_p.cpp.
pub mod Buffers
pub mod Cpu
pub mod WriteBack
pub mod Hazard
pub mod Decode
pub mod Alu
pub mod MemoryStage
pub mod Cycle
pub mod Frame
pub mod Fetch
pub mod Freeze
pub mod Flow
pub mod Reads
pub mod Stores
pub mod Assembly
pub mod Program
mod Tests

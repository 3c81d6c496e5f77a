-- ===== src/Tomasulo.antt =====
-- The simulator of Tomasulo's algorithm: sim_t.h, sim_t.cpp, InstructionDecode.cpp,
-- LoadReservationStation.cpp and WriteBack.cpp.
pub mod Types
pub mod Registers
pub mod Units
pub mod Adders
pub mod MemoryUnits
pub mod Reservation
pub mod Issue
pub mod Decode
pub mod Cycle
pub mod Parameters
pub mod Listing
pub mod Program
pub mod Frame
pub mod Bus
pub mod Stage
pub mod Floats
pub mod Stuck
pub mod Ending
pub mod Reserved
pub mod Safety
mod Tests

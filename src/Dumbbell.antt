-- ===== src/Dumbbell.antt =====
-- lab4: the scripts dumbbell-base.cc and dumbbell.cc, which set up a simulation with ns-3.
pub mod Calls
pub mod Base
pub mod Traced
pub mod Log
pub mod Flows
mod Tests

-- ===== src/Timer.antt =====
-- include/uvexec/algorithms/after_op_state.hpp and after.hpp: operations that complete when time has passed.
pub mod Timeout
pub mod Schedule
pub mod Sender
pub mod Laws
mod Tests

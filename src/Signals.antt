-- ===== src/Signals.antt =====
-- include/uvexec/algorithms/upon_signal_op_state.hpp: operations that complete when a signal comes.
pub mod Schedule
pub mod Sender
pub mod Laws
mod Tests

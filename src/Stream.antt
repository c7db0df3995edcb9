-- ===== src/Stream.antt =====
-- read_some_op_state.hpp and read_until_op_state.hpp: operations that read from a TCP stream.
pub mod ReadSome
pub mod ReadUntil
pub mod Laws
mod Tests

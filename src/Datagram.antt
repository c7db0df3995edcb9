-- ===== src/Datagram.antt =====
-- receive_op_state.hpp: operations that receive a datagram from a UDP socket.
pub mod Address
pub mod Receive
pub mod ReceiveFrom
pub mod Laws
mod Tests

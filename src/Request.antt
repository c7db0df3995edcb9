-- ===== src/Request.antt =====
-- The receivers that hand one request to libuv and complete when it calls back: write_receiver.hpp,
-- send_receiver.hpp, shutdown_receiver.hpp, connect_receiver.hpp and close_receiver.hpp.
pub mod State
pub mod Write
pub mod Send
pub mod SendTo
pub mod Control
pub mod Buffers
pub mod Laws
mod Tests

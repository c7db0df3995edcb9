-- ===== src/EchoUv.antt =====
-- examples/echo_uv.c: an echo server and its client, written against libuv directly.
pub mod Heap
pub mod Server
pub mod Client

-- ===== src/Wrappers/Calls.antt =====
-- The functions of libuv that the wrappers call, with the arguments that they get. libuv itself is not part of the
-- repository: what a call answers and does is a parameter wherever it matters. A pointer is a number, and nullptr is 0.
use uvexec.Base.{ℕ}

abbrev pub Pointer : Type 0
Pointer = ℕ

pub data Call : Type 0 where
  uv_timer_init : (loop handle : Pointer) → Call
  uv_signal_init : (loop handle : Pointer) → Call
  uv_async_send : (handle : Pointer) → Call
  uv_now : (loop : Pointer) → Call
  uv_timer_start : (handle cb : Pointer) (timeout repeat : ℕ) → Call
  uv_timer_stop : (handle : Pointer) → Call
  uv_signal_start_oneshot : (handle cb : Pointer) (signum : ℕ) → Call
  uv_signal_stop : (handle : Pointer) → Call
  uv_tcp_bind : (handle addr : Pointer) (flags : ℕ) → Call
  uv_udp_bind : (handle addr : Pointer) (flags : ℕ) → Call
  uv_listen : (stream : Pointer) (backlog : ℕ) (cb : Pointer) → Call
  uv_accept : (server client : Pointer) → Call
  uv_tcp_connect : (req handle addr cb : Pointer) → Call
  uv_udp_connect : (handle addr : Pointer) → Call
  uv_shutdown : (req handle cb : Pointer) → Call
  uv_tcp_close_reset : (handle cb : Pointer) → Call
  uv_read_start : (stream alloc_cb read_cb : Pointer) → Call
  uv_read_stop : (stream : Pointer) → Call
  uv_udp_recv_start : (handle alloc_cb recv_cb : Pointer) → Call
  uv_udp_recv_stop : (handle : Pointer) → Call
  uv_write : (req handle bufs : Pointer) (nbufs : ℕ) (cb : Pointer) → Call
  uv_udp_send : (req handle bufs : Pointer) (nbufs : ℕ) (addr cb : Pointer) → Call
  uv_close : (handle close_cb : Pointer) → Call

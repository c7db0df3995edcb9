-- ===== src/Wrappers/SafeUv.antt =====
-- src/uv_util/safe_uv.c: each function is one call of libuv, with its pointers converted to the type that libuv wants.
-- A conversion keeps the pointer.
use uvexec.Base.{ℕ}
use uvexec.Wrappers.Calls.{
  Pointer, Call, uv_tcp_bind, uv_udp_bind, uv_listen, uv_accept, uv_tcp_connect, uv_udp_connect,
  uv_shutdown, uv_read_start, uv_read_stop, uv_write, uv_udp_send, uv_close,
}

unfoldable pub tcp_in_bind : (tcp addr : Pointer) → Call
tcp_in_bind tcp addr = uv_tcp_bind tcp addr 0

unfoldable pub tcp_in6_bind : (tcp addr : Pointer) → Call
tcp_in6_bind tcp addr = uv_tcp_bind tcp addr 0

unfoldable pub udp_in_bind : (udp addr : Pointer) → Call
udp_in_bind udp addr = uv_udp_bind udp addr 0

unfoldable pub udp_in6_bind : (udp addr : Pointer) → Call
udp_in6_bind udp addr = uv_udp_bind udp addr 0

unfoldable pub tcp_listen : (tcp : Pointer) (backlog : ℕ) (cb : Pointer) → Call
tcp_listen tcp backlog cb = uv_listen tcp backlog cb

unfoldable pub tcp_accept : (server client : Pointer) → Call
tcp_accept server client = uv_accept server client

unfoldable pub tcp_in_connect : (req tcp addr cb : Pointer) → Call
tcp_in_connect req tcp addr cb = uv_tcp_connect req tcp addr cb

unfoldable pub tcp_in6_connect : (req tcp addr cb : Pointer) → Call
tcp_in6_connect req tcp addr cb = uv_tcp_connect req tcp addr cb

unfoldable pub udp_in_connect : (udp addr : Pointer) → Call
udp_in_connect udp addr = uv_udp_connect udp addr

unfoldable pub udp_in6_connect : (udp addr : Pointer) → Call
udp_in6_connect udp addr = uv_udp_connect udp addr

unfoldable pub tcp_shutdown : (req tcp cb : Pointer) → Call
tcp_shutdown req tcp cb = uv_shutdown req tcp cb

unfoldable pub tcp_read_start : (tcp acb rcb : Pointer) → Call
tcp_read_start tcp acb rcb = uv_read_start tcp acb rcb

unfoldable pub tcp_read_stop : (tcp : Pointer) → Call
tcp_read_stop tcp = uv_read_stop tcp

unfoldable pub tcp_write : (req tcp bufs : Pointer) (nbufs : ℕ) (cb : Pointer) → Call
tcp_write req tcp bufs nbufs cb = uv_write req tcp bufs nbufs cb

unfoldable pub udp_in_send : (req udp bufs : Pointer) (nbufs : ℕ) (addr cb : Pointer) → Call
udp_in_send req udp bufs nbufs addr cb = uv_udp_send req udp bufs nbufs addr cb

unfoldable pub udp_in6_send : (req udp bufs : Pointer) (nbufs : ℕ) (addr cb : Pointer) → Call
udp_in6_send req udp bufs nbufs addr cb = uv_udp_send req udp bufs nbufs addr cb

unfoldable pub async_close : (handle close_cb : Pointer) → Call
async_close handle close_cb = uv_close handle close_cb

unfoldable pub timer_close : (handle close_cb : Pointer) → Call
timer_close handle close_cb = uv_close handle close_cb

unfoldable pub signal_close : (handle close_cb : Pointer) → Call
signal_close handle close_cb = uv_close handle close_cb

unfoldable pub tcp_close : (handle close_cb : Pointer) → Call
tcp_close handle close_cb = uv_close handle close_cb

unfoldable pub udp_close : (handle close_cb : Pointer) → Call
udp_close handle close_cb = uv_close handle close_cb

unfoldable pub idle_close : (handle close_cb : Pointer) → Call
idle_close handle close_cb = uv_close handle close_cb

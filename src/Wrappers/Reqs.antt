-- ===== src/Wrappers/Reqs.antt =====
-- src/uv_util/reqs.cpp. A C++ object is what an overload is chosen by: its class, with its address. Overload resolution
-- is the choice of a clause; `none` says that no overload takes the objects.
use uvexec.Base.{ℕ, Option, none, some, List, length}
use uvexec.Stream.ReadSome.{Span}
use uvexec.Request.Buffers.{to_unsigned}
use uvexec.Wrappers.Calls.{
  Pointer, Call, uv_timer_init, uv_signal_init, uv_async_send, uv_now, uv_timer_start,
  uv_timer_stop, uv_signal_start_oneshot, uv_signal_stop, uv_tcp_close_reset, uv_read_stop,
  uv_udp_recv_start, uv_udp_recv_stop, uv_close,
}
use uvexec.Wrappers.SafeUv.{
  tcp_in_bind, tcp_in6_bind, tcp_accept, tcp_in_connect, tcp_in6_connect, udp_in_connect,
  udp_in6_connect, tcp_shutdown, tcp_read_start, tcp_read_stop, tcp_write, udp_in_send,
  udp_in6_send, async_close, timer_close, signal_close, tcp_close, udp_close, idle_close,
}

-- `uv_timer_t&` and so on; `uv_handle_t*` and `uv_stream_t*` are base and stream.
pub data Object : Type 0 where
  timer : Pointer → Object
  signal : Pointer → Object
  async : Pointer → Object
  idle : Pointer → Object
  tcp : Pointer → Object
  udp : Pointer → Object
  base : Pointer → Object
  stream : Pointer → Object

-- `const sockaddr_in&` and `const sockaddr_in6&`.
pub data SocketAddress : Type 0 where
  sockaddr_in : Pointer → SocketAddress
  sockaddr_in6 : Pointer → SocketAddress

-- `std::span<const uv_buf_t>`: where the buffers are, and the buffers.
pub record Buffers : Type 0 where
  pub first : Pointer
  pub items : List Span

unfoldable pub init : Object → (loop : Pointer) → Option Call
init (timer h) loop = some (uv_timer_init loop h)
init (signal h) loop = some (uv_signal_init loop h)
init _ loop = none

unfoldable pub fire : Object → Option Call
fire (async h) = some (uv_async_send h)
fire _ = none

unfoldable pub now : (loop : Pointer) → Call
now loop = uv_now loop

unfoldable pub timer_start : (req cb : Pointer) (timeout repeat : ℕ) → Call
timer_start req cb timeout repeat = uv_timer_start req cb timeout repeat

unfoldable pub timer_stop : (req : Pointer) → Call
timer_stop req = uv_timer_stop req

unfoldable pub signal_once : (req cb : Pointer) (signum : ℕ) → Call
signal_once req cb signum = uv_signal_start_oneshot req cb signum

unfoldable pub signal_stop : (req : Pointer) → Call
signal_stop req = uv_signal_stop req

unfoldable pub bind : Object → SocketAddress → Option Call
unfolding tcp_in_bind tcp_in6_bind
bind (tcp h) (sockaddr_in a) = some (tcp_in_bind h a)
bind (tcp h) (sockaddr_in6 a) = some (tcp_in6_bind h a)
bind _ _ = none

unfoldable pub accept : (server client : Object) → Option Call
unfolding tcp_accept
accept (tcp server) (tcp client) = some (tcp_accept server client)
accept _ _ = none

unfoldable pub connect_stream :
    (req : Pointer) → Object → SocketAddress → (cb : Pointer) → Option Call
unfolding tcp_in_connect tcp_in6_connect
connect_stream req (tcp h) (sockaddr_in a) cb = some (tcp_in_connect req h a cb)
connect_stream req (tcp h) (sockaddr_in6 a) cb = some (tcp_in6_connect req h a cb)
connect_stream req _ _ cb = none

unfoldable pub connect_datagram : Object → SocketAddress → Option Call
unfolding udp_in_connect udp_in6_connect
connect_datagram (udp h) (sockaddr_in a) = some (udp_in_connect h a)
connect_datagram (udp h) (sockaddr_in6 a) = some (udp_in6_connect h a)
connect_datagram _ _ = none

unfoldable pub shutdown : (req : Pointer) → Object → (cb : Pointer) → Option Call
unfolding tcp_shutdown
shutdown req (tcp h) cb = some (tcp_shutdown req h cb)
shutdown req _ cb = none

unfoldable pub close_reset : Object → (cb : Pointer) → Option Call
close_reset (tcp h) cb = some (uv_tcp_close_reset h cb)
close_reset _ cb = none

unfoldable pub read_start : Object → (acb rcb : Pointer) → Option Call
unfolding tcp_read_start
read_start (tcp h) acb rcb = some (tcp_read_start h acb rcb)
read_start _ acb rcb = none

unfoldable pub read_stop : Object → Option Call
unfolding tcp_read_stop
read_stop (tcp h) = some (tcp_read_stop h)
read_stop (stream h) = some (uv_read_stop h)
read_stop _ = none

unfoldable pub receive_start : Object → (acb rcb : Pointer) → Option Call
receive_start (udp h) acb rcb = some (uv_udp_recv_start h acb rcb)
receive_start _ acb rcb = none

unfoldable pub receive_stop : Object → Option Call
receive_stop (udp h) = some (uv_udp_recv_stop h)
receive_stop _ = none

unfoldable pub write : (req : Pointer) → Object → Buffers → (cb : Pointer) → Option Call
unfolding tcp_write to_unsigned
write req (tcp h) b cb = some (tcp_write req h b.first (to_unsigned (length b.items)) cb)
write req _ b cb = none

-- The two forms of `Send` with an address, and the one over a connected socket, which passes nullptr.
unfoldable pub send_to :
    (req : Pointer) → Object → Buffers → (cb : Pointer) → SocketAddress → Option Call
unfolding udp_in_send udp_in6_send to_unsigned
send_to req (udp h) b cb (sockaddr_in a) =
    some (udp_in_send req h b.first (to_unsigned (length b.items)) a cb)
send_to req (udp h) b cb (sockaddr_in6 a) =
    some (udp_in6_send req h b.first (to_unsigned (length b.items)) a cb)
send_to req _ b cb _ = none

unfoldable pub send : (req : Pointer) → Object → Buffers → (cb : Pointer) → Option Call
unfolding udp_in_send to_unsigned
send req (udp h) b cb = some (udp_in_send req h b.first (to_unsigned (length b.items)) 0 cb)
send req _ b cb = none

unfoldable pub close : Object → (cb : Pointer) → Option Call
unfolding async_close timer_close signal_close tcp_close udp_close idle_close
close (base h) cb = some (uv_close h cb)
close (async h) cb = some (async_close h cb)
close (timer h) cb = some (timer_close h cb)
close (signal h) cb = some (signal_close h cb)
close (tcp h) cb = some (tcp_close h cb)
close (udp h) cb = some (udp_close h cb)
close (idle h) cb = some (idle_close h cb)
close (stream h) cb = none

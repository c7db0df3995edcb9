-- ===== src/Wrappers/Forward.antt =====
-- The overloads of NUvUtil that take a handle, as one function of the request. In src/uv_util/safe_uv.c the C layer
-- converts the pointer to the type that the libuv function takes; here an address is a number, which stays the same.
use uvexec.Base.{ℕ, Option, some}
use uvexec.Wrappers.Calls.{Pointer, Call}
use uvexec.Wrappers.Reqs
use uvexec.Wrappers.Reqs.{
  Object, timer, signal, async, idle, tcp, udp, base, stream, SocketAddress, sockaddr_in,
  sockaddr_in6, Buffers,
}

-- A call of one of the wrappers that take a handle.
pub data Request : Type 0 where
  init : Object → (loop : Pointer) → Request
  fire : Object → Request
  timer_start : (req cb : Pointer) (timeout repeat : ℕ) → Request
  timer_stop : (req : Pointer) → Request
  signal_once : (req cb : Pointer) (signum : ℕ) → Request
  signal_stop : (req : Pointer) → Request
  bind : Object → SocketAddress → Request
  accept : (server client : Object) → Request
  connect_stream : (req : Pointer) → Object → SocketAddress → (cb : Pointer) → Request
  connect_datagram : Object → SocketAddress → Request
  shutdown : (req : Pointer) → Object → (cb : Pointer) → Request
  close_reset : Object → (cb : Pointer) → Request
  read_start : Object → (acb rcb : Pointer) → Request
  read_stop : Object → Request
  receive_start : Object → (acb rcb : Pointer) → Request
  receive_stop : Object → Request
  write : (req : Pointer) → Object → Buffers → (cb : Pointer) → Request
  send_to : (req : Pointer) → Object → Buffers → (cb : Pointer) → SocketAddress → Request
  send : (req : Pointer) → Object → Buffers → (cb : Pointer) → Request
  close : Object → (cb : Pointer) → Request

unfoldable pub perform : Request → Option Call
unfolding Reqs.init Reqs.fire Reqs.timer_start Reqs.timer_stop Reqs.signal_once Reqs.signal_stop
    Reqs.bind Reqs.accept Reqs.connect_stream Reqs.connect_datagram Reqs.shutdown Reqs.close_reset
    Reqs.read_start Reqs.read_stop Reqs.receive_start Reqs.receive_stop Reqs.write Reqs.send_to
    Reqs.send Reqs.close
perform (init o loop) = Reqs.init o loop
perform (fire o) = Reqs.fire o
perform (timer_start req cb t r) = some (Reqs.timer_start req cb t r)
perform (timer_stop req) = some (Reqs.timer_stop req)
perform (signal_once req cb n) = some (Reqs.signal_once req cb n)
perform (signal_stop req) = some (Reqs.signal_stop req)
perform (bind o a) = Reqs.bind o a
perform (accept server client) = Reqs.accept server client
perform (connect_stream req o a cb) = Reqs.connect_stream req o a cb
perform (connect_datagram o a) = Reqs.connect_datagram o a
perform (shutdown req o cb) = Reqs.shutdown req o cb
perform (close_reset o cb) = Reqs.close_reset o cb
perform (read_start o acb rcb) = Reqs.read_start o acb rcb
perform (read_stop o) = Reqs.read_stop o
perform (receive_start o acb rcb) = Reqs.receive_start o acb rcb
perform (receive_stop o) = Reqs.receive_stop o
perform (write req o b cb) = Reqs.write req o b cb
perform (send_to req o b cb a) = Reqs.send_to req o b cb a
perform (send req o b cb) = Reqs.send req o b cb
perform (close o cb) = Reqs.close o cb

-- ===== src/Sockets.antt =====
-- The constructors of sockets, addresses and loops, and what they leave in libuv when they fail: src/sockets/tcp.cpp,
-- udp.cpp and addr.cpp, include/uvexec/sockets/tcp_listener.hpp, src/uv_util/errors.cpp and src/execution/loop.cpp.
pub mod Laws
mod Tests
use uvexec.Base.{ℕ, ◌+◌, ◌-◌, if◌then◌else◌, pos, eq_ℤ}
use uvexec.Uv.{UvError, Errc, is_error, to_errc}

-- How a call of C++ ends. `throws` is std::system_error with that code.
pub data Outcome (A : Type 0) : Type 0 where
  returns : A → Outcome A
  throws : Errc → Outcome A
  terminates : Outcome A

-- `NUvUtil::Assert`
unfoldable pub assert : UvError → Outcome (Unit {0})
unfolding is_error
assert err = if is_error err then throws err else returns tt

-- `NUvUtil::Panic`
unfoldable pub panic : UvError → Outcome (Unit {0})
unfolding is_error
panic err = if is_error err then terminates else returns tt

-- Statement by statement, where one that throws ends the call. The state is the number of handles that libuv has in
-- the loop and that are not closed.
abbrev pub Handles : Type 0
Handles = ℕ

abbrev pub next :
    Outcome (Unit {0}) × Handles
    → (Handles → Outcome (Unit {0}) × Handles)
    → Outcome (Unit {0}) × Handles
next (returns u, n) f = f n
next (throws e, n) f = (throws e, n)
next (terminates, n) f = (terminates, n)

-- uv_tcp_init and uv_udp_init put the handle into the loop, unless they fail.
abbrev pub init_handle : UvError → Handles → Handles
init_handle err n = if is_error err then n else n + 1

-- `TTcpSocket::TTcpSocket(TLoop&)`
unfoldable pub tcp_socket : (init : UvError) → Handles → Outcome (Unit {0}) × Handles
unfolding assert is_error
tcp_socket init n = (assert init, init_handle init n)

-- `TTcpSocket::TTcpSocket(EErrc&, TLoop&)`: the error that it stores.
unfoldable pub tcp_socket_with_error : (init : UvError) → Handles → Errc × Handles
unfolding to_errc is_error
tcp_socket_with_error init n = (to_errc init, init_handle init n)

-- `TUdpSocket::TUdpSocket(TLoop&, const TIp4Addr&)`, and the one for TIp6Addr.
unfoldable pub udp_socket_in : (init bind : UvError) → Handles → Outcome (Unit {0}) × Handles
unfolding assert is_error
udp_socket_in init bind n = next (assert init, init_handle init n) (λ m. (assert bind, m))

unfoldable pub udp_socket_in6 : (init bind : UvError) → Handles → Outcome (Unit {0}) × Handles
unfolding assert is_error
udp_socket_in6 init bind n = next (assert init, init_handle init n) (λ m. (assert bind, m))

-- `TUdpSocket::TUdpSocket(EErrc&, TLoop&)` and `Bind`.
unfoldable pub udp_socket_with_error : (init : UvError) → Handles → Errc × Handles
unfolding to_errc is_error
udp_socket_with_error init n = (to_errc init, init_handle init n)

unfoldable pub udp_bind : (bind : UvError) → Errc
unfolding to_errc
udp_bind bind = to_errc bind

-- The public constructor of TTcpListener, with the answers to its socket's uv_tcp_init, to Bind and to StartListening.
unfoldable pub tcp_listener : (init bind listen : UvError) → Handles → Outcome (Unit {0}) × Handles
unfolding tcp_socket assert
tcp_listener init bind listen n = next (tcp_socket init n) (λ m.
    next (assert bind, m)
      (λ k.
        if eq_ℤ (to_errc listen) (pos 0) then (returns tt, k) else (throws (to_errc listen), k)))

-- `TIp4Addr::TIp4Addr(const char*, int)` with the answer of uv_ip4_addr, and the same of TIp6Addr.
unfoldable pub ip4_addr : (parsed : UvError) → Outcome (Unit {0})
unfolding assert
ip4_addr parsed = assert parsed

unfoldable pub ip6_addr : (parsed : UvError) → Outcome (Unit {0})
unfolding assert
ip6_addr parsed = assert parsed

-- `TLoop::TLoop`: the handle is the one of uv_async_init.
unfoldable pub loop : (init async : UvError) → Outcome (Unit {0}) × Handles
unfolding assert is_error
loop init async = next (assert init, 0) (λ n. (assert async, init_handle async n))

-- `TLoop::~TLoop`: it closes the handle of uv_async_init, and `loop_close` is what uv_loop_close answers when that many
-- handles are left.
unfoldable pub destroy_loop : (loop_close : Handles → UvError) → Handles → Outcome (Unit {0})
unfolding panic
destroy_loop loop_close n = panic (loop_close (n - 1))

-- ===== src/Senders/Dispatch.antt =====
-- The overloads of tag_invoke by which TLoop's domain gives the packages their senders, in algorithms/after.hpp,
-- upon_signal.hpp and accept.hpp and in sockets/, and TDomain::transform_sender of execution/loop.hpp. `none` says
-- that no overload fits.
use uvexec.Base.{Option, none, some}
use uvexec.Timer.Timeout.{TimerType, clamp}
use uvexec.Senders.Syntax.{
  Loop, of_listener, tcp_socket, tcp_listener, udp_socket, Algorithm, after_t, at_t, upon_signal_t,
  connect_t, shutdown_t, close_t, accept_t, receive_t, read_some_t, receive_from_t, send_t,
  write_some_t, send_to_t, read_until_t, Adaptor, after_sender, upon_signal_sender, connect_sender,
  shutdown_sender, close_sender, accept_sender, read_some_sender, receive_sender,
  receive_from_sender, read_until_sender, write_sender, send_sender, send_to_sender,
}

-- The scheduler is the one on which the package's sender completes.
unfoldable pub after_customised : Algorithm → (scheduler : Option Loop) → Option Adaptor
unfolding clamp
after_customised (after_t timeout) (some loop) =
    some (after_sender TimerType.after loop (clamp timeout))
after_customised _ _ = none

unfoldable pub at_customised : Algorithm → (scheduler : Option Loop) → Option Adaptor
unfolding clamp
at_customised (at_t timeout) (some loop) = some (after_sender TimerType.at loop (clamp timeout))
at_customised _ _ = none

unfoldable pub upon_signal_customised : Algorithm → (scheduler : Option Loop) → Option Adaptor
upon_signal_customised (upon_signal_t signum) (some loop) = some (upon_signal_sender loop signum)
upon_signal_customised _ _ = none

-- The scheduler is the one of the environment.
unfoldable pub after_customised_with_env : Algorithm → (scheduler : Option Loop) → Option Adaptor
unfolding clamp
after_customised_with_env (after_t timeout) (some loop) =
    some (after_sender TimerType.after loop (clamp timeout))
after_customised_with_env _ _ = none

unfoldable pub at_customised_with_env : Algorithm → (scheduler : Option Loop) → Option Adaptor
unfolding clamp
at_customised_with_env (at_t timeout) (some loop) =
    some (after_sender TimerType.at loop (clamp timeout))
at_customised_with_env _ _ = none

unfoldable pub upon_signal_customised_with_env :
    Algorithm → (scheduler : Option Loop) → Option Adaptor
upon_signal_customised_with_env (upon_signal_t signum) (some loop) =
    some (upon_signal_sender loop signum)
upon_signal_customised_with_env _ _ = none

unfoldable pub accept_customised : Algorithm → Option Adaptor
accept_customised (accept_t (tcp_listener l) (tcp_socket s)) =
    some (accept_sender (tcp_listener l) (tcp_socket s))
accept_customised _ = none

-- The listener's socket is closed.
unfoldable pub listener_customised : Algorithm → Option Adaptor
listener_customised (close_t (tcp_listener l)) = some (close_sender (tcp_socket (of_listener l)))
listener_customised _ = none

unfoldable pub tcp_customised : Algorithm → Option Adaptor
tcp_customised (close_t (tcp_socket s)) = some (close_sender (tcp_socket s))
tcp_customised (connect_t (tcp_socket s)) = some (connect_sender (tcp_socket s))
tcp_customised (shutdown_t (tcp_socket s)) = some (shutdown_sender (tcp_socket s))
tcp_customised (send_t (tcp_socket s)) = some (write_sender (tcp_socket s))
tcp_customised (write_some_t (tcp_socket s)) = some (write_sender (tcp_socket s))
tcp_customised (receive_t (tcp_socket s)) = some (read_some_sender (tcp_socket s))
tcp_customised (read_some_t (tcp_socket s)) = some (read_some_sender (tcp_socket s))
tcp_customised (read_until_t (tcp_socket s) condition) =
    some (read_until_sender (tcp_socket s) condition)
tcp_customised _ = none

unfoldable pub udp_customised : Algorithm → Option Adaptor
udp_customised (close_t (udp_socket s)) = some (close_sender (udp_socket s))
udp_customised (send_to_t (udp_socket s)) = some (send_to_sender (udp_socket s))
udp_customised (receive_from_t (udp_socket s)) = some (receive_from_sender (udp_socket s))
udp_customised (connect_t (udp_socket s)) = some (connect_sender (udp_socket s))
udp_customised (receive_t (udp_socket s)) = some (receive_sender (udp_socket s))
udp_customised (send_t (udp_socket s)) = some (send_sender (udp_socket s))
udp_customised _ = none

-- Overload resolution: no two overloads fit the same package.
abbrev pub or_else {ℓ} : {A : Type ℓ} → Option A → Option A → Option A
or_else (some a) o = some a
or_else none o = o

-- What TDomain::IsDomainCustomized asks, with the overload that fits.
unfoldable pub customised : Algorithm → (scheduler : Option Loop) → Option Adaptor
unfolding after_customised at_customised upon_signal_customised accept_customised
    listener_customised tcp_customised udp_customised
customised a scheduler = or_else (after_customised a scheduler) (
    or_else (at_customised a scheduler) (
      or_else (upon_signal_customised a scheduler) (
        or_else (accept_customised a)
          (or_else (listener_customised a) (or_else (tcp_customised a) (udp_customised a))))))

unfoldable pub customised_with_env : Algorithm → (scheduler : Option Loop) → Option Adaptor
unfolding after_customised_with_env at_customised_with_env upon_signal_customised_with_env
customised_with_env a scheduler =
    or_else (after_customised_with_env a scheduler)
      (or_else (at_customised_with_env a scheduler) (upon_signal_customised_with_env a scheduler))

-- TDomain::transform_sender with an environment: an overload that takes it goes first.
unfoldable pub transform_with_env : Algorithm → (scheduler env : Option Loop) → Option Adaptor
unfolding customised customised_with_env
transform_with_env a scheduler env = or_else (customised_with_env a env) (customised a scheduler)

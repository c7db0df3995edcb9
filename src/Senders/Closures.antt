-- ===== src/Senders/Closures.antt =====
-- include/uvexec/interface/closure.hpp, and the operators of the senders on stdexec::just(), which are closures too: what
-- can stand behind a sender in a pipe.
use uvexec.Base.{ℕ, Bool, Option, none, some, [], ℤ}
use uvexec.Senders.Syntax.{
  Loop, Object, Algorithm, after_sender, upon_signal_sender, shutdown_sender, close_sender,
  accept_sender, Sender, just, sender_package, adapt, accept_from_sender, Fn,
}
use uvexec.Timer.Timeout.{TimerType}
use uvexec.Senders.Points.{apply}
use uvexec.Senders.OnSender

pub record SocketBinder : Type 0 where
  pub socket : Object
  pub algorithm : Sender → Object → Sender

unfoldable pub call_socket_binder : SocketBinder → Sender → Sender
call_socket_binder b sender = b.algorithm sender b.socket

pub record SocketArgBinder : Type 0 where
  pub arg : ℕ → Bool
  pub socket : Object
  pub algorithm : Sender → Object → (ℕ → Bool) → Sender

unfoldable pub call_socket_arg_binder : SocketArgBinder → Sender → Sender
call_socket_arg_binder b sender = b.algorithm sender b.socket b.arg

pub record ArgBinder : Type 0 where
  pub arg : Fn
  pub algorithm : Sender → Fn → Sender

unfoldable pub call_arg_binder : ArgBinder → Sender → Sender
call_arg_binder b sender = b.algorithm sender b.arg

-- operator() of TSenderPackage on stdexec::just(): the customisation point again, with the same data.
unfoldable pub call_package : Algorithm → Sender → Sender
unfolding apply
call_package a sender = apply a sender

-- The same of the senders that the domain makes. `none`: the call has no overload that fits, since `after`, `at` and
-- `upon_signal` take a sender and one argument, and not a loop.
unfoldable pub call_after : TimerType → Loop → ℕ → Sender → Option Sender
call_after type loop timeout sender = none

unfoldable pub call_upon_signal : Loop → ℤ → Sender → Option Sender
call_upon_signal loop signum sender = none

unfoldable pub call_close : Object → Sender → Option Sender
unfolding OnSender.close
call_close handle sender = some (OnSender.close sender handle)

unfoldable pub call_shutdown : Object → Sender → Option Sender
unfolding OnSender.shutdown
call_shutdown socket sender = some (OnSender.shutdown sender socket)

unfoldable pub call_accept : Object → Object → Sender → Option Sender
unfolding OnSender.accept
call_accept listener socket sender = some (OnSender.accept sender listener socket)

unfoldable pub call_accept_from : Object → Fn → Sender → Option Sender
call_accept_from listener fn sender = some (accept_from_sender sender listener fn)

pub data Closure : Type 0 where
  socket_binder : SocketBinder → Closure
  socket_arg_binder : SocketArgBinder → Closure
  arg_binder : ArgBinder → Closure
  just_sender : Sender → Closure

-- A sender as a closure, where its class derives from stdexec::sender_adaptor_closure.
unfoldable pub call_sender : Sender → Sender → Option Sender
unfolding call_package call_after call_upon_signal call_close call_shutdown call_accept
    call_accept_from
call_sender (sender_package a (just [])) s = some (call_package a s)
call_sender (adapt (after_sender type loop timeout) (just [])) s = call_after type loop timeout s
call_sender (adapt (upon_signal_sender loop signum) (just [])) s = call_upon_signal loop signum s
call_sender (adapt (close_sender handle) (just [])) s = call_close handle s
call_sender (adapt (shutdown_sender socket) (just [])) s = call_shutdown socket s
call_sender (adapt (accept_sender listener socket) (just [])) s = call_accept listener socket s
call_sender (accept_from_sender (just []) listener fn) s = call_accept_from listener fn s
call_sender _ s = none

-- `sender | closure`, of stdexec for a sender and a closure and of the repository for the senders that are closures
-- themselves.
unfoldable pub pipe : Sender → Closure → Option Sender
unfolding call_socket_binder call_socket_arg_binder call_arg_binder call_sender
pipe sender (socket_binder b) = some (call_socket_binder b sender)
pipe sender (socket_arg_binder b) = some (call_socket_arg_binder b sender)
pipe sender (arg_binder b) = some (call_arg_binder b sender)
pipe sender (just_sender c) = call_sender c sender

unfoldable pub connect : Object → Closure
unfolding OnSender.connect
connect socket = socket_binder (record { socket = socket; algorithm = OnSender.connect })

unfoldable pub receive : Object → Closure
unfolding OnSender.receive
receive socket = socket_binder (record { socket = socket; algorithm = OnSender.receive })

unfoldable pub read_some : Object → Closure
unfolding OnSender.read_some
read_some socket = socket_binder (record { socket = socket; algorithm = OnSender.read_some })

unfoldable pub receive_from : Object → Closure
unfolding OnSender.receive_from
receive_from socket = socket_binder (record { socket = socket; algorithm = OnSender.receive_from })

unfoldable pub send : Object → Closure
unfolding OnSender.send
send socket = socket_binder (record { socket = socket; algorithm = OnSender.send })

unfoldable pub write_some : Object → Closure
unfolding OnSender.write_some
write_some socket = socket_binder (record { socket = socket; algorithm = OnSender.write_some })

unfoldable pub send_to : Object → Closure
unfolding OnSender.send_to
send_to socket = socket_binder (record { socket = socket; algorithm = OnSender.send_to })

unfoldable pub read_until : Object → (ℕ → Bool) → Closure
unfolding OnSender.read_until
read_until socket condition =
    socket_arg_binder (record { arg = condition; socket = socket; algorithm = OnSender.read_until })

unfoldable pub connect_to : Fn → Closure
unfolding OnSender.connect_to
connect_to fn = arg_binder (record { arg = fn; algorithm = OnSender.connect_to })

unfoldable pub bind_to : Fn → Closure
unfolding OnSender.bind_to
bind_to fn = arg_binder (record { arg = fn; algorithm = OnSender.bind_to })

unfoldable pub async_value : Fn → Closure
unfolding OnSender.async_value
async_value fn = arg_binder (record { arg = fn; algorithm = OnSender.async_value })

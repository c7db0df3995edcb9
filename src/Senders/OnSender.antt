-- ===== src/Senders/OnSender.antt =====
-- include/uvexec/interface/uvexec.hpp and the callable objects of algorithms/connect_to.hpp, bind_to.hpp, accept_from.hpp
-- and async_value.hpp: the overloads that take a sender first.
use uvexec.Base.{ℕ, Bool, ℤ}
use uvexec.Senders.Syntax.{
  Object, after_t, at_t, upon_signal_t, connect_t, shutdown_t, close_t, accept_t, receive_t,
  read_some_t, receive_from_t, send_t, write_some_t, send_to_t, read_until_t, Sender,
  connect_to_sender, bind_to_sender, async_value_sender, accept_from_sender, Fn,
}
use uvexec.Senders.Points.{apply}

unfoldable pub after : Sender → ℤ → Sender
unfolding apply
after sender timeout = apply (after_t timeout) sender

unfoldable pub at_time : Sender → ℤ → Sender
unfolding apply
at_time sender timeout = apply (at_t timeout) sender

unfoldable pub upon_signal : Sender → ℤ → Sender
unfolding apply
upon_signal sender signal = apply (upon_signal_t signal) sender

unfoldable pub connect : Sender → Object → Sender
unfolding apply
connect sender socket = apply (connect_t socket) sender

unfoldable pub accept : Sender → Object → Object → Sender
unfolding apply
accept sender listener socket = apply (accept_t listener socket) sender

unfoldable pub shutdown : Sender → Object → Sender
unfolding apply
shutdown sender socket = apply (shutdown_t socket) sender

unfoldable pub close : Sender → Object → Sender
unfolding apply
close sender socket = apply (close_t socket) sender

unfoldable pub receive : Sender → Object → Sender
unfolding apply
receive sender socket = apply (receive_t socket) sender

unfoldable pub read_some : Sender → Object → Sender
unfolding apply
read_some sender socket = apply (read_some_t socket) sender

unfoldable pub read_until : Sender → Object → (ℕ → Bool) → Sender
unfolding apply
read_until sender socket condition = apply (read_until_t socket condition) sender

unfoldable pub receive_from : Sender → Object → Sender
unfolding apply
receive_from sender socket = apply (receive_from_t socket) sender

unfoldable pub send : Sender → Object → Sender
unfolding apply
send sender socket = apply (send_t socket) sender

unfoldable pub write_some : Sender → Object → Sender
unfolding apply
write_some sender socket = apply (write_some_t socket) sender

unfoldable pub send_to : Sender → Object → Sender
unfolding apply
send_to sender socket = apply (send_to_t socket) sender

-- No domain has an overload for these: transform_sender leaves them as they are.
unfoldable pub connect_to : Sender → Fn → Sender
connect_to sender fn = connect_to_sender sender fn

unfoldable pub bind_to : Sender → Fn → Sender
bind_to sender fn = bind_to_sender sender fn

unfoldable pub async_value : Sender → Fn → Sender
async_value sender fn = async_value_sender sender fn

unfoldable pub accept_from : Sender → Object → Fn → Sender
accept_from sender listener fn = accept_from_sender sender listener fn

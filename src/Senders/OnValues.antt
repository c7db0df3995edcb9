-- ===== src/Senders/OnValues.antt =====
-- The overloads that take the values themselves, or no sender at all: they start with stdexec::just.
use uvexec.Base.{ℕ, Bool, [], ◌∷◌, ℤ}
use uvexec.Senders.Syntax.{Object, Sender, just, Fn}
use uvexec.Senders.OnSender

unfoldable pub after : ℤ → Sender
unfolding OnSender.after
after timeout = OnSender.after (just ([])) timeout

unfoldable pub at_time : ℤ → Sender
unfolding OnSender.at_time
at_time timeout = OnSender.at_time (just ([])) timeout

unfoldable pub upon_signal : ℤ → Sender
unfolding OnSender.upon_signal
upon_signal signal = OnSender.upon_signal (just ([])) signal

unfoldable pub connect : Object → ℕ → Sender
unfolding OnSender.connect
connect socket endpoint = OnSender.connect (just (endpoint ∷ [])) socket

unfoldable pub accept : Object → Object → Sender
unfolding OnSender.accept
accept listener socket = OnSender.accept (just ([])) listener socket

unfoldable pub shutdown : Object → Sender
unfolding OnSender.shutdown
shutdown socket = OnSender.shutdown (just ([])) socket

unfoldable pub close : Object → Sender
unfolding OnSender.close
close socket = OnSender.close (just ([])) socket

unfoldable pub receive : Object → ℕ → Sender
unfolding OnSender.receive
receive socket buffer = OnSender.receive (just (buffer ∷ [])) socket

unfoldable pub read_some : Object → ℕ → Sender
unfolding OnSender.read_some
read_some socket buffer = OnSender.read_some (just (buffer ∷ [])) socket

unfoldable pub read_until : Object → ℕ → (ℕ → Bool) → Sender
unfolding OnSender.read_until
read_until socket buffer condition = OnSender.read_until (just (buffer ∷ [])) socket condition

unfoldable pub receive_from : Object → ℕ → ℕ → Sender
unfolding OnSender.receive_from
receive_from socket buffers endpoint = OnSender.receive_from (just (buffers ∷ endpoint ∷ [])) socket

unfoldable pub send : Object → ℕ → Sender
unfolding OnSender.send
send socket buffers = OnSender.send (just (buffers ∷ [])) socket

unfoldable pub write_some : Object → ℕ → Sender
unfolding OnSender.write_some
write_some socket buffers = OnSender.write_some (just (buffers ∷ [])) socket

unfoldable pub send_to : Object → ℕ → ℕ → Sender
unfolding OnSender.send_to
send_to socket buffers endpoint = OnSender.send_to (just (buffers ∷ endpoint ∷ [])) socket

unfoldable pub connect_to : ℕ → Fn → Sender
unfolding OnSender.connect_to
connect_to endpoint fn = OnSender.connect_to (just (endpoint ∷ [])) fn

unfoldable pub bind_to : ℕ → Fn → Sender
unfolding OnSender.bind_to
bind_to endpoint fn = OnSender.bind_to (just (endpoint ∷ [])) fn

unfoldable pub accept_from : Object → Fn → Sender
unfolding OnSender.accept_from
accept_from listener fn = OnSender.accept_from (just []) listener fn

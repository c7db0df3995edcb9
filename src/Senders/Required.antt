-- ===== src/Senders/Required.antt =====
-- include/uvexec/interface/uvexec.hpp: the completion signatures that each customisation point requires, where no one
-- customised it: TRequiredValueCompletionSignatures and TRequiredStoppedCompletionSignatures.
use uvexec.Base.{List, [], ◌∷◌}
use uvexec.Senders.Syntax.{
  Algorithm, after_t, at_t, upon_signal_t, connect_t, shutdown_t, close_t, accept_t, receive_t,
  read_some_t, receive_from_t, send_t, write_some_t, send_to_t, read_until_t,
}
use uvexec.Senders.Signatures.{Signature, stopped, void_value, length_value}

pub record Required : Type 0 where
  pub value : List Signature
  pub stopped : List Signature

unfoldable pub after : Required
after = record { value = void_value; stopped = stopped ∷ [] }

unfoldable pub at_time : Required
at_time = record { value = void_value; stopped = stopped ∷ [] }

unfoldable pub upon_signal : Required
upon_signal = record { value = void_value; stopped = stopped ∷ [] }

unfoldable pub connect : Required
connect = record { value = void_value; stopped = [] }

unfoldable pub accept : Required
accept = record { value = void_value; stopped = stopped ∷ [] }

unfoldable pub shutdown : Required
shutdown = record { value = void_value; stopped = [] }

unfoldable pub close : Required
close = record { value = void_value; stopped = [] }

unfoldable pub receive : Required
receive = record { value = length_value; stopped = stopped ∷ [] }

unfoldable pub read_some : Required
read_some = record { value = length_value; stopped = stopped ∷ [] }

unfoldable pub read_until : Required
read_until = record { value = length_value; stopped = stopped ∷ [] }

unfoldable pub receive_from : Required
receive_from = record { value = length_value; stopped = stopped ∷ [] }

unfoldable pub send : Required
send = record { value = void_value; stopped = [] }

unfoldable pub write_some : Required
write_some = record { value = void_value; stopped = [] }

unfoldable pub send_to : Required
send_to = record { value = void_value; stopped = [] }

unfoldable pub required : Algorithm → Required
unfolding after at_time upon_signal connect accept shutdown close receive read_some read_until
    receive_from send write_some send_to
required (after_t t) = after
required (at_t t) = at_time
required (upon_signal_t signum) = upon_signal
required (connect_t s) = connect
required (accept_t l s) = accept
required (shutdown_t s) = shutdown
required (close_t s) = close
required (receive_t s) = receive
required (read_some_t s) = read_some
required (read_until_t s condition) = read_until
required (receive_from_t s) = receive_from
required (send_t s) = send
required (write_some_t s) = write_some
required (send_to_t s) = send_to

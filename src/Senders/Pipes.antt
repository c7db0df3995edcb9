-- ===== src/Senders/Pipes.antt =====
-- Pipelines: what `sender | algorithm(...) | ...` makes.
use uvexec.Base.{ℕ, ◌≡◌, refl, Bool, Option, some, List, [], ◌∷◌, ℤ, and_then}
use uvexec.Senders.Syntax.{Object, Algorithm, Sender, just, sender_package, Fn}
use uvexec.Senders.Points.{scheduler_of, get_early_domain, domain_adaptor, apply}
use uvexec.Senders.Closures.{
  Closure, just_sender, pipe, call_sender, call_package, call_accept_from, call_socket_binder,
  call_socket_arg_binder, call_arg_binder,
}
use uvexec.Senders.OnSender
use uvexec.Senders.OnValues
use uvexec.Senders.Closures

-- Calls that leave the sender out.
pub data Call : Type 0 where
  after : ℤ → Call
  at_time : ℤ → Call
  upon_signal : ℤ → Call
  accept : Object → Object → Call
  shutdown : Object → Call
  close : Object → Call
  connect : Object → Call
  receive : Object → Call
  read_some : Object → Call
  receive_from : Object → Call
  send : Object → Call
  write_some : Object → Call
  send_to : Object → Call
  read_until : Object → (ℕ → Bool) → Call
  connect_to : Fn → Call
  bind_to : Fn → Call
  async_value : Fn → Call
  accept_from : Object → Fn → Call

unfoldable pub closure_of : Call → Closure
unfolding OnValues.after OnValues.at_time OnValues.upon_signal OnValues.accept OnValues.shutdown
    OnValues.close OnValues.accept_from Closures.connect Closures.receive Closures.read_some
    Closures.receive_from Closures.send Closures.write_some Closures.send_to Closures.read_until
    Closures.connect_to Closures.bind_to Closures.async_value
closure_of (Call.after timeout) = just_sender (OnValues.after timeout)
closure_of (Call.at_time timeout) = just_sender (OnValues.at_time timeout)
closure_of (Call.upon_signal signal) = just_sender (OnValues.upon_signal signal)
closure_of (Call.accept listener socket) = just_sender (OnValues.accept listener socket)
closure_of (Call.shutdown socket) = just_sender (OnValues.shutdown socket)
closure_of (Call.close socket) = just_sender (OnValues.close socket)
closure_of (Call.accept_from listener fn) = just_sender (OnValues.accept_from listener fn)
closure_of (Call.connect socket) = Closures.connect socket
closure_of (Call.receive socket) = Closures.receive socket
closure_of (Call.read_some socket) = Closures.read_some socket
closure_of (Call.receive_from socket) = Closures.receive_from socket
closure_of (Call.send socket) = Closures.send socket
closure_of (Call.write_some socket) = Closures.write_some socket
closure_of (Call.send_to socket) = Closures.send_to socket
closure_of (Call.read_until socket condition) = Closures.read_until socket condition
closure_of (Call.connect_to fn) = Closures.connect_to fn
closure_of (Call.bind_to fn) = Closures.bind_to fn
closure_of (Call.async_value fn) = Closures.async_value fn

unfoldable pub on_sender : Call → Sender → Sender
unfolding OnSender.after OnSender.at_time OnSender.upon_signal OnSender.accept OnSender.shutdown
    OnSender.close OnSender.connect OnSender.receive OnSender.read_some OnSender.receive_from
    OnSender.send OnSender.write_some OnSender.send_to OnSender.read_until OnSender.connect_to
    OnSender.bind_to OnSender.async_value OnSender.accept_from
on_sender (Call.after timeout) sender = OnSender.after sender timeout
on_sender (Call.at_time timeout) sender = OnSender.at_time sender timeout
on_sender (Call.upon_signal signal) sender = OnSender.upon_signal sender signal
on_sender (Call.accept listener socket) sender = OnSender.accept sender listener socket
on_sender (Call.shutdown socket) sender = OnSender.shutdown sender socket
on_sender (Call.close socket) sender = OnSender.close sender socket
on_sender (Call.connect socket) sender = OnSender.connect sender socket
on_sender (Call.receive socket) sender = OnSender.receive sender socket
on_sender (Call.read_some socket) sender = OnSender.read_some sender socket
on_sender (Call.receive_from socket) sender = OnSender.receive_from sender socket
on_sender (Call.send socket) sender = OnSender.send sender socket
on_sender (Call.write_some socket) sender = OnSender.write_some sender socket
on_sender (Call.send_to socket) sender = OnSender.send_to sender socket
on_sender (Call.read_until socket condition) sender = OnSender.read_until sender socket condition
on_sender (Call.connect_to fn) sender = OnSender.connect_to sender fn
on_sender (Call.bind_to fn) sender = OnSender.bind_to sender fn
on_sender (Call.async_value fn) sender = OnSender.async_value sender fn
on_sender (Call.accept_from listener fn) sender = OnSender.accept_from sender listener fn

-- The default domain leaves a package on stdexec::just() as it is.
apply-just : (a : Algorithm) → apply a (just []) ≡ sender_package a (just [])
unfolding apply
apply-just a = refl

pipe-closure_of :
    (c : Call) (sender : Sender) → pipe sender (closure_of c) ≡ some (on_sender c sender)
unfolding pipe closure_of on_sender call_sender call_package call_accept_from call_socket_binder
    call_socket_arg_binder call_arg_binder apply get_early_domain domain_adaptor scheduler_of
pipe-closure_of (Call.after timeout) sender = refl
pipe-closure_of (Call.at_time timeout) sender = refl
pipe-closure_of (Call.upon_signal signal) sender = refl
pipe-closure_of (Call.accept listener socket) sender = refl
pipe-closure_of (Call.shutdown socket) sender = refl
pipe-closure_of (Call.close socket) sender = refl
pipe-closure_of (Call.connect socket) sender = refl
pipe-closure_of (Call.receive socket) sender = refl
pipe-closure_of (Call.read_some socket) sender = refl
pipe-closure_of (Call.receive_from socket) sender = refl
pipe-closure_of (Call.send socket) sender = refl
pipe-closure_of (Call.write_some socket) sender = refl
pipe-closure_of (Call.send_to socket) sender = refl
pipe-closure_of (Call.read_until socket condition) sender = refl
pipe-closure_of (Call.connect_to fn) sender = refl
pipe-closure_of (Call.bind_to fn) sender = refl
pipe-closure_of (Call.async_value fn) sender = refl
pipe-closure_of (Call.accept_from listener fn) sender = refl

-- `sender | c | ...`, which groups to the left.
unfoldable pub pipes : Sender → List Closure → Option Sender
unfolding pipe
pipes sender [] = some sender
pipes sender (c ∷ cs) = and_then (pipe sender c) (λ s. pipes s cs)

abbrev pub map_calls : List Call → List Closure
map_calls [] = []
map_calls (c ∷ cs) = closure_of c ∷ map_calls cs

unfoldable pub nested : List Call → Sender → Sender
unfolding on_sender
nested [] sender = sender
nested (c ∷ cs) sender = nested cs (on_sender c sender)

-- A pipeline of calls that leave the sender out is well formed, and is the nested calls that take the sender first.
pub pipes-nested :
    (cs : List Call) (sender : Sender) → pipes sender (map_calls cs) ≡ some (nested cs sender)
unfolding pipes nested
pipes-nested [] sender = refl
pipes-nested (c ∷ cs) sender = rw (pipe-closure_of c sender) (pipes-nested cs (on_sender c sender))

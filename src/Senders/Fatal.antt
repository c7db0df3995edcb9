-- ===== src/Senders/Fatal.antt =====
-- TFatalOpState of include/uvexec/interface/domain.hpp: which chains end in it.
use uvexec.Base.{
  ◌≡◌, refl, ap, ◌∙◌, Bool, true, false, Option, none, some, List, [], ◌∷◌, ◌++◌, All,
}
use uvexec.Senders.Syntax.{
  Loop, Algorithm, Adaptor, after_sender, upon_signal_sender, connect_sender, shutdown_sender,
  close_sender, accept_sender, read_some_sender, receive_sender, receive_from_sender,
  read_until_sender, write_sender, send_sender, send_to_sender, Sender, sender_package, Receiver,
  connect_receiver, shutdown_receiver, close_receiver, write_receiver, send_receiver,
  send_to_receiver, of_op_state, Operation, after_op_state, upon_signal_op_state, accept_op_state,
  read_some_op_state, receive_op_state, receive_from_op_state, read_until_op_state,
  bind_to_op_state, async_value_op_state, fatal_op_state,
}
use uvexec.Senders.Signatures.{MakeSignatures}
use uvexec.Senders.Points.{scheduler_of, apply}
use uvexec.Senders.Classes.{SenderClass, class_of}
use uvexec.Senders.Connect.{connect, connect_package, late_adaptor}
use uvexec.Senders.Compiles.{connects}
use uvexec.Senders.Laws.{
  chain, supported, supported_adaptor, nest, connect-chain, FitsLoop, apply_default,
  scheduler_of-apply,
}

-- Whether an operation is, or holds, a TFatalOpState, which cannot be started.
unfoldable pub contains_fatal : Operation → Bool
contains_fatal (after_op_state loop type timeout op) = contains_fatal op
contains_fatal (upon_signal_op_state loop signum op) = contains_fatal op
contains_fatal (accept_op_state listener socket op) = contains_fatal op
contains_fatal (read_some_op_state socket op) = contains_fatal op
contains_fatal (receive_op_state socket op) = contains_fatal op
contains_fatal (receive_from_op_state socket op) = contains_fatal op
contains_fatal (read_until_op_state socket condition op) = contains_fatal op
contains_fatal (bind_to_op_state op fn) = contains_fatal op
contains_fatal (async_value_op_state op fn) = contains_fatal op
contains_fatal fatal_op_state = true
contains_fatal _ = false

abbrev NeverFatal : (Receiver → Operation) → Type 0
NeverFatal held = (rec : Receiver) → contains_fatal (held rec) ≡ false

module _ (std : MakeSignatures) (customisation : Algorithm → Option SenderClass) (loop : Loop) where
  class_of-NeverFatal :
      (adaptor : Adaptor) (held : Receiver → Operation)
      → NeverFatal held
      → NeverFatal ((class_of std adaptor).connect held)
  unfolding class_of contains_fatal
  class_of-NeverFatal (after_sender t l m) held h rec = h (of_op_state rec)
  class_of-NeverFatal (upon_signal_sender l n) held h rec = h (of_op_state rec)
  class_of-NeverFatal (connect_sender o) held h rec = h (connect_receiver o rec)
  class_of-NeverFatal (shutdown_sender o) held h rec = h (shutdown_receiver o rec)
  class_of-NeverFatal (close_sender o) held h rec = h (close_receiver o rec)
  class_of-NeverFatal (accept_sender l o) held h rec = h (of_op_state rec)
  class_of-NeverFatal (read_some_sender o) held h rec = h (of_op_state rec)
  class_of-NeverFatal (receive_sender o) held h rec = h (of_op_state rec)
  class_of-NeverFatal (receive_from_sender o) held h rec = h (of_op_state rec)
  class_of-NeverFatal (read_until_sender o c) held h rec = h (of_op_state rec)
  class_of-NeverFatal (write_sender o) held h rec = h (write_receiver o rec)
  class_of-NeverFatal (send_sender o) held h rec = h (send_receiver o rec)
  class_of-NeverFatal (send_to_sender o) held h rec = h (send_to_receiver o rec)

  abbrev AllSupported : List Algorithm → Type 0
  AllSupported steps = All (λ a. supported a ≡ true) steps

  nest-NeverFatal :
      (steps : List Algorithm) (held : Receiver → Operation)
      → AllSupported steps
      → NeverFatal held
      → NeverFatal (nest std customisation loop steps held)
  unfolding nest
  nest-NeverFatal [] held ok h = h
  nest-NeverFatal (a ∷ rest) held ok h = nest-NeverFatal rest _ ok.1 (
      let (adaptor, e) = supported_adaptor a loop ok.0 in
      rw (e) (class_of-NeverFatal adaptor held h))

  -- Where every algorithm of a chain has an implementation for its objects, and the sender at its start completes on the
  -- loop, or on none, and makes no fatal operation state, the chain makes none in the loop's environment, if its connect
  -- compiles.
  pub chain-NeverFatal :
      (steps : List Algorithm) (s : Sender) (rec : Receiver)
      → FitsLoop loop s
      → AllSupported steps
      → NeverFatal (connect std customisation (some loop) s)
      → connects (some loop) (chain steps s) ≡ true
      → contains_fatal (connect std customisation (some loop) (chain steps s) rec) ≡ false
  chain-NeverFatal steps s rec fits ok h compiles =
      rw (connect-chain std customisation loop steps s rec fits compiles)
        (nest-NeverFatal steps (connect std customisation (some loop) s) ok h rec)

module _ (std : MakeSignatures) (customisation : Algorithm → Option SenderClass) where
  connect-package-fatal :
      (a : Algorithm) (s : Sender) (rec : Receiver)
      → customisation a ≡ none
      → connect std customisation none (sender_package a s) rec ≡ fatal_op_state
  unfolding connect late_adaptor connect_package
  connect-package-fatal a s rec h = rw (h) refl

  -- A chain that starts on no loop and is connected in no loop's environment is one fatal operation state, whatever it
  -- holds, if its last algorithm is not customised for its tag alone.
  pub chain_without_loop :
      (steps : List Algorithm) (last : Algorithm) (s : Sender) (rec : Receiver)
      → scheduler_of s ≡ none
      → customisation last ≡ none
      → connect std customisation none (chain (steps ++ last ∷ []) s) rec ≡ fatal_op_state
  unfolding chain
  chain_without_loop [] last s rec h c =
      ap (λ t. connect std customisation none t rec) (apply_default last s h)
      ∙ connect-package-fatal last s rec c
  chain_without_loop (a ∷ rest) last s rec h c =
      chain_without_loop rest last (apply a s) rec (scheduler_of-apply a s ∙ h) c

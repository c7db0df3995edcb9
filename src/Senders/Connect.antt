-- ===== src/Senders/Connect.antt =====
-- How a sender is connected and which completion signatures it declares, in an environment: the recursion of the sender
-- classes over the sender they hold, and the late transformation of packages.
use uvexec.Base.{ℕ, Option, none, some, List, [], ◌∷◌}
use uvexec.Senders.Syntax.{
  Loop, own, tcp_socket, Algorithm, accept_t, Adaptor, Sender, just, foreign, schedule_sender,
  after_schedule_sender, upon_signal_schedule_sender, sender_package, adapt, connect_to_sender,
  bind_to_sender, async_value_sender, accept_from_sender, Receiver, Operation, just_op_state,
  foreign_op_state, fatal_op_state,
}
use uvexec.Senders.Signatures.{Signature, value_void, value_of, MakeSignatures}
use uvexec.Senders.Dispatch.{transform_with_env, or_else}
use uvexec.Senders.Points.{scheduler_of, domain_adaptor, get_early_domain}
use uvexec.Senders.Required.{required}
use uvexec.Senders.Classes.{
  SenderClass, schedule_class, after_schedule_class, upon_signal_schedule_class, class_of,
  connect_to_class, bind_to_class, async_value_class, accept_from_class,
}

-- The environment of a receiver: TLoopEnv of a loop, or one without a scheduler of TLoop and without its domain.
abbrev pub Env : Type 0
Env = Option Loop

-- stdexec transforms a sender by the domain of the receiver's environment before it connects it or asks for its signatures.
unfoldable pub late_adaptor : Env → Algorithm → Sender → Option Adaptor
unfolding transform_with_env scheduler_of
late_adaptor none a sender = none
late_adaptor (some loop) a sender = transform_with_env a (scheduler_of sender) (some loop)

-- TSenderPackage::tag_invoke(connect_t), for a tag with or without a customisation by its tag alone.
unfoldable pub connect_package : Option SenderClass → (Receiver → Operation) → Receiver → Operation
connect_package (some class) held rec = class.connect held rec
connect_package none held rec = fatal_op_state

-- `customisation` is what a program adds for a tag alone; the repository adds nothing.
module _ (std : MakeSignatures) (customisation : Algorithm → Option SenderClass) where
  unfoldable pub signatures_by : Option SenderClass → Algorithm → List Signature → List Signature
  unfolding required
  signatures_by (some class) a input = class.completion_signatures input
  signatures_by none a input = std.make input (required a).stopped (required a).value

  -- TSenderPackageBase::GetCompSigs
  unfoldable pub get_comp_sigs : Algorithm → List Signature → List Signature
  unfolding signatures_by
  get_comp_sigs a input = signatures_by (customisation a) a input

  abbrev pub connect_late :
      Option Adaptor → Algorithm → (Receiver → Operation) → Receiver → Operation
  connect_late (some adaptor) a held rec = (class_of std adaptor).connect held rec
  connect_late none a held rec = connect_package (customisation a) held rec

  unfoldable pub connect : Env → Sender → Receiver → Operation
  connect env (just values) rec = just_op_state values rec
  connect env (foreign number scheduler signatures) rec = foreign_op_state number rec
  connect env (schedule_sender loop) rec = (schedule_class loop).connect rec
  connect env (after_schedule_sender type loop timeout) rec =
      (after_schedule_class type loop timeout).connect rec
  connect env (upon_signal_schedule_sender loop signum) rec =
      (upon_signal_schedule_class loop signum).connect rec
  connect env (sender_package a sender) rec =
      connect_late (late_adaptor env a sender) a (connect env sender) rec
  connect env (adapt adaptor sender) rec = (class_of std adaptor).connect (connect env sender) rec
  connect env (connect_to_sender sender fn) rec =
      (connect_to_class std sender fn).connect (connect env sender) rec
  connect env (bind_to_sender sender fn) rec =
      (bind_to_class std fn).connect (connect env sender) rec
  connect env (async_value_sender sender fn) rec =
      (async_value_class std fn).connect (connect env sender) rec
  connect env (accept_from_sender sender listener fn) rec =
      (accept_from_class std sender listener fn).connect (connect env sender) rec

  abbrev pub late_signatures : Option Adaptor → Algorithm → List Signature → List Signature
  late_signatures (some adaptor) a input = (class_of std adaptor).completion_signatures input
  late_signatures none a input = get_comp_sigs a input

  -- stdexec::just declares its values.
  unfoldable pub just_signatures : List ℕ → List Signature
  just_signatures [] = value_void ∷ []
  just_signatures (v ∷ vs) = value_of v ∷ []

  unfoldable pub completion_signatures : Env → Sender → List Signature
  unfolding just_signatures domain_adaptor get_early_domain scheduler_of
  completion_signatures env (just values) = just_signatures values
  completion_signatures env (foreign number scheduler signatures) = signatures
  completion_signatures env (schedule_sender loop) = (schedule_class loop).completion_signatures
  completion_signatures env (after_schedule_sender type loop timeout) =
      (after_schedule_class type loop timeout).completion_signatures
  completion_signatures env (upon_signal_schedule_sender loop signum) =
      (upon_signal_schedule_class loop signum).completion_signatures
  completion_signatures env (sender_package a sender) =
      late_signatures (late_adaptor env a sender) a (completion_signatures env sender)
  completion_signatures env (adapt adaptor sender) =
      (class_of std adaptor).completion_signatures (completion_signatures env sender)
  completion_signatures env (connect_to_sender sender fn) =
      (connect_to_class std sender fn).completion_signatures (completion_signatures env sender)
  completion_signatures env (bind_to_sender sender fn) =
      (bind_to_class std fn).completion_signatures (completion_signatures env sender)
  completion_signatures env (async_value_sender sender fn) =
      (async_value_class std fn).completion_signatures (completion_signatures env sender)
  completion_signatures env (accept_from_sender sender listener fn) =
      let accept = accept_t listener (tcp_socket (own fn.number)) in
      (accept_from_class std sender listener fn).completion_signatures (
        late_signatures
          (or_else (domain_adaptor (get_early_domain sender) accept (scheduler_of sender))
            (late_adaptor env accept sender))
          accept (completion_signatures env sender))

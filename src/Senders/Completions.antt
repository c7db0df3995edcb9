-- ===== src/Senders/Completions.antt =====
-- The completions of the operations against the completion signatures that their senders declare.
use uvexec.Base.{
  ◌≡◌, refl, ◌∙◌, Bool, true, false, ◌&&◌, ◌||◌, some, List, [], ◌∷◌, arith, ◌==◌, if◌then◌else◌,
  pos, eq_ℤ, All, run,
}
use uvexec.Uv.{UvError, Errc, is_error, Signal, set_value, set_error, set_stopped}
use uvexec.Stream.ReadSome.{Span}
use uvexec.Request.State.{new, settle}
use uvexec.Request.Write
use uvexec.Request.Send
use uvexec.Request.SendTo
use uvexec.Request.Control.{
  SocketType, shutdown_set_value, shutdown_callback, connect_set_value, connect_callback,
  close_set_value, close_callback,
}
use uvexec.Request.Laws.{
  outcome, write_completes, send_completes, send_to_completes, control_completes,
}
use uvexec.Scope
use uvexec.Scope.{starts, inner, value, failed}
use uvexec.Scope.ConnectTo
use uvexec.Scope.BindTo
use uvexec.Scope.Course.{ended}
use uvexec.Senders.Syntax.{Object, Sender, Fn}
use uvexec.Senders.Signatures.{
  Signature, value_void, error_errc, error_exception, stopped, MakeSignatures, declares, has_value,
  is_value, same_signature,
}
use uvexec.Senders.Classes.{
  connect_class, shutdown_class, close_class, write_class, send_class, send_to_class,
  connect_to_class, bind_to_class,
}

abbrev pub signature_of : Signal (Unit {0}) → Signature
signature_of (set_value u) = value_void
signature_of (set_error e) = error_errc
signature_of set_stopped = stopped

-- Every one of the completions is declared.
abbrev pub AllDeclared : List Signature → List (Signal (Unit {0})) → Type 0
AllDeclared declared completions = All (λ c. declares declared (signature_of c) ≡ true) completions

and_false : (b : Bool) → ((b && false) || false) ≡ false
and_false true = refl
and_false false = refl

module _ (std : MakeSignatures) where
  closed-AllDeclared :
      (input : List Signature)
      → has_value input ≡ true
      → AllDeclared (std.make input [] (value_void ∷ [])) (set_value tt ∷ [])
  unfolding declares same_signature is_value
  closed-AllDeclared input h = (rw (std.make_lem input [] (value_void ∷ []) value_void, h) refl, tt)

  declares-algorithm :
      (input : List Signature)
      → has_value input ≡ true
      → (declares (std.make input (error_errc ∷ []) (value_void ∷ [])) value_void ≡ true)
        × (declares (std.make input (error_errc ∷ []) (value_void ∷ [])) error_errc ≡ true)
  unfolding declares same_signature is_value
  declares-algorithm input h = (
    rw (std.make_lem input (error_errc ∷ []) (value_void ∷ []) value_void, h) refl,
    rw (std.make_lem input (error_errc ∷ []) (value_void ∷ []) error_errc) refl,
  )

  outcome-AllDeclared :
      (input : List Signature) (err status : UvError)
      → has_value input ≡ true
      → AllDeclared (std.make input (error_errc ∷ []) (value_void ∷ [])) (outcome err status ∷ [])
  unfolding is_error
  outcome-AllDeclared input err status h = let (v, e) = declares-algorithm input h in ground arith

  -- What the receivers of one request complete with, over a sender that completes with a value, is among the signatures
  -- that the senders of write, send, send_to, shutdown, connect and close declare.
  pub completions_declared :
      (input : List Signature) (buff : Span) (buffs : List Span) (err status : UvError) (o : Object)
      → has_value input ≡ true
      → AllDeclared
          ((write_class std o).completion_signatures input)
          (settle Write.write_callback status (Write.set_value_bytes buff err new)).completions
        × AllDeclared
            ((write_class std o).completion_signatures input)
            (settle Write.write_callback status (Write.set_value_buffs buffs err new)).completions
        × AllDeclared
            ((send_class std o).completion_signatures input)
            (settle Send.send_callback status (Send.set_value_bytes buff err new)).completions
        × AllDeclared
            ((send_class std o).completion_signatures input)
            (settle Send.send_callback status (Send.set_value_buffs buffs err new)).completions
        × AllDeclared
            ((send_to_class std o).completion_signatures input)
            (settle SendTo.send_callback status (SendTo.set_value_bytes buff err new)).completions
        × AllDeclared
            ((send_to_class std o).completion_signatures input)
            (settle SendTo.send_callback status (SendTo.set_value_buffs buffs err new)).completions
        × AllDeclared
            ((shutdown_class std o).completion_signatures input)
            (settle shutdown_callback status (shutdown_set_value err new)).completions
        × AllDeclared
            ((connect_class std o).completion_signatures input)
            (settle connect_callback status (connect_set_value SocketType.tcp err new)).completions
        × AllDeclared
            ((connect_class std o).completion_signatures input)
            (settle connect_callback status (connect_set_value SocketType.udp err new)).completions
        × AllDeclared
            ((close_class std o).completion_signatures input)
            (settle (λ _. close_callback) status (close_set_value new)).completions
  unfolding write_class send_class send_to_class shutdown_class connect_class close_class
  completions_declared input buff buffs err status o h =
      let written = write_completes buff buffs err status in
      let sent = send_completes buff buffs err status in
      let sent_to = send_to_completes buff buffs err status in
      let controlled = control_completes err status in
      let one = outcome-AllDeclared input err status h in
      (
        rw (written.0) one,
        rw (written.1) one,
        rw (sent.0) (sent-AllDeclared (buff.size == 0)),
        rw (sent.1) one,
        rw (sent_to.0) one,
        rw (sent_to.1) one,
        rw (controlled.0) one,
        rw (controlled.1) one,
        rw (controlled.2) (outcome-AllDeclared input err (pos 0) h),
        rw (controlled.3) (closed-AllDeclared input h),
      )
    where
      sent-AllDeclared :
          (empty : Bool)
          → AllDeclared
              (std.make input (error_errc ∷ []) (value_void ∷ []))
              (if empty then outcome err status ∷ set_value tt ∷ [] else outcome err status ∷ [])
      sent-AllDeclared true =
          let (v, e) = declares-algorithm input h in
          ((outcome-AllDeclared input err status h).0, (v, tt))
      sent-AllDeclared false = outcome-AllDeclared input err status h

  -- connect_to and bind_to complete their receiver with an error of libuv where their socket cannot be made, although
  -- they do not declare one, if neither their sender nor the body does.
  pub errc_undeclared :
      (input : List Signature) (sender : Sender) (fn : Fn) (e : Errc)
      → eq_ℤ e (pos 0) ≡ false
      → declares input error_errc ≡ false
      → declares fn.signatures error_errc ≡ false
      → let refused : Scope.Answers = record { init = e; bind = pos 0; throws = false } in
        (run ConnectTo.step (starts refused ∷ []) Scope.new ≡ some (ended false 0 false (failed e)))
        × (declares ((connect_to_class std sender fn).completion_signatures input) error_errc
            ≡ false)
        × (run BindTo.step (starts refused ∷ inner (value 0) refused ∷ []) Scope.new
            ≡ some (ended false 0 false (failed e)))
        × (declares ((bind_to_class std fn).completion_signatures input) error_errc ≡ false)
  unfolding connect_to_class bind_to_class declares same_signature is_value ConnectTo.step
      ConnectTo.emplace_and_start_initially BindTo.step BindTo.start BindTo.complete_inner
      BindTo.emplace_and_start_body
  errc_undeclared input sender fn e nonzero quiet calm =
      let undeclared : declares (std.make input (error_exception ∷ []) fn.signatures) error_errc
          ≡ false =
        std.make_lem input (error_exception ∷ []) fn.signatures error_errc
        ∙ rw (quiet, calm) (and_false (has_value input)) in
      (rw (nonzero) refl, undeclared, rw (nonzero) refl, undeclared)

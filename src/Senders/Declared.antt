-- ===== src/Senders/Declared.antt =====
-- The completion signatures that the domain's senders declare, against those that the customisation points require.
use uvexec.Base.{
  ◌≡◌, refl, ap, ◌∙◌, inl, inr, Bool, true, false, ◌||◌, Option, none, some, List, ◌∷◌, or_assoc,
}
use uvexec.Senders.Syntax.{
  Loop, tcp_socket, tcp_listener, udp_socket, Algorithm, after_t, at_t, upon_signal_t, connect_t,
  shutdown_t, close_t, accept_t, receive_t, read_some_t, receive_from_t, send_t, write_some_t,
  send_to_t, read_until_t, Adaptor, Sender, sender_package,
}
use uvexec.Senders.Signatures.{Signature, error_errc, MakeSignatures, declares, same_signature}
use uvexec.Senders.Dispatch.{customised}
use uvexec.Senders.Points.{scheduler_of, transformed, apply}
use uvexec.Senders.Required.{required}
use uvexec.Senders.Classes.{SenderClass, class_of}
use uvexec.Senders.Connect.{
  completion_signatures, get_comp_sigs, late_signatures, late_adaptor, signatures_by,
}
use uvexec.Senders.Laws.{FitsLoop, supported, apply_default, apply_in_loop, transform-customised}

-- Every algorithm but close asks libuv for something that can fail.
unfoldable pub can_fail : Algorithm → Bool
can_fail (close_t handle) = false
can_fail _ = true

-- The signature of an error of libuv, where it can fail.
unfoldable pub fails_with : Bool → Signature → Bool
unfolding same_signature
fails_with false σ = false
fails_with true σ = same_signature error_errc σ

module _ (std : MakeSignatures) (customisation : Algorithm → Option SenderClass) (loop : Loop) where
  make-error :
      (input values more : List Signature) (σ : Signature)
      → declares (std.make input (error_errc ∷ more) values) σ
        ≡ fails_with true σ || declares (std.make input more values) σ
  unfolding declares fails_with
  make-error input values more σ =
      rw (std.make_lem input (error_errc ∷ more) values σ, std.make_lem input more values σ)
        (or_assoc (same_signature error_errc σ) (declares more σ) _)

  -- What a domain's sender declares, over the same input as its package.
  late_signatures-required :
      (a : Algorithm) (input : List Signature) (σ : Signature)
      → supported a ≡ true
      → declares (late_signatures std customisation (customised a (some loop)) a input) σ
        ≡ fails_with (can_fail a) σ
          || declares (std.make input (required a).stopped (required a).value) σ
  unfolding customised class_of can_fail required supported fails_with
  late_signatures-required (after_t timeout) input σ h = make-error input _ _ σ
  late_signatures-required (at_t timeout) input σ h = make-error input _ _ σ
  late_signatures-required (upon_signal_t signum) input σ h = make-error input _ _ σ
  late_signatures-required (connect_t (tcp_socket s)) input σ h = make-error input _ _ σ
  late_signatures-required (connect_t (udp_socket s)) input σ h = make-error input _ _ σ
  late_signatures-required (shutdown_t (tcp_socket s)) input σ h = make-error input _ _ σ
  late_signatures-required (close_t (tcp_socket s)) input σ h = refl
  late_signatures-required (close_t (tcp_listener l)) input σ h = refl
  late_signatures-required (close_t (udp_socket s)) input σ h = refl
  late_signatures-required (accept_t (tcp_listener l) (tcp_socket s)) input σ h =
      make-error input _ _ σ
  late_signatures-required (receive_t (tcp_socket s)) input σ h = make-error input _ _ σ
  late_signatures-required (receive_t (udp_socket s)) input σ h = make-error input _ _ σ
  late_signatures-required (read_some_t (tcp_socket s)) input σ h = make-error input _ _ σ
  late_signatures-required (read_until_t (tcp_socket s) condition) input σ h =
      make-error input _ _ σ
  late_signatures-required (receive_from_t (udp_socket s)) input σ h = make-error input _ _ σ
  late_signatures-required (send_t (tcp_socket s)) input σ h = make-error input _ _ σ
  late_signatures-required (send_t (udp_socket s)) input σ h = make-error input _ _ σ
  late_signatures-required (write_some_t (tcp_socket s)) input σ h = make-error input _ _ σ
  late_signatures-required (send_to_t (udp_socket s)) input σ h = make-error input _ _ σ
  late_signatures-required _ input σ h = absurd (cc)

  signatures_of_transformed :
      (o : Option Adaptor) (a : Algorithm) (s : Sender)
      → customised a (some loop) ≡ o
      → completion_signatures std customisation (some loop) (transformed o a s)
        ≡ late_signatures std customisation o a
            (completion_signatures std customisation (some loop) s)
  unfolding completion_signatures late_adaptor
  signatures_of_transformed (some adaptor) a s h = refl
  signatures_of_transformed none a s h =
      ap
        (λ o.
          late_signatures std customisation o a
            (completion_signatures std customisation (some loop) s))
        (transform-customised a (scheduler_of s) loop ∙ h)

  signatures_of_package :
      (a : Algorithm) (s : Sender)
      → completion_signatures std customisation (some loop) (sender_package a s)
        ≡ late_signatures std customisation
            (customised a (some loop))
            a
            (completion_signatures std customisation (some loop) s)
  unfolding completion_signatures late_adaptor
  signatures_of_package a s =
      ap
        (λ o.
          late_signatures std customisation o a
            (completion_signatures std customisation (some loop) s))
        (transform-customised a (scheduler_of s) loop)

  completion_signatures-apply :
      (a : Algorithm) (s : Sender)
      → FitsLoop loop s
      → completion_signatures std customisation (some loop) (apply a s)
        ≡ late_signatures std customisation
            (customised a (some loop))
            a
            (completion_signatures std customisation (some loop) s)
  completion_signatures-apply a s (inl h) =
      ap (completion_signatures std customisation (some loop)) (apply_default a s h)
      ∙ signatures_of_package a s
  completion_signatures-apply a s (inr h) =
      ap (completion_signatures std customisation (some loop)) (apply_in_loop a s loop h)
      ∙ signatures_of_transformed (customised a (some loop)) a s refl

  -- In a loop's environment, an algorithm with an implementation for its objects and no customisation for
  -- its tag alone declares, over a sender that completes on the loop or on none, what its customisation
  -- point requires of it, and besides only set_error(EErrc), which close does not.
  pub declares-apply :
      (a : Algorithm) (s : Sender) (σ : Signature)
      → FitsLoop loop s
      → supported a ≡ true
      → customisation a ≡ none
      → declares (completion_signatures std customisation (some loop) (apply a s)) σ
        ≡ fails_with (can_fail a) σ
          || declares
              (get_comp_sigs std customisation a
                (completion_signatures std customisation (some loop) s))
              σ
  unfolding get_comp_sigs signatures_by
  declares-apply a s σ fits h c =
      rw (completion_signatures-apply a s fits, get_comp_sigs, c)
        (late_signatures-required a (completion_signatures std customisation (some loop) s) σ h)

-- ===== src/Senders/Laws.antt =====
-- What the domain makes of a chain of algorithms, written with or without a scheduler at its start.
use uvexec.Base.{
  ◌≡◌, refl, ap, ◌∙◌, fun_ext, ◌⊎◌, inl, inr, Bool, true, false, Option, none, some, List, [], ◌∷◌,
}
use uvexec.Senders.Syntax.{
  Loop, tcp_socket, tcp_listener, udp_socket, Algorithm, after_t, at_t, upon_signal_t, connect_t,
  shutdown_t, close_t, accept_t, receive_t, read_some_t, receive_from_t, send_t, write_some_t,
  send_to_t, read_until_t, Adaptor, Sender, sender_package, Receiver, Operation,
}
use uvexec.Senders.Signatures.{MakeSignatures}
use uvexec.Senders.Dispatch.{customised, transform_with_env}
use uvexec.Senders.Points.{
  scheduler_of, get_early_domain, domain_of, domain_adaptor, transformed, apply,
}
use uvexec.Senders.Classes.{SenderClass}
use uvexec.Senders.Compiles.{connects}
use uvexec.Senders.Connect.{connect, connect_late, late_adaptor}

-- `sender | a | b | ...`
unfoldable pub chain : List Algorithm → Sender → Sender
chain [] sender = sender
chain (a ∷ rest) sender = chain rest (apply a sender)

-- The objects that each algorithm has an implementation for.
unfoldable pub supported : Algorithm → Bool
supported (after_t timeout) = true
supported (at_t timeout) = true
supported (upon_signal_t signum) = true
supported (connect_t (tcp_socket s)) = true
supported (connect_t (udp_socket s)) = true
supported (shutdown_t (tcp_socket s)) = true
supported (close_t (tcp_socket s)) = true
supported (close_t (tcp_listener l)) = true
supported (close_t (udp_socket s)) = true
supported (accept_t (tcp_listener l) (tcp_socket s)) = true
supported (receive_t (tcp_socket s)) = true
supported (receive_t (udp_socket s)) = true
supported (read_some_t (tcp_socket s)) = true
supported (read_until_t (tcp_socket s) condition) = true
supported (receive_from_t (udp_socket s)) = true
supported (send_t (tcp_socket s)) = true
supported (send_t (udp_socket s)) = true
supported (write_some_t (tcp_socket s)) = true
supported (send_to_t (udp_socket s)) = true
supported _ = false

pub supported_adaptor :
    (a : Algorithm) (loop : Loop)
    → supported a ≡ true
    → (adaptor : Adaptor) × (customised a (some loop) ≡ some adaptor)
unfolding supported customised
supported_adaptor (after_t timeout) loop h = (_, refl)
supported_adaptor (at_t timeout) loop h = (_, refl)
supported_adaptor (upon_signal_t signum) loop h = (_, refl)
supported_adaptor (connect_t (tcp_socket s)) loop h = (_, refl)
supported_adaptor (connect_t (udp_socket s)) loop h = (_, refl)
supported_adaptor (shutdown_t (tcp_socket s)) loop h = (_, refl)
supported_adaptor (close_t (tcp_socket s)) loop h = (_, refl)
supported_adaptor (close_t (tcp_listener l)) loop h = (_, refl)
supported_adaptor (close_t (udp_socket s)) loop h = (_, refl)
supported_adaptor (accept_t (tcp_listener l) (tcp_socket s)) loop h = (_, refl)
supported_adaptor (receive_t (tcp_socket s)) loop h = (_, refl)
supported_adaptor (receive_t (udp_socket s)) loop h = (_, refl)
supported_adaptor (read_some_t (tcp_socket s)) loop h = (_, refl)
supported_adaptor (read_until_t (tcp_socket s) condition) loop h = (_, refl)
supported_adaptor (receive_from_t (udp_socket s)) loop h = (_, refl)
supported_adaptor (send_t (tcp_socket s)) loop h = (_, refl)
supported_adaptor (send_t (udp_socket s)) loop h = (_, refl)
supported_adaptor (write_some_t (tcp_socket s)) loop h = (_, refl)
supported_adaptor (send_to_t (udp_socket s)) loop h = (_, refl)
supported_adaptor _ loop h = absurd (cc)

-- Where the environment has the same loop, the domain gives the same adaptor early and late.
pub transform-customised :
    (a : Algorithm) (scheduler : Option Loop) (loop : Loop)
    → transform_with_env a scheduler (some loop) ≡ customised a (some loop)
unfolding transform_with_env customised
transform-customised (after_t t) scheduler loop = refl
transform-customised (at_t t) scheduler loop = refl
transform-customised (upon_signal_t n) scheduler loop = refl
transform-customised (connect_t o) scheduler loop = refl
transform-customised (shutdown_t o) scheduler loop = refl
transform-customised (close_t o) scheduler loop = refl
transform-customised (accept_t l o) scheduler loop = refl
transform-customised (receive_t o) scheduler loop = refl
transform-customised (read_some_t o) scheduler loop = refl
transform-customised (receive_from_t o) scheduler loop = refl
transform-customised (send_t o) scheduler loop = refl
transform-customised (write_some_t o) scheduler loop = refl
transform-customised (send_to_t o) scheduler loop = refl
transform-customised (read_until_t o c) scheduler loop = refl

scheduler_of-transformed :
    (o : Option Adaptor) (a : Algorithm) (s : Sender)
    → scheduler_of (transformed o a s) ≡ scheduler_of s
unfolding scheduler_of
scheduler_of-transformed (some adaptor) a s = refl
scheduler_of-transformed none a s = refl

pub scheduler_of-apply : (a : Algorithm) (s : Sender) → scheduler_of (apply a s) ≡ scheduler_of s
unfolding apply
scheduler_of-apply a s =
    scheduler_of-transformed (domain_adaptor (get_early_domain s) a (scheduler_of s)) a s

pub apply_default :
    (a : Algorithm) (s : Sender) → scheduler_of s ≡ none → apply a s ≡ sender_package a s
unfolding apply get_early_domain domain_adaptor
apply_default a s h = ap (λ o. transformed (domain_adaptor (domain_of o) a o) a s) h

pub apply_in_loop :
    (a : Algorithm) (s : Sender) (loop : Loop)
    → scheduler_of s ≡ some loop
    → apply a s ≡ transformed (customised a (some loop)) a s
unfolding apply get_early_domain domain_adaptor
apply_in_loop a s loop h = ap (λ o. transformed (domain_adaptor (domain_of o) a o) a s) h

-- The sender's scheduler is the loop's, or it has none.
abbrev pub FitsLoop : Loop → Sender → Type 0
FitsLoop loop s = (scheduler_of s ≡ none) ⊎ (scheduler_of s ≡ some loop)

module _ (std : MakeSignatures) (customisation : Algorithm → Option SenderClass) (loop : Loop) where
  -- The operation that a chain makes, from the inside out: what the adaptors that the domain has for the loop's scheduler
  -- connect to.
  unfoldable pub nest : List Algorithm → (Receiver → Operation) → Receiver → Operation
  nest [] held = held
  nest (a ∷ rest) held =
      nest rest (connect_late std customisation (customised a (some loop)) a held)

  connect-package :
      (a : Algorithm) (s : Sender) (rec : Receiver)
      → connect std customisation (some loop) (sender_package a s) rec
        ≡ connect_late std customisation
            (customised a (some loop))
            a
            (connect std customisation (some loop) s)
            rec
  unfolding connect late_adaptor
  connect-package a s rec =
      ap (λ o. connect_late std customisation o a (connect std customisation (some loop) s) rec)
        (transform-customised a (scheduler_of s) loop)

  connect-transformed :
      (o : Option Adaptor) (a : Algorithm) (s : Sender) (rec : Receiver)
      → customised a (some loop) ≡ o
      → connect std customisation (some loop) (transformed o a s) rec
        ≡ connect_late std customisation o a (connect std customisation (some loop) s) rec
  unfolding connect
  connect-transformed (some adaptor) a s rec h = refl
  connect-transformed none a s rec h =
      connect-package a s rec
      ∙ ap (λ o. connect_late std customisation o a (connect std customisation (some loop) s) rec) h

  -- Early or late, the domain puts the same adaptor around the sender.
  connect-apply :
      (a : Algorithm) (s : Sender) (rec : Receiver)
      → FitsLoop loop s
      → connect std customisation (some loop) (apply a s) rec
        ≡ connect_late std customisation
            (customised a (some loop))
            a
            (connect std customisation (some loop) s)
            rec
  connect-apply a s rec (inl h) =
      ap (λ t. connect std customisation (some loop) t rec) (apply_default a s h)
      ∙ connect-package a s rec
  connect-apply a s rec (inr h) =
      ap (λ t. connect std customisation (some loop) t rec) (apply_in_loop a s loop h)
      ∙ connect-transformed (customised a (some loop)) a s rec refl

  FitsLoop-apply : (a : Algorithm) (s : Sender) → FitsLoop loop s → FitsLoop loop (apply a s)
  FitsLoop-apply a s (inl h) = inl (scheduler_of-apply a s ∙ h)
  FitsLoop-apply a s (inr h) = inr (scheduler_of-apply a s ∙ h)

  -- A chain on a sender that completes on the loop, or on none, makes in the loop's environment the operation that its
  -- adaptors nest, where its connect compiles, which it does not if shutdown is held over just() in it: it does not matter
  -- whether the domain transforms it when it is written or when it is connected.
  pub connect-chain :
      (steps : List Algorithm) (s : Sender) (rec : Receiver)
      → FitsLoop loop s
      → connects (some loop) (chain steps s) ≡ true
      → connect std customisation (some loop) (chain steps s) rec
        ≡ nest steps (connect std customisation (some loop) s) rec
  unfolding chain nest
  connect-chain [] s rec h c = refl
  connect-chain (a ∷ rest) s rec h c =
      connect-chain rest (apply a s) rec (FitsLoop-apply a s h) c
      ∙ ap (λ held. nest rest held rec) (fun_ext (λ r. connect-apply a s r h))

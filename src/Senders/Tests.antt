-- ===== src/Senders/Tests.antt =====
-- Chains of senders at work, and the laws at them.
use uvexec.Base.{
  ◌≡◌, refl, sym, ap, ◌∙◌, inl, Bool, true, false, not, ◌&&◌, ◌||◌, Option, none, some, List, [],
  ◌∷◌, ◌++◌, arith, if◌then◌else◌, pos, negsuc, or_assoc,
}
use uvexec.Senders.Syntax.{
  own, tcp_socket, Algorithm, after_t, shutdown_t, close_t, read_some_t, Sender, just, Fn,
  downstream, close_receiver, of_op_state, Operation, just_op_state, after_schedule_op_state,
  after_op_state, read_some_op_state,
}
use uvexec.Senders.Signatures.{
  Signature, value_void, value_size, value_of, error_errc, error_exception, error_of, stopped,
  MakeSignatures, declares, has_value, is_value, same_signature,
}
use uvexec.Senders.Dispatch.{customised}
use uvexec.Senders.Classes.{SenderClass, after_schedule_class, class_of, write_class, bind_to_class}
use uvexec.Request.State.{new, settle}
use uvexec.Request.Write
use uvexec.Stream.ReadSome.{Span}
use uvexec.Senders.Connect.{connect, completion_signatures, get_comp_sigs}
use uvexec.Senders.Connect.{late_adaptor}
use uvexec.Senders.Points.{apply}
use uvexec.Senders.Compiles.{connects, adaptor_connects}
use uvexec.Senders.Laws.{chain, supported, nest, connect-chain}
use uvexec.Senders.Declared.{declares-apply, fails_with, can_fail}
use uvexec.Timer.Timeout.{TimerType}
use uvexec.Senders.Points.{apply, scheduler_of, get_early_domain, domain_adaptor, schedule_after}
use uvexec.Senders.Pipes.{Call}
use uvexec.Senders.Completions.{AllDeclared, completions_declared, errc_undeclared}

-- The signatures by concatenation.
abbrev without_values : List Signature → List Signature
without_values [] = []
without_values (s ∷ rest) = if is_value s then without_values rest else s ∷ without_values rest

abbrev union : (input additional values : List Signature) → List Signature
union input additional values =
    additional ++ ((if has_value input then values else []) ++ without_values input)

declares-append :
    (l m : List Signature) (s : Signature) → declares (l ++ m) s ≡ (declares l s || declares m s)
unfolding declares
declares-append [] m s = refl
declares-append (x ∷ l) m s =
    rw (declares-append l m s) (sym (or_assoc (same_signature x s) (declares l s) (declares m s)))

same_kind : (x s : Signature) → same_signature x s ≡ true → is_value x ≡ is_value s
unfolding same_signature is_value
same_kind value_void s h = ground arith
same_kind value_size s h = ground arith
same_kind (value_of n) s h = ground arith
same_kind error_errc s h = ground arith
same_kind error_exception s h = ground arith
same_kind (error_of n) s h = ground arith
same_kind stopped s h = ground arith

drop_value :
    (same vx vs d : Bool)
    → (same ≡ true → vx ≡ vs)
    → (if vx then not vs && d else same || not vs && d) ≡ (not vs && (same || d))
drop_value true true true d h = refl
drop_value true true false d h = absurd (let e = h refl in cc)
drop_value true false true d h = absurd (let e = h refl in cc)
drop_value true false false d h = refl
drop_value false true vs d h = refl
drop_value false false vs d h = refl

declares-if :
    (b : Bool) (l m : List Signature) (s : Signature)
    → declares (if b then l else m) s ≡ (if b then declares l s else declares m s)
declares-if true l m s = refl
declares-if false l m s = refl

declares-without_values :
    (l : List Signature) (s : Signature)
    → declares (without_values l) s ≡ (not (is_value s) && declares l s)
unfolding declares
declares-without_values [] s = ground arith
declares-without_values (x ∷ l) s =
    declares-if (is_value x) (without_values l) (x ∷ without_values l) s
    ∙ rw (declares-without_values l s)
        (drop_value (same_signature x s) (is_value x) (is_value s) (declares l s) (same_kind x s))

if_false : (b c : Bool) → (if b then c else false) ≡ (b && c)
if_false true c = refl
if_false false c = refl

union_lem :
    (input additional values : List Signature) (s : Signature)
    → declares (union input additional values) s
      ≡ declares additional s
        || (has_value input && declares values s || not (is_value s) && declares input s)
unfolding declares
union_lem input additional values s =
    declares-append additional ((if has_value input then values else []) ++ without_values input) s
    ∙ ap (λ b. declares additional s || b)
        (declares-append (if has_value input then values else []) (without_values input) s
          ∙ rw (declares-without_values input s, declares-if (has_value input) values [] s)
              (ap (λ b. b || (not (is_value s) && declares input s))
                (if_false (has_value input) (declares values s))))

abbrev std : MakeSignatures
std = record { make = union; make_lem = union_lem }

abbrev nothing : Algorithm → Option SenderClass
nothing a = none

-- read from a socket for at most a second, then close it
abbrev steps : List Algorithm
steps = read_some_t (tcp_socket (own 1)) ∷ after_t (pos 1000) ∷ close_t (tcp_socket (own 1)) ∷ []

abbrev buffer : Sender
buffer = just (7 ∷ [])

abbrev timed_read : Operation
timed_read = after_op_state 0 TimerType.after 1000 (
    read_some_op_state (tcp_socket (own 1)) (
      just_op_state (7 ∷ [])
        (of_op_state (of_op_state (close_receiver (tcp_socket (own 1)) downstream)))))

nested_read : nest std nothing 0 steps (connect std nothing (some 0) buffer) downstream ≡ timed_read
unfolding nest connect customised class_of
nested_read = refl

steps_connect : connects (some 0) (chain steps buffer) ≡ true
unfolding connects adaptor_connects chain apply late_adaptor
steps_connect = refl

connect-chain_example :
    connect std nothing (some 0) (chain steps buffer) downstream
    ≡ nest std nothing 0 steps (connect std nothing (some 0) buffer) downstream
unfolding scheduler_of
connect-chain_example = connect-chain std nothing 0 steps buffer downstream (inl refl) steps_connect

-- Shutdown over just() does not compile.
shutdown_just : connects (some 0) (chain (shutdown_t (tcp_socket (own 1)) ∷ []) (just [])) ≡ false
unfolding connects adaptor_connects chain apply late_adaptor
shutdown_just = refl

declares-apply_example :
    declares
      (completion_signatures std nothing (some 0) (apply (read_some_t (tcp_socket (own 1))) buffer))
      error_errc
    ≡ (fails_with (can_fail (read_some_t (tcp_socket (own 1)))) error_errc
        || declares
            (get_comp_sigs std nothing
              (read_some_t (tcp_socket (own 1)))
              (completion_signatures std nothing (some 0) buffer))
            error_errc)
unfolding scheduler_of supported
declares-apply_example =
    declares-apply std nothing 0 (read_some_t (tcp_socket (own 1))) buffer error_errc (inl refl)
      refl refl

abbrev word : Span
word = record { start = 16; size = 8 }

abbrev calls : List Call
calls =
    Call.read_some (tcp_socket (own 1))
    ∷ Call.after (pos 1000)
    ∷ Call.close (tcp_socket (own 1))
    ∷ []

completions_declared_example :
    AllDeclared
      ((write_class std (tcp_socket (own 1))).completion_signatures (value_void ∷ []))
      (settle Write.write_callback (pos 0) (Write.set_value_bytes word (pos 0) new)).completions
unfolding has_value
completions_declared_example =
    (completions_declared std (value_void ∷ []) word [] (pos 0) (pos 0) (tcp_socket (own 1)) refl).0

abbrev quiet_body : Fn
quiet_body = record { number = 2; signatures = value_void ∷ [] }

errc_undeclared_example :
    declares ((bind_to_class std quiet_body).completion_signatures (value_void ∷ [])) error_errc
    ≡ false
unfolding declares same_signature
errc_undeclared_example =
    (errc_undeclared std (value_void ∷ []) buffer quiet_body (negsuc 23) refl refl refl).3

-- On a scheduler's sender the domain transforms the same chain early, to the same operation around that sender's.
timed_read_on_loop :
    connect std nothing
      (some 0)
      (chain (after_t (pos 5) ∷ []) (schedule_after 0 (pos 20)))
      downstream
    ≡ after_op_state 0 TimerType.after 5
        (after_schedule_op_state 0 TimerType.after 20 (of_op_state downstream))
unfolding chain apply get_early_domain domain_adaptor scheduler_of customised schedule_after connect
    class_of after_schedule_class
timed_read_on_loop = refl

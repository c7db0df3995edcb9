-- ===== src/EchoUv/Client/Limit.antt =====
-- How many connections the client of examples/echo_uv.c makes.
use uvexec.Base.{
  ℕ, zero, suc, ◌+◌, ◌-◌, ◌≤◌, ◌≡◌, refl, sym, ap, subst, ◌∙◌, inl, inr, true, ◌&&◌, some, List, [],
  ◌∷◌, arith, ltb, ◌==◌, Bool-cases, ℤ, pos, negsuc, is_negative, eq_ℤ, length, length-append, run,
  and_then-eq-some, map_state-eq-some, when-eq-some, run-keeps,
}
use uvexec.EchoUv.Client.{
  Stats, Client, Effect, pred, minus, is_positive, new_connection, next_connection, on_client_close,
  on_client_read,
}
use uvexec.EchoUv.Client.World.{
  World, Callback, connected, was_read, was_written, was_closed, Event, call, call_back, install,
  step, of_option, set, length-set, get_elem?, echo_client, All-any,
}
use mathlib.Core.List.{map}

abbrev positive_part : ℤ → ℕ
positive_part (pos n) = n
positive_part (negsuc n) = 0

-- `limit` further connections, less one, may still be made.
abbrev Within : (connections made : ℕ) → (limit : ℤ) → Type 0
Within connections made limit =
    (made ≤ connections) × (is_positive limit ≡ true → made + positive_part limit ≤ suc connections)

add_one : (n : ℕ) → n + 1 ≡ suc n
add_one n = omega arith

add_zero : (n : ℕ) → n + 0 ≡ n
add_zero n = omega arith

module _ (connections made : ℕ) where
  pred-Within : (limit : ℤ) → Within connections made limit → Within connections made (pred limit)
  unfolding pred
  pred-Within (pos zero) h = (h.0, λ p. absurd (cc))
  pred-Within (pos (suc zero)) h = (h.0, λ p. absurd (cc))
  pred-Within (pos (suc (suc n))) h = (h.0, λ p. omega (arith, h.1 refl))
  pred-Within (negsuc n) h = (h.0, λ p. absurd (cc))

  take_one-Within :
      (limit : ℤ)
      → Within connections made limit
      → is_positive (pred limit) ≡ true
      → Within connections (suc made) (pred limit)
  unfolding pred
  take_one-Within (pos zero) h p = absurd (cc)
  take_one-Within (pos (suc zero)) h p = absurd (cc)
  take_one-Within (pos (suc (suc n))) h p = (omega (arith, h.1 refl), λ q. omega (arith, h.1 refl))
  take_one-Within (negsuc n) h p = absurd (cc)

  next_connection-Within :
      (emfile connect : ℤ) (len : ℕ) (s : Stats)
      → Within connections made s.connection_limit
      → Within connections
          (made + length (of_option (next_connection emfile connect len s).1))
          (next_connection emfile connect len s).0.connection_limit
  unfolding next_connection
  next_connection-Within emfile connect len s h =
      elim (Bool-cases (is_positive (pred s.connection_limit))) [
        | inl p ↦ elim (Bool-cases (is_negative connect && eq_ℤ connect emfile)) [
          | inl b ↦ rw (p, b) (rw (add_one made) (take_one-Within s.connection_limit h p))
          | inr b ↦ rw (p, b) (rw (add_one made) (take_one-Within s.connection_limit h p))
        ]
        | inr p ↦ rw p (rw (add_zero made) (pred-Within s.connection_limit h))
      ]

  -- The statistics and the new connection, if there is one.
  abbrev EffectWithin : Effect → Type 0
  EffectWithin f = Within connections (made + length (of_option f.made)) f.stats.connection_limit

  close-Within :
      (emfile connect : ℤ) (k : Client) (s : Stats)
      → Within connections made s.connection_limit
      → EffectWithin (on_client_close emfile connect k s)
  unfolding on_client_close
  close-Within emfile connect k s h = elim (Bool-cases (ltb 0 s.fd_limit_exceeded)) [
    | inl b ↦ rw b (next_connection-Within emfile connect k.len _ h)
    | inr b ↦ rw b (rw (add_zero made) h)
  ]

  read-Within :
      (emfile connect nread : ℤ) (k : Client) (s : Stats)
      → Within connections made s.connection_limit
      → EffectWithin (on_client_read emfile connect nread k s)
  unfolding on_client_read
  read-Within emfile connect (negsuc n) k s h = rw (add_zero made) h
  read-Within emfile connect (pos n) k s h =
      elim (Bool-cases (s.fd_limit_exceeded == 0 && eq_ℤ k.bytes_left (pos k.len))) [
        | inl b ↦ rw b (next_connection-Within emfile connect k.len s h)
        | inr b ↦ rw b (rw (add_zero made) h)
      ]

  call_back-Within :
      (emfile : ℤ) (c : Callback) (k : Client) (s : Stats) {f : Effect}
      → Within connections made s.connection_limit
      → call_back emfile c k s ≡ some f
      → EffectWithin f
  unfolding call_back
  call_back-Within emfile (connected status r w) k s h e =
      subst EffectWithin (when-eq-some _ _ e).1 (rw (add_zero made) h)
  call_back-Within emfile (was_read nread connect) k s h e =
      subst EffectWithin (when-eq-some _ _ e).1 (read-Within emfile connect nread k s h)
  call_back-Within emfile (was_written status) k s h e =
      subst EffectWithin (when-eq-some _ _ e).1 (rw (add_zero made) h)
  call_back-Within emfile (was_closed connect) k s h e =
      subst EffectWithin (when-eq-some _ _ e).1
        (close-Within emfile connect (record k { closed = true }) s h)

abbrev WorldWithin : (connections : ℕ) → World → Type 0
WorldWithin connections w = Within connections (length w.clients) w.stats.connection_limit

module _ (connections : ℕ) (emfile : ℤ) where
  step-Within :
      (e : Event) (w v : World)
      → WorldWithin connections w
      → Unit {0}
      → step emfile e w ≡ some v
      → WorldWithin connections v
  unfolding step
  step-Within (call i c) w v h u e =
      let (k, got, e') = and_then-eq-some (get_elem? w.clients i) _ e in
      let (f, done, e'') = map_state-eq-some (install i w) _ e' in
      subst (WorldWithin connections) e'' (
        subst (λ n. Within connections n f.stats.connection_limit)
          (sym (
            length-append (set w.clients i f.client) (of_option f.made)
            ∙ ap (λ n. n + length (of_option f.made)) (length-set w.clients i f.client)))
          (call_back-Within connections (length w.clients) emfile c k w.stats h done))

minus-pos : (a b : ℕ) → b ≤ a → minus (pos a) b ≡ pos (a - b)
unfolding minus pred
minus-pos a zero h = ap pos (omega arith)
minus-pos zero (suc b) h = absurd (omega arith)
minus-pos (suc a) (suc b) h = minus-pos a b (omega arith) ∙ ap pos (omega arith)

length-map : {A B : Type 0} (f : A → B) (l : List A) → length (map f l) ≡ length l
length-map f [] = refl
length-map f (x ∷ l) = ap suc (length-map f l)

initially :
    (connections : ℕ) (connects : List ℤ) (len : ℕ)
    → length connects ≤ connections
    → WorldWithin connections (echo_client connections connects len)
unfolding echo_client
initially connections connects len h =
    rw
      (
        length-map (new_connection len) connects,
        minus-pos (suc connections) (length connects) (omega arith),
      )
      (h, λ p. omega arith)

-- Whatever libuv answers, and in whatever order it calls the connections back, UvEchoClient makes no more connections
-- than it is asked to, if it is not asked to start with more.
pub connections_limited :
    (emfile : ℤ) (connections : ℕ) (connects : List ℤ) (len : ℕ) (es : List Event) (w : World)
    → length connects ≤ connections
    → run (step emfile) es (echo_client connections connects len) ≡ some w
    → length w.clients ≤ connections
connections_limited emfile connections connects len es w h r =
    (run-keeps (step emfile) (λ e. Unit {0}) (WorldWithin connections)
      (step-Within connections emfile) es (echo_client connections connects len) w
      (initially connections connects len h) (All-any es) r).0

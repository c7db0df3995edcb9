-- ===== src/EchoUv/Client/Leak.antt =====
-- Connections of the client in examples/echo_uv.c for which uv_tcp_connect fails.
use uvexec.Base.{
  ℕ, zero, suc, ◌≡◌, refl, sym, ap, subst, ◌∙◌, inl, inr, true, none, some, List, [], ◌∷◌, arith,
  ◌==◌, Bool-cases, ℤ, is_negative, run, and_then-eq-some, map_state-eq-some, when-eq-some,
  run-keeps,
}
use uvexec.EchoUv.Client.{Stats, Client, new_connection}
use uvexec.EchoUv.Client.World.{
  World, Callback, connected, was_read, was_written, was_closed, Event, call, call_back, install,
  step, of_option, set, get_elem?, echo_client, get_elem?-set_ne, get_elem?-append, All-any,
}
use mathlib.Core.List.{map}

-- Nothing of the connection goes on.
idle_not_called :
    (emfile : ℤ) (len : ℕ) (connect : ℤ) (c : Callback) (s : Stats)
    → is_negative connect ≡ true
    → call_back emfile c (new_connection len connect) s ≡ none
unfolding call_back new_connection
idle_not_called emfile len connect (connected status r w) s h = rw h
idle_not_called emfile len connect (was_read n k) s h = refl
idle_not_called emfile len connect (was_written status) s h = refl
idle_not_called emfile len connect (was_closed k) s h = refl

eq_of_test : (j i : ℕ) → (j == i) ≡ true → j ≡ i
eq_of_test j i h = ground arith

none_or_some : {A : Type 0} {x : A} → none ≡ some x → ⊥
none_or_some h = cc

get_elem?-map :
    (len : ℕ) (l : List ℤ) (i : ℕ) {connect : ℤ}
    → get_elem? l i ≡ some connect
    → get_elem? (map (new_connection len) l) i ≡ some (new_connection len connect)
get_elem?-map len [] i h = absurd (cc)
get_elem?-map len (c ∷ cs) zero h = ap (λ d. some (new_connection len d)) (when-eq-some true c h).1
get_elem?-map len (c ∷ cs) (suc i) h = get_elem?-map len cs i h

abbrev Has : ℕ → Client → World → Type 0
Has i k w = get_elem? w.clients i ≡ some k

module _ (emfile : ℤ) (len : ℕ) (connect : ℤ) (i : ℕ) (failed : is_negative connect ≡ true) where
  abbrev idle : Client
  idle = new_connection len connect

  step-Has :
      (e : Event) (w v : World) → Has i idle w → Unit {0} → step emfile e w ≡ some v → Has i idle v
  unfolding step
  step-Has (call j c) w v h u e =
      let (k, got, e') = and_then-eq-some (get_elem? w.clients j) _ e in
      let (f, done, e'') = map_state-eq-some (install j w) _ e' in
      elim (Bool-cases (j == i)) [
        | inl same ↦
            let this : j ≡ i = eq_of_test j i same in
            let is_idle : k ≡ idle =
              (when-eq-some true k (sym got ∙ ap (get_elem? w.clients) this ∙ h)).1 in
            let refused : call_back emfile c k w.stats ≡ none =
              ap (λ n. call_back emfile c n w.stats) is_idle
              ∙ idle_not_called emfile len connect c w.stats failed in
            absurd (none_or_some (sym refused ∙ done))
        | inr other ↦ subst (Has i idle) e'' (
            get_elem?-append (set w.clients j f.client) (of_option f.made) i
              (get_elem?-set_ne w.clients j i f.client other ∙ h))
      ]

still_there :
    (emfile : ℤ) (connections : ℕ) (connects : List ℤ) (len i : ℕ) (connect : ℤ) (es : List Event)
    (w : World)
    → get_elem? connects i ≡ some connect
    → is_negative connect ≡ true
    → run (step emfile) es (echo_client connections connects len) ≡ some w
    → get_elem? w.clients i ≡ some (new_connection len connect)
unfolding echo_client
still_there emfile connections connects len i connect es w at failed r =
    run-keeps (step emfile) (λ e. Unit {0}) (Has i (new_connection len connect))
      (step-Has emfile len connect i failed) es (echo_client connections connects len) w
      (get_elem?-map len connects i at) (All-any es) r

-- Where uv_tcp_connect fails for one of the first connections, nothing ever closes that connection: whatever happens
-- later, its three blocks stay allocated.
pub refused_connection_leaks :
    (emfile : ℤ) (connections : ℕ) (connects : List ℤ) (len i : ℕ) (connect : ℤ) (es : List Event)
    (w : World)
    → get_elem? connects i ≡ some connect
    → is_negative connect ≡ true
    → run (step emfile) es (echo_client connections connects len) ≡ some w
    → (k : Client) × (get_elem? w.clients i ≡ some k)
      × (k.closes ≡ 0)
      × (k.client_data ≡ true)
      × (k.handle ≡ true)
      × (k.connect_req ≡ true)
unfolding new_connection
refused_connection_leaks emfile connections connects len i connect es w at failed r = (
  new_connection len connect,
  still_there emfile connections connects len i connect es w at failed r,
  refl,
  refl,
  refl,
  refl,
)

-- ===== src/EchoUv/Client/Counting.antt =====
-- Every connection of the client of examples/echo_uv.c, with those that the callbacks make.
use uvexec.Base.{
  ℕ, ◌≤◌, ◌≡◌, ap, subst, ◌∙◌, ◌⊎◌, inl, inr, true, false, not, ◌&&◌, ◌||◌, Option, none, some,
  List, [], ◌∷◌, arith, ltb, ◌==◌, Bool-cases, ℤ, pos, negsuc, eq_ℤ, All, run, and_then-eq-some,
  map_state-eq-some, when-eq-some, run-keeps,
}
use uvexec.EchoUv.Client.{
  Stats, Client, Effect, pred, is_positive, new_connection, next_connection, on_client_close,
  on_client_read,
}
use uvexec.EchoUv.Client.World.{
  World, Callback, connected, was_read, was_written, was_closed, Event, call, call_back, install,
  step, of_option, set, get_elem?, echo_client, All-get, All-set, All-append, All-any,
}
use uvexec.EchoUv.Client.Callbacks.{IsCounted, new_connection-IsCounted, call_back-IsCounted}
use mathlib.Core.List.{map}

-- The connection that a callback makes is new.
abbrev MadeCounted : Option Client → Type 0
MadeCounted none = Unit
MadeCounted (some k) = IsCounted k

next_connection-MadeCounted :
    (emfile connect : ℤ) (len : ℕ) (s : Stats)
    → MadeCounted (next_connection emfile connect len s).1
unfolding next_connection
next_connection-MadeCounted emfile connect len s =
    elim (Bool-cases (is_positive (pred s.connection_limit))) [
      | inl p ↦ rw p (new_connection-IsCounted len connect)
      | inr p ↦ rw p tt
    ]

read-MadeCounted :
    (emfile connect nread : ℤ) (k : Client) (s : Stats)
    → MadeCounted (on_client_read emfile connect nread k s).made
unfolding on_client_read
read-MadeCounted emfile connect (negsuc n) k s = tt
read-MadeCounted emfile connect (pos n) k s =
    elim (Bool-cases (s.fd_limit_exceeded == 0 && eq_ℤ k.bytes_left (pos k.len))) [
      | inl b ↦ rw b (next_connection-MadeCounted emfile connect k.len s)
      | inr b ↦ rw b tt
    ]

close-MadeCounted :
    (emfile connect : ℤ) (k : Client) (s : Stats)
    → MadeCounted (on_client_close emfile connect k s).made
unfolding on_client_close
close-MadeCounted emfile connect k s = elim (Bool-cases (ltb 0 s.fd_limit_exceeded)) [
  | inl b ↦ rw b (next_connection-MadeCounted emfile connect k.len _)
  | inr b ↦ rw b tt
]

call_back-MadeCounted :
    (emfile : ℤ) (c : Callback) (k : Client) (s : Stats) {f : Effect}
    → call_back emfile c k s ≡ some f
    → MadeCounted f.made
unfolding call_back
call_back-MadeCounted emfile (connected status r w) k s e =
    subst (λ (g : Effect). MadeCounted g.made) (when-eq-some _ _ e).1 tt
call_back-MadeCounted emfile (was_read nread connect) k s e =
    subst (λ (g : Effect). MadeCounted g.made) (when-eq-some _ _ e).1
      (read-MadeCounted emfile connect nread k s)
call_back-MadeCounted emfile (was_written status) k s e =
    subst (λ (g : Effect). MadeCounted g.made) (when-eq-some _ _ e).1 tt
call_back-MadeCounted emfile (was_closed connect) k s e =
    subst (λ (g : Effect). MadeCounted g.made) (when-eq-some _ _ e).1
      (close-MadeCounted emfile connect (record k { closed = true }) s)

of_option-IsCounted : (o : Option Client) → MadeCounted o → All IsCounted (of_option o)
of_option-IsCounted none h = tt
of_option-IsCounted (some k) h = (h, tt)

abbrev AllCounted : World → Type 0
AllCounted w = All IsCounted w.clients

step-AllCounted :
    (emfile : ℤ) (e : Event) (w v : World)
    → AllCounted w
    → Unit {0}
    → step emfile e w ≡ some v
    → AllCounted v
unfolding step
step-AllCounted emfile (call i c) w v h u e =
    let (k, got, e') = and_then-eq-some (get_elem? w.clients i) _ e in
    let (f, done, e'') = map_state-eq-some (install i w) _ e' in
    subst AllCounted e'' (
      All-append IsCounted (set w.clients i f.client) (of_option f.made)
        (All-set IsCounted w.clients i f.client h
          (call_back-IsCounted k emfile c w.stats (All-get IsCounted w.clients i h got) done))
        (of_option-IsCounted f.made (call_back-MadeCounted emfile c k w.stats done)))

All-map : (len : ℕ) (connects : List ℤ) → All IsCounted (map (new_connection len) connects)
All-map len [] = tt
All-map len (c ∷ cs) = (new_connection-IsCounted len c, All-map len cs)

-- What its requests and blocks say of a connection.
abbrev pub IsSettled : Client → Type 0
IsSettled k =
    (k.bad_frees ≡ 0)
    × (k.closes ≤ 1)
    × (k.closed ≡ true
        → (k.client_data ≡ false)
          × (k.handle ≡ false)
          × (k.connect_req ≡ false)
          × (k.write_req ≡ false))
    × (k.closes ≡ 0 → (k.connect_req ≡ true) ⊎ ((k.reading || k.writing) ≡ true))

IsCounted-IsSettled : (k : Client) → IsCounted k → IsSettled k
IsCounted-IsSettled k (nb, inl f) =
    (nb, ground (arith, f.closes), (λ c. absurd (ground (arith, f.closed))), λ c. inl f.connect_req)
IsCounted-IsSettled k (nb, inr (inl f)) =
    (nb, ground (arith, f.closes), (λ c. absurd (ground (arith, f.closed))), λ c. inr f.busy)
IsCounted-IsSettled k (nb, inr (inr f)) = (
  nb,
  ground (arith, f.closes),
  (λ c. (f.client_data ∙ ap not c, f.handle ∙ ap not c, f.connect_req, f.write_req)),
  λ c. absurd (ground (arith, f.closes)),
)

All-IsSettled : (l : List Client) → All IsCounted l → All IsSettled l
All-IsSettled [] h = tt
All-IsSettled (k ∷ l) h = (IsCounted-IsSettled k h.0, All-IsSettled l h.1)

-- Whatever libuv answers, and in whatever order it calls the connections of UvEchoClient back: each is closed at most
-- once, no block of it is freed twice, its four blocks are freed when it was closed, and as long as it is not closed it
-- reads, or writes, or still has the request of its uv_tcp_connect.
pub client_closes_once :
    (emfile : ℤ) (connections : ℕ) (connects : List ℤ) (len : ℕ) (es : List Event) (w : World)
    → run (step emfile) es (echo_client connections connects len) ≡ some w
    → All IsSettled w.clients
unfolding echo_client
client_closes_once emfile connections connects len es w r = All-IsSettled w.clients (
    run-keeps (step emfile) (λ e. Unit {0}) AllCounted (step-AllCounted emfile) es
      (echo_client connections connects len) w (All-map len connects) (All-any es) r)

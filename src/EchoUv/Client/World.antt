-- ===== src/EchoUv/Client/World.antt =====
-- All the connections of the client in examples/echo_uv.c, as libuv calls them back one after the other.
use uvexec.Base.{
  ℕ, zero, suc, ◌≡◌, refl, ap, subst, true, false, not, ◌&&◌, ◌||◌, Option, none, some, List, [],
  ◌∷◌, ◌++◌, arith, ltb, ◌==◌, when, ℤ, pos, length, All, map_state, and_then, when-eq-some,
}
use mathlib.Core.List.{map}
use uvexec.EchoUv.Client.{
  Stats, Client, Effect, minus, new_connection, on_client_close, on_client_read, on_client_write,
  on_connect,
}

module _ {ℓ} {A : Type ℓ} where
  abbrev pub get_elem? : List A → ℕ → Option A
  get_elem? [] i = none
  get_elem? (x ∷ xs) zero = some x
  get_elem? (x ∷ xs) (suc i) = get_elem? xs i

  abbrev pub set : List A → ℕ → A → List A
  set [] i v = []
  set (x ∷ xs) zero v = v ∷ xs
  set (x ∷ xs) (suc i) v = x ∷ set xs i v

  abbrev pub of_option : Option A → List A
  of_option none = []
  of_option (some x) = x ∷ []

pub record World : Type 0 where
  pub stats : Stats
  pub clients : List Client

-- A callback of libuv for one connection, with what libuv answers meanwhile.
pub data Callback : Type 0 where
  connected : (status read_start write : ℤ) → Callback
  was_read : (nread connect : ℤ) → Callback
  was_written : (status : ℤ) → Callback
  was_closed : (connect : ℤ) → Callback

-- What libuv's documentation allows: a callback for each request, reads between the start and the stop, and the close
-- callback once after uv_close, when the requests are done.
unfoldable pub call_back : (emfile : ℤ) → Callback → Client → Stats → Option Effect
unfolding on_client_close on_client_read on_client_write on_connect
call_back emfile (connected status read_start write) k s = when k.connecting record {
  client = on_connect status read_start write (record k { connecting = false });
  stats = s;
  made = none;
}
call_back emfile (was_read nread connect) k s =
    when k.reading (on_client_read emfile connect nread k s)
call_back emfile (was_written status) k s = when k.writing record {
  client = on_client_write status (record k { writing = false });
  stats = s;
  made = none;
}
call_back emfile (was_closed connect) k s =
    when (ltb 0 k.closes && not k.closed && not (k.connecting || k.writing))
      (on_client_close emfile connect (record k { closed = true }) s)

-- The connection at this place of the list is called back.
pub data Event : Type 0 where
  call : ℕ → Callback → Event

abbrev pub install : ℕ → World → Effect → World
install i w f = record { stats = f.stats; clients = set w.clients i f.client ++ of_option f.made }

unfoldable pub step : (emfile : ℤ) → Event → World → Option World
unfolding call_back
step emfile (call i c) w =
    and_then (get_elem? w.clients i) λ k. map_state (install i w) (call_back emfile c k w.stats)

-- `UvEchoClient` before it starts the loop: `connects` is what uv_tcp_connect answers to the first connections.
unfoldable pub echo_client : (connections : ℕ) → (connects : List ℤ) → (len : ℕ) → World
unfolding minus new_connection
echo_client connections connects len = record {
  stats = record {
    connection_limit = minus (pos (suc connections)) (length connects);
    processed_connections = 0;
    fd_limit_exceeded = 0;
    total_bytes_received = 0;
  };
  clients = map (new_connection len) connects;
}

-- Of the lists.
module _ {ℓ} {A : Type ℓ} where
  pub length-set : (l : List A) (i : ℕ) (x : A) → length (set l i x) ≡ length l
  length-set [] i x = refl
  length-set (y ∷ l) zero x = refl
  length-set (y ∷ l) (suc i) x = ap suc (length-set l i x)

  pub get_elem?-set_ne :
      (l : List A) (i j : ℕ) (x : A) → (i == j) ≡ false → get_elem? (set l i x) j ≡ get_elem? l j
  get_elem?-set_ne [] i j x ne = refl
  get_elem?-set_ne (y ∷ l) zero zero x ne = absurd (cc)
  get_elem?-set_ne (y ∷ l) zero (suc j) x ne = refl
  get_elem?-set_ne (y ∷ l) (suc i) zero x ne = refl
  get_elem?-set_ne (y ∷ l) (suc i) (suc j) x ne = get_elem?-set_ne l i j x (ground arith)

  pub get_elem?-append :
      (l m : List A) (i : ℕ) {x : A} → get_elem? l i ≡ some x → get_elem? (l ++ m) i ≡ some x
  get_elem?-append [] m i h = absurd (cc)
  get_elem?-append (y ∷ l) m zero h = h
  get_elem?-append (y ∷ l) m (suc i) h = get_elem?-append l m i h

  module _ {κ} (P : A → Type κ) where
    pub All-get : (l : List A) (i : ℕ) {x : A} → All P l → get_elem? l i ≡ some x → P x
    All-get [] i all h = absurd (cc)
    All-get (y ∷ l) zero all h = subst P (when-eq-some true y h).1 all.0
    All-get (y ∷ l) (suc i) all h = All-get l i all.1 h

    pub All-set : (l : List A) (i : ℕ) (x : A) → All P l → P x → All P (set l i x)
    All-set [] i x all p = tt
    All-set (y ∷ l) zero x all p = (p, all.1)
    All-set (y ∷ l) (suc i) x all p = (all.0, All-set l i x all.1 p)

    pub All-append : (l m : List A) → All P l → All P m → All P (l ++ m)
    All-append [] m all more = more
    All-append (y ∷ l) m all more = (all.0, All-append l m all.1 more)

-- A property that asks nothing of the events.
pub All-any : (es : List Event) → All (λ e. Unit {0}) es
All-any [] = tt
All-any (e ∷ es) = (tt, All-any es)

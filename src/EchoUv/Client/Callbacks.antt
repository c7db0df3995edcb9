-- ===== src/EchoUv/Client/Callbacks.antt =====
-- The callbacks of a connection of the client of examples/echo_uv.c, and the count `rc` of its requests, by which it
-- knows when to close.
use uvexec.Base.{
  ℕ, suc, ◌+◌, ◌≡◌, refl, ap, subst, ◌∙◌, ◌⊎◌, inl, inr, Bool, true, false, not, ◌||◌, some, arith,
  ltb, Bool-cases, ℤ, pos, negsuc, is_negative, when-eq-some,
}
use uvexec.EchoUv.Client.{
  Stats, Client, Effect, pred, minus, is_positive, new_connection, on_client_close, on_client_read,
  on_client_write, on_connect, release,
}
use uvexec.EchoUv.Client.World.{Callback, connected, was_read, was_written, was_closed, call_back}

abbrev one_if : Bool → ℕ
one_if true = 1
one_if false = 0

-- Nothing happened to the connection, or uv_tcp_connect is under way, or failed.
pub record IsFresh (k : Client) : Type 0 where
  pub closes : k.closes ≡ 0
  pub closed : k.closed ≡ false
  pub reading : k.reading ≡ false
  pub writing : k.writing ≡ false
  pub count : k.rc ≡ pos 2
  pub client_data : k.client_data ≡ true
  pub handle : k.handle ≡ true
  pub connect_req : k.connect_req ≡ true
  pub write_req : k.write_req ≡ false

-- `rc` is the number of the two, reading and writing, that go on, and one of them does.
pub record IsOpen (k : Client) : Type 0 where
  pub closes : k.closes ≡ 0
  pub closed : k.closed ≡ false
  pub connecting : k.connecting ≡ false
  pub busy : (k.reading || k.writing) ≡ true
  pub count : k.rc ≡ pos (one_if k.reading + one_if k.writing)
  pub client_data : k.client_data ≡ true
  pub handle : k.handle ≡ true
  pub connect_req : k.connect_req ≡ false
  pub write_req : k.write_req ≡ k.writing

-- After uv_close nothing goes on, and the close callback frees the last two blocks.
pub record IsClosing (k : Client) : Type 0 where
  pub closes : k.closes ≡ 1
  pub connecting : k.connecting ≡ false
  pub reading : k.reading ≡ false
  pub writing : k.writing ≡ false
  pub client_data : k.client_data ≡ not k.closed
  pub handle : k.handle ≡ not k.closed
  pub connect_req : k.connect_req ≡ false
  pub write_req : k.write_req ≡ false

abbrev pub IsCounted : Client → Type 0
IsCounted k = (k.bad_frees ≡ 0) × (IsFresh k ⊎ (IsOpen k ⊎ IsClosing k))

pub new_connection-IsCounted : (len : ℕ) (connect : ℤ) → IsCounted (new_connection len connect)
unfolding new_connection
new_connection-IsCounted len connect = (
  refl,
  inl record {
    closes = refl;
    closed = refl;
    reading = refl;
    writing = refl;
    count = refl;
    client_data = refl;
    handle = refl;
    connect_req = refl;
    write_req = refl;
  },
)

last_write : (r w : Bool) → w ≡ true → pos (one_if r + one_if w) ≡ pos (suc (one_if r + 0))
last_write r w h = rw h (ap pos (omega arith))

last_read : (r w : Bool) → r ≡ true → pos (one_if r + one_if w) ≡ pos (suc (0 + one_if w))
last_read r w h = rw h (ap pos (omega arith))

module _ (k : Client) where
  -- `rc` reaches 0 with the last request.
  count_of :
      (r w : Bool)
      → k.reading ≡ r
      → k.writing ≡ w
      → pos (suc (one_if k.reading + one_if k.writing)) ≡ pos (suc (one_if r + one_if w))
  count_of r w a b = rw (a, b)

  release-IsCounted :
      k.bad_frees ≡ 0
      → k.closes ≡ 0
      → k.closed ≡ false
      → k.connecting ≡ false
      → k.rc ≡ pos (suc (one_if k.reading + one_if k.writing))
      → k.client_data ≡ true
      → k.handle ≡ true
      → k.connect_req ≡ false
      → k.write_req ≡ k.writing
      → IsCounted (release k)
  unfolding release pred
  release-IsCounted nb cl cd cn rc d h q w = elim (Bool-cases k.reading) [
    | inl a ↦ elim (Bool-cases k.writing) [
      | inl b ↦
          let e : k.rc ≡ pos 3 = rc ∙ count_of true true a b in rw e (nb, inr (inl (ground arith)))
      | inr b ↦
          let e : k.rc ≡ pos 2 = rc ∙ count_of true false a b in rw e (nb, inr (inl (ground arith)))
    ]
    | inr a ↦ elim (Bool-cases k.writing) [
      | inl b ↦
          let e : k.rc ≡ pos 2 = rc ∙ count_of false true a b in rw e (nb, inr (inl (ground arith)))
      | inr b ↦
          let e : k.rc ≡ pos 1 = rc ∙ count_of false false a b in
          rw e (nb, inr (inr (ground arith)))
    ]
  ]

module _ (k : Client) where
  connected-IsCounted :
      (status r w : ℤ)
      → IsCounted k
      → k.connecting ≡ true
      → IsCounted (on_connect status r w (record k { connecting = false }))
  unfolding on_connect
  connected-IsCounted status r w (nb, inr (inl o)) c = absurd (ground (arith, o.connecting))
  connected-IsCounted status r w (nb, inr (inr o)) c = absurd (ground (arith, o.connecting))
  connected-IsCounted status r w (nb, inl f) c = elim (Bool-cases (is_negative status)) [
    | inl a ↦ rw (a, f.connect_req) (nb, inr (inr (ground arith)))
    | inr a ↦ elim (Bool-cases (is_negative r)) [
      | inl b ↦ rw (a, b, f.connect_req) (nb, inr (inr (ground arith)))
      | inr b ↦ elim (Bool-cases (is_negative w)) [
        | inl d ↦ rw (a, b, d, f.connect_req) (nb, inr (inr (ground arith)))
        | inr d ↦ rw (a, b, d, f.connect_req) (nb, inr (inl (ground arith)))
      ]
    ]
  ]

  closed-IsCounted :
      (emfile connect : ℤ) (s : Stats)
      → IsCounted k
      → ltb 0 k.closes ≡ true
      → k.closed ≡ false
      → IsCounted (on_client_close emfile connect (record k { closed = true }) s).client
  unfolding on_client_close
  closed-IsCounted emfile connect s (nb, inl f) c o = absurd (ground (arith, f.closes))
  closed-IsCounted emfile connect s (nb, inr (inl f)) c o = absurd (ground (arith, f.closes))
  closed-IsCounted emfile connect s (nb, inr (inr f)) c o =
      let e : k.client_data ≡ true = f.client_data ∙ ap not o in
      let e' : k.handle ≡ true = f.handle ∙ ap not o in rw (e, e') (nb, inr (inr (ground arith)))

  written-IsCounted :
      (status : ℤ)
      → IsCounted k
      → k.writing ≡ true
      → IsCounted (on_client_write status (record k { writing = false }))
  unfolding on_client_write
  written-IsCounted status (nb, inl f) c = absurd (ground (arith, f.writing))
  written-IsCounted status (nb, inr (inr f)) c = absurd (ground (arith, f.writing))
  written-IsCounted status (nb, inr (inl f)) c =
      let live : k.write_req ≡ true = f.write_req ∙ c in
      rw live (
        release-IsCounted (record k { writing = false; write_req = false }) nb f.closes f.closed
          f.connecting (f.count ∙ last_write k.reading k.writing c) f.client_data f.handle
          f.connect_req refl)

  stop_reading-IsCounted :
      (left : ℤ)
      → k.bad_frees ≡ 0
      → IsOpen k
      → k.reading ≡ true
      → IsCounted (release (record k { reading = false; bytes_left = left }))
  stop_reading-IsCounted left nb f c =
      release-IsCounted (record k { reading = false; bytes_left = left }) nb f.closes f.closed
        f.connecting (f.count ∙ last_read k.reading k.writing c) f.client_data f.handle
        f.connect_req f.write_req

  read-IsCounted :
      (emfile connect nread : ℤ) (s : Stats)
      → IsCounted k
      → k.reading ≡ true
      → IsCounted (on_client_read emfile connect nread k s).client
  unfolding on_client_read
  read-IsCounted emfile connect nread s (nb, inl f) c = absurd (ground (arith, f.reading))
  read-IsCounted emfile connect nread s (nb, inr (inr f)) c = absurd (ground (arith, f.reading))
  read-IsCounted emfile connect (negsuc n) s (nb, inr (inl f)) c =
      stop_reading-IsCounted k.bytes_left nb f c
  read-IsCounted emfile connect (pos n) s (nb, inr (inl f)) c =
      elim (Bool-cases (is_positive (minus k.bytes_left n))) [
        | inl p ↦ rw p (
          nb,
          inr (
              inl (record {
                closes = f.closes;
                closed = f.closed;
                connecting = f.connecting;
                busy = f.busy;
                count = f.count;
                client_data = f.client_data;
                handle = f.handle;
                connect_req = f.connect_req;
                write_req = f.write_req;
              })),
        )
        | inr p ↦ rw p (stop_reading-IsCounted (minus k.bytes_left n) nb f c)
      ]

  pub call_back-IsCounted :
      (emfile : ℤ) (c : Callback) (s : Stats) {f : Effect}
      → IsCounted k
      → call_back emfile c k s ≡ some f
      → IsCounted f.client
  unfolding call_back
  call_back-IsCounted emfile (connected status r w) s h e =
      let t = when-eq-some _ _ e in
      subst (λ (g : Effect). IsCounted g.client) t.1 (connected-IsCounted status r w h t.0)
  call_back-IsCounted emfile (was_read nread connect) s h e =
      let t = when-eq-some _ _ e in
      subst (λ (g : Effect). IsCounted g.client) t.1 (read-IsCounted emfile connect nread s h t.0)
  call_back-IsCounted emfile (was_written status) s h e =
      let t = when-eq-some _ _ e in
      subst (λ (g : Effect). IsCounted g.client) t.1 (written-IsCounted status h t.0)
  call_back-IsCounted emfile (was_closed connect) s h e =
      let t = when-eq-some _ _ e in
      subst (λ (g : Effect). IsCounted g.client) t.1
        (closed-IsCounted emfile connect s h (ground (arith, t.0)) (ground (arith, t.0)))

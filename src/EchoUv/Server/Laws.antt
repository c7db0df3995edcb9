-- ===== src/EchoUv/Server/Laws.antt =====
-- The connections of the server in examples/echo_uv.c, from on_connection on.
use uvexec.Base.{
  ℕ, suc, ◌≤◌, ◌≡◌, refl, subst, ◌∙◌, inl, inr, Bool, true, false, Option, none, some, List, [],
  ◌∷◌, ◌++◌, arith, Bool-cases, ℤ, is_negative, eq_ℤ, All, run, when-eq-some,
}
use uvexec.EchoUv.Heap.{Pointer, Heap, same, count, is_fresh, malloc, free, once-malloc}
use uvexec.EchoUv.Server.{
  Write, Connection, Answers, Opening, Event, read_failed, write_done, on_connection,
  on_server_read, on_server_read_error, on_server_write, step,
}
use uvexec.EchoUv.Server.Invariant.{pending, Phase, IsGood, IsSane}
use uvexec.EchoUv.Server.Steps.{run-IsGood}

-- The heap as UvEchoServer starts the loop with it: the read buffer is live.
abbrev pub server_heap : (buffer : Pointer) → (Pointer → List ℕ) → Heap
server_heap buffer bytes = record { blocks = buffer ∷ []; bytes = bytes; bad_frees = 0 }

-- malloc answers on_connection with new addresses.
abbrev pub IsNew : Opening → (buffer : Pointer) → (Pointer → List ℕ) → Type 0
IsNew o buffer bytes =
    (is_fresh o.client (server_heap buffer bytes) ≡ true)
    × (is_fresh o.server_data (malloc o.client (server_heap buffer bytes)) ≡ true)

count_nil : (p : Pointer) → count p [] ≡ 0
unfolding count
count_nil p = refl

module _ (status : ℤ) (o : Opening) (buffer n : ℕ) (bytes : Pointer → List ℕ) where
  -- The connection after on_connection.
  abbrev opened_with : ℕ → Option ℕ → (reading : Bool) → (closes : ℕ) → Connection
  opened_with k id reading closes = record {
    heap = malloc o.server_data (malloc o.client (server_heap buffer bytes));
    read_buffer = buffer;
    client_count = k;
    client = o.client;
    server_data = o.server_data;
    client_id = id;
    reading = reading;
    writes = [];
    shutdown = none;
    closes = closes;
    closed = false;
    received = [];
    sent = [];
  }

  opened_with-IsGood :
      IsNew o buffer bytes
      → (k : ℕ) (id : Option ℕ) (reading : Bool) (closes : ℕ)
      → Phase (opened_with k id reading closes)
      → IsGood (opened_with k id reading closes)
  unfolding count
  opened_with-IsGood new k id reading closes phase = record {
    balanced = λ p. omega arith;
    once =
        once-malloc o.server_data (o.client ∷ buffer ∷ []) new.1
          (once-malloc o.client (buffer ∷ []) new.0 (λ p. ground arith));
    no_bad = refl;
    phase = phase;
    stopped = λ r. refl;
    echoes = refl;
  }

  on_connection-IsGood :
      {c : Connection}
      → IsNew o buffer bytes
      → on_connection status o (server_heap buffer bytes) buffer n ≡ some c
      → IsGood c
  unfolding on_connection
  on_connection-IsGood {c} new h = elim (Bool-cases (is_negative status)) [
    | inl e ↦ absurd (ground (arith, h))
    | inr e ↦ elim (Bool-cases (is_negative o.accept)) [
      | inl a ↦
          subst IsGood (when-eq-some true (opened_with n none false 1) (rw (e, a) at h)).1
            (opened_with-IsGood new n none false 1 (inr (refl, refl, refl, refl)))
      | inr a ↦ elim (Bool-cases (is_negative o.read_start)) [
        | inl b ↦
            subst IsGood
              (when-eq-some true (opened_with (suc n) (some (suc n)) false 1) (rw (e, a, b) at h)).1
              (opened_with-IsGood new (suc n) (some (suc n)) false 1 (inr (refl, refl, refl, refl)))
        | inr b ↦
            subst IsGood
              (when-eq-some true (opened_with (suc n) (some (suc n)) true 0) (rw (e, a, b) at h)).1
              (opened_with-IsGood new (suc n) (some (suc n)) true 0 (inl (refl, refl)))
      ]
    ]
  ]

  module _ (eof : ℤ) (es : List Event) (c d : Connection) (new : IsNew o buffer bytes)
      (opened : on_connection status o (server_heap buffer bytes) buffer n ≡ some c)
      (sane : All (IsSane eof) es) (ran : run (step eof) es c ≡ some d) where
    good : IsGood d
    good = run-IsGood eof es c d (on_connection-IsGood new opened) sane ran

    -- However the callbacks of a connection interleave with those of the others: as long as libuv reports no error but the
    -- end of the input, what was written to the socket, and what the writes in flight hold, is what was read from it,
    -- in its order, although the connections read into one buffer.
    pub server_echoes : d.sent ++ pending d.heap.bytes d.writes ≡ d.received
    server_echoes = good.echoes

    -- As long as libuv reports no error but the end of the input, uv_close is called at most once for a connection, no block
    -- is freed that is not live, and once the connection is closed it leaves no block: only the read buffer is live.
    pub server_frees :
        (d.heap.bad_frees ≡ 0)
        × (d.closes ≤ 1)
        × (d.closed ≡ true → (p : Pointer) → count p d.heap.blocks ≡ same p d.read_buffer)
    server_frees = (
      good.no_bad,
      elim good.phase [ inl b ↦ omega arith | inr a ↦ omega arith ],
      λ e p. elim good.phase [
        | inl b ↦ absurd (cc)
        | inr a ↦ good.balanced p ∙ rw (e, a.2, a.3) (omega (arith, count_nil p))
      ],
    )

-- Where a read fails with an error other than the end of the input while a write is in flight, on_server_read closes
-- the handle, libuv calls the write back with an error, and on_server_write closes the handle again.
pub failed_read_closes_twice :
    (eof nread status : ℤ) (u : Answers) (c : Connection) (w : Write) (ws : List Write)
    → c.reading ≡ true
    → c.closes ≡ 0
    → c.writes ≡ w ∷ ws
    → is_fresh u.request c.heap ≡ true
    → is_negative nread ≡ true
    → eq_ℤ nread eof ≡ false
    → is_negative status ≡ true
    → (d : Connection) × (run (step eof) (read_failed nread u ∷ write_done status ∷ []) c ≡ some d)
      × (d.closes ≡ 2)
unfolding step on_server_read on_server_read_error on_server_write
failed_read_closes_twice eof nread status u c w ws reading none_closed writes fresh neg other err =
    (
      record c {
        heap = free w.req (free w.req_data (free w.base c.heap));
        reading = false;
        writes = ws;
        closes = 2;
      },
      rw (reading, neg, fresh, other, writes, err, none_closed),
      refl,
    )

-- ===== src/EchoUv/Server/Reads.antt =====
-- What libuv reads, from the connection or from another into the same buffer, keeps IsGood.
use uvexec.Base.{
  ℕ, ◌+◌, ◌≡◌, sym, ap, ◌∙◌, inl, inr, true, false, List, [], ◌∷◌, ◌++◌, arith, if◌then◌else◌, ℤ,
  pos, is_negative, eq_ℤ, length,
}
use uvexec.Request.Buffers.{take, take-length}
use uvexec.EchoUv.Heap.{
  Pointer, same, count, is_fresh, malloc, free, store, free-bytes, same_self, once-malloc,
  store_self, free-rest, free-counted,
}
use uvexec.EchoUv.Server.{
  Write, Connection, Answers, on_server_read, on_server_read_error, on_server_read_data,
  on_server_alloc,
}
use uvexec.EchoUv.Server.Invariant.{
  write_blocks, shutdown_blocks, pending, IsGood, write_blocks-append, append_assoc, pending-store,
  pending-append, eq_ℤ_refl,
}

module _ (eof : ℤ) (c : Connection) (g : IsGood c) where
  -- The buffer that libuv reads into is in no write.
  buffer_unused : count c.read_buffer (write_blocks c.writes) ≡ 0
  buffer_unused =
      omega (arith, g.balanced c.read_buffer, g.once c.read_buffer, same_self c.read_buffer)

  before_close : c.reading ≡ true → (c.closes ≡ 0) × (c.closed ≡ false)
  before_close reading = elim g.phase [ inl b ↦ b | inr a ↦ absurd (cc) ]

  -- The write that a read starts.
  abbrev written : List ℕ → Answers → Write
  written l u = record {
    req = u.request;
    req_data = u.req_data;
    base = c.read_buffer;
    len = length l;
  }

  read_echoes :
      (l : List ℕ) (u : Answers)
      → c.sent ++ pending (store c.read_buffer l c.heap).bytes (c.writes ++ written l u ∷ [])
        ≡ c.received ++ l
  read_echoes l u =
      let now : Pointer → List ℕ = (store c.read_buffer l c.heap).bytes in
      let last : take (length l) (now c.read_buffer) ≡ l =
        ap (take (length l)) (store_self c.read_buffer l c.heap) ∙ take-length l in
      let before : pending now c.writes ≡ pending c.heap.bytes c.writes =
        pending-store c.read_buffer l c.heap c.writes buffer_unused in
      ap (λ m. c.sent ++ m) (pending-append now c.writes (written l u))
      ∙ rw (last, before)
          (sym (append_assoc c.sent (pending c.heap.bytes c.writes) l) ∙ ap (λ m. m ++ l) g.echoes)

  pub data_read-IsGood :
      (l : List ℕ) (u : Answers)
      → c.reading ≡ true
      → is_fresh u.req_data c.heap ≡ true
      → is_fresh u.buffer (malloc u.req_data c.heap) ≡ true
      → is_fresh u.request (malloc u.buffer (malloc u.req_data c.heap)) ≡ true
      → is_negative u.result ≡ false
      → IsGood (
          on_server_read eof
            (pos (length l))
            u
            (record c { heap = store (on_server_alloc c).0 l c.heap; received = c.received ++ l }))
  unfolding on_server_read on_server_read_data on_server_alloc count
  data_read-IsGood l u reading f1 f2 f3 ok = rw ok record {
    balanced = λ p. omega (arith, g.balanced p, write_blocks-append p c.writes (written l u));
    once = once-malloc u.request (u.buffer ∷ u.req_data ∷ c.heap.blocks) f3 (
        once-malloc u.buffer (u.req_data ∷ c.heap.blocks) f2
          (once-malloc u.req_data c.heap.blocks f1 g.once));
    no_bad = g.no_bad;
    phase = inl (before_close reading);
    stopped = λ r. g.stopped reading;
    echoes = read_echoes l u;
  }

  is_eof : (nread : ℤ) → nread ≡ eof → eq_ℤ nread eof ≡ true
  is_eof nread e = rw (sym e) (eq_ℤ_refl nread)

  pub read_failed-IsGood :
      (nread : ℤ) (u : Answers)
      → c.reading ≡ true
      → is_negative nread ≡ true
      → is_fresh u.request c.heap ≡ true
      → nread ≡ eof
      → is_negative u.result ≡ false
      → IsGood (on_server_read eof nread u c)
  unfolding on_server_read on_server_read_error count
  read_failed-IsGood nread u reading neg fresh e ok =
      rw (neg, is_eof nread e, ok)
        record {
          balanced = λ p. omega (arith, g.balanced p, ap (shutdown_blocks p) (g.stopped reading));
          once = once-malloc u.request c.heap.blocks fresh g.once;
          no_bad = g.no_bad;
          phase = inl (before_close reading);
          stopped = λ r. absurd (cc);
          echoes = g.echoes;
        }

  abbrev without_buffer : Pointer → ℕ
  without_buffer p =
      (if c.closed then 0 else same p c.client + same p c.server_data)
      + shutdown_blocks p c.shutdown
      + count p (write_blocks c.writes)

  buffer_given :
      (l : List ℕ) (p : Pointer)
      → count p (free c.read_buffer (store c.read_buffer l c.heap)).blocks ≡ without_buffer p
  buffer_given l =
      free-rest c.read_buffer (store c.read_buffer l c.heap) _ λ p. omega (arith, g.balanced p)

  pub others_read-IsGood :
      (l : List ℕ) (p : Pointer)
      → is_fresh p c.heap ≡ true
      → IsGood (record c {
        heap = malloc p (free c.read_buffer (store c.read_buffer l c.heap));
        read_buffer = p;
      })
  unfolding count
  others_read-IsGood l p fresh = record {
    balanced = λ q. omega (arith, buffer_given l q);
    once =
        once-malloc p (free c.read_buffer (store c.read_buffer l c.heap)).blocks
          (ground (arith, buffer_given l p, g.balanced p))
          λ q. omega (arith, buffer_given l q, g.balanced q, g.once q);
    no_bad =
        free-counted c.read_buffer (store c.read_buffer l c.heap) without_buffer
          (λ q. omega (arith, g.balanced q))
        ∙ g.no_bad;
    phase = g.phase;
    stopped = g.stopped;
    echoes = rw (free-bytes c.read_buffer (store c.read_buffer l c.heap)) (
        ap (λ m. c.sent ++ m) (pending-store c.read_buffer l c.heap c.writes buffer_unused)
        ∙ g.echoes);
  }

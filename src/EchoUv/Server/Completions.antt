-- ===== src/EchoUv/Server/Completions.antt =====
-- The callbacks of a write, of uv_shutdown and of uv_close keep IsGood.
use uvexec.Base.{
  ℕ, suc, ◌+◌, ◌≡◌, refl, sym, ap, ◌∙◌, inl, inr, true, false, none, some, List, [], ◌∷◌, ◌++◌,
  arith, ltb, if◌then◌else◌, ℤ, is_negative,
}
use uvexec.Request.Buffers.{take}
use uvexec.EchoUv.Heap.{Pointer, Heap, same, count, free, free-bytes, free-rest, free-counted}
use uvexec.EchoUv.Server.{
  Write, Connection, on_server_close, on_server_shutdown, on_server_write, is_empty,
}
use uvexec.EchoUv.Server.Invariant.{
  write_blocks, shutdown_blocks, owned, pending, IsGood, append_assoc, empty_writes,
}

module _ (c : Connection) (g : IsGood c) where
  module _ (w : Write) (ws : List Write) (e : c.writes ≡ w ∷ ws) where
    -- What is live besides the blocks of the first write.
    abbrev rest : Pointer → ℕ
    rest p = owned p (record c { writes = ws })

    abbrev without_base : Heap
    without_base = free w.base c.heap

    abbrev without_data : Heap
    without_data = free w.req_data without_base

    all_blocks :
        (p : Pointer)
        → count p c.heap.blocks ≡ same p w.base + (same p w.req_data + (same p w.req + rest p))
    unfolding count
    all_blocks p = omega (arith, g.balanced p, ap (λ v. count p (write_blocks v)) e)

    base_freed :
        (p : Pointer) → count p without_base.blocks ≡ same p w.req_data + (same p w.req + rest p)
    base_freed = free-rest w.base c.heap _ all_blocks

    data_freed : (p : Pointer) → count p without_data.blocks ≡ same p w.req + rest p
    data_freed = free-rest w.req_data without_base _ base_freed

    write_freed : (p : Pointer) → count p (free w.req without_data).blocks ≡ rest p
    write_freed = free-rest w.req without_data _ data_freed

    write_counted : (free w.req without_data).bad_frees ≡ 0
    write_counted =
        free-counted w.req without_data _ data_freed
        ∙ free-counted w.req_data without_base _ base_freed
        ∙ free-counted w.base c.heap _ all_blocks
        ∙ g.no_bad

    not_closing : (c.closes ≡ 0) × (c.closed ≡ false)
    not_closing = elim g.phase [ inl b ↦ b | inr a ↦ absurd (cc) ]

    write_bytes : (free w.req without_data).bytes ≡ c.heap.bytes
    write_bytes =
        free-bytes w.req without_data
        ∙ free-bytes w.req_data without_base
        ∙ free-bytes w.base c.heap

    write_echoes :
        (c.sent ++ take w.len (c.heap.bytes w.base)) ++ pending (free w.req without_data).bytes ws
        ≡ c.received
    write_echoes = rw write_bytes (
        append_assoc c.sent (take w.len (c.heap.bytes w.base)) _
        ∙ ap (λ v. c.sent ++ pending c.heap.bytes v) (sym e)
        ∙ g.echoes)

  pub write_done-IsGood :
      (w : Write) (ws : List Write) (status : ℤ)
      → c.writes ≡ w ∷ ws
      → is_negative status ≡ false
      → IsGood (
          on_server_write w status (record c {
            writes = ws;
            sent =
                if is_negative status then c.sent else c.sent ++ take w.len (c.heap.bytes w.base);
          }))
  unfolding on_server_write count
  write_done-IsGood w ws status e ok = rw ok record {
    balanced = write_freed w ws e;
    once = λ p. omega (arith, write_freed w ws e p, all_blocks w ws e p, g.once p);
    no_bad = write_counted w ws e;
    phase = inl (not_closing w ws e);
    stopped = g.stopped;
    echoes = write_echoes w ws e;
  }

  shutdown_blocks_all :
      (req : Pointer)
      → c.shutdown ≡ some req
      → (p : Pointer) → count p c.heap.blocks ≡ same p req + owned p (record c { shutdown = none })
  shutdown_blocks_all req e p = omega (arith, g.balanced p, ap (shutdown_blocks p) e)

  shutting_phase : (req : Pointer) → c.shutdown ≡ some req → (c.closes ≡ 0) × (c.closed ≡ false)
  shutting_phase req e = elim g.phase [ inl b ↦ b | inr a ↦ absurd (cc) ]

  pub shutdown_done-IsGood :
      (req : Pointer) (status : ℤ)
      → c.shutdown ≡ some req
      → is_empty c.writes ≡ true
      → IsGood (on_server_shutdown req status (record c { shutdown = none }))
  unfolding on_server_shutdown
  shutdown_done-IsGood req status e w = record {
    balanced = free-rest req c.heap _ (shutdown_blocks_all req e);
    once = λ p. omega (
      arith,
      free-rest req c.heap _ (shutdown_blocks_all req e) p,
      shutdown_blocks_all req e p,
      g.once p,
    );
    no_bad = free-counted req c.heap _ (shutdown_blocks_all req e) ∙ g.no_bad;
    phase = inr (ap suc (shutting_phase req e).0, refl, empty_writes c.writes w, refl);
    stopped = λ r. refl;
    echoes = rw (free-bytes req c.heap) g.echoes;
  }

  closing_phase :
      ltb 0 c.closes ≡ true
      → (c.closes ≡ 1) × (c.reading ≡ false) × (c.writes ≡ []) × (c.shutdown ≡ none)
  closing_phase p = elim g.phase [ inl b ↦ absurd (ground (arith, b)) | inr a ↦ a ]

  module _ (e : c.closed ≡ false) where
    abbrev handle_freed : Pointer → ℕ
    handle_freed p = owned p (record c { closed = true })

    handle_blocks :
        (p : Pointer)
        → count p c.heap.blocks ≡ same p c.server_data + (same p c.client + handle_freed p)
    handle_blocks p =
        omega
          (arith, g.balanced p, ap (λ b. if b then 0 else same p c.client + same p c.server_data) e)

    data_block_freed :
        (p : Pointer)
        → count p (free c.server_data c.heap).blocks ≡ same p c.client + handle_freed p
    data_block_freed = free-rest c.server_data c.heap _ handle_blocks

  pub close_done-IsGood :
      ltb 0 c.closes ≡ true
      → c.closed ≡ false
      → IsGood (on_server_close (record c { closed = true }))
  unfolding on_server_close
  close_done-IsGood p e =
      let both : (q : Pointer)
          → count q (free c.client (free c.server_data c.heap)).blocks ≡ handle_freed e q =
        free-rest c.client (free c.server_data c.heap) _ (data_block_freed e) in
      record {
        balanced = both;
        once = λ q. omega (arith, both q, handle_blocks e q, g.once q);
        no_bad =
            free-counted c.client (free c.server_data c.heap) _ (data_block_freed e)
            ∙ free-counted c.server_data c.heap _ (handle_blocks e)
            ∙ g.no_bad;
        phase = inr (closing_phase p);
        stopped = g.stopped;
        echoes =
            rw (free-bytes c.client (free c.server_data c.heap), free-bytes c.server_data c.heap)
              g.echoes;
      }

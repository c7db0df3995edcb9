-- ===== src/EchoUv/Server/Steps.antt =====
-- Each event that libuv, its requests or another connection brings keeps IsGood.
use uvexec.Base.{
  ◌≡◌, refl, subst, Option, none, some, List, [], ◌∷◌, arith, ℤ, All, run, when-eq-some,
  and-eq-true, run-keeps,
}
use uvexec.EchoUv.Heap.{Pointer}
use uvexec.EchoUv.Server.{
  Write, Connection, Event, data_read, read_failed, write_done, shutdown_done, close_done,
  others_read, step, head_write, with_pointer,
}
use uvexec.EchoUv.Server.Invariant.{IsGood, IsSane}
use uvexec.EchoUv.Server.Reads.{data_read-IsGood, read_failed-IsGood, others_read-IsGood}
use uvexec.EchoUv.Server.Completions.{write_done-IsGood, shutdown_done-IsGood, close_done-IsGood}

head_write-eq-some :
    (ws : List Write) (k : Write → List Write → Option Connection) {d : Connection}
    → head_write ws k ≡ some d
    → (w : Write) × (rest : List Write) × (ws ≡ w ∷ rest) × (k w rest ≡ some d)
head_write-eq-some [] k h = absurd (cc)
head_write-eq-some (w ∷ ws) k h = (w, ws, refl, h)

with_pointer-eq-some :
    (o : Option Pointer) (k : Pointer → Option Connection) {d : Connection}
    → with_pointer o k ≡ some d
    → (p : Pointer) × (o ≡ some p) × (k p ≡ some d)
with_pointer-eq-some none k h = absurd (cc)
with_pointer-eq-some (some p) k h = (p, refl, h)

pub step-IsGood :
    (eof : ℤ) (e : Event) (c : Connection) {d : Connection}
    → IsGood c
    → IsSane eof e
    → step eof e c ≡ some d
    → IsGood d
unfolding step
step-IsGood eof (data_read l u) c g h st =
    let t = when-eq-some _ _ st in
    subst IsGood t.1 (
      data_read-IsGood eof c g l u (ground (arith, t.0)) (ground (arith, t.0)) (ground (arith, t.0))
        (ground (arith, t.0)) h)
step-IsGood eof (read_failed nread u) c g h st =
    let t = when-eq-some _ _ st in
    subst IsGood t.1 (
      read_failed-IsGood eof c g nread u (ground (arith, t.0)) (ground (arith, t.0))
        (ground (arith, t.0)) h.0 h.1)
step-IsGood eof (write_done status) c g h st =
    let (w, ws, e, st') = head_write-eq-some c.writes _ st in
    let t = when-eq-some _ _ st' in subst IsGood t.1 (write_done-IsGood c g w ws status e h)
step-IsGood eof (shutdown_done status) c g h st =
    let (req, e, st') = with_pointer-eq-some c.shutdown _ st in
    let t = when-eq-some _ _ st' in
    subst IsGood t.1 (shutdown_done-IsGood c g req status e (and-eq-true _ _ t.0).0)
step-IsGood eof close_done c g h st =
    let t = when-eq-some _ _ st in
    subst IsGood t.1 (close_done-IsGood c g (ground (arith, t.0)) (ground (arith, t.0)))
step-IsGood eof (others_read l p) c g h st =
    let t = when-eq-some _ _ st in subst IsGood t.1 (others_read-IsGood eof c g l p t.0)

pub run-IsGood :
    (eof : ℤ) (es : List Event) (c d : Connection)
    → IsGood c
    → All (IsSane eof) es
    → run (step eof) es c ≡ some d
    → IsGood d
run-IsGood eof = run-keeps (step eof) (IsSane eof) IsGood λ e c d g h. step-IsGood eof e c g h

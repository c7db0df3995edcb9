-- ===== src/Request/Tests.antt =====
-- The laws of the requests, at concrete requests.
use uvexec.Base.{◌≡◌, false, [], ◌∷◌, ◌==◌, if◌then◌else◌, pos, negsuc}
use uvexec.Uv.{set_value}
use uvexec.Stream.ReadSome.{Span}
use uvexec.Request.State.{new, settle}
use uvexec.Request.Send
use uvexec.Request.Laws.{send_completes, outcome}

abbrev nothing : Span
nothing = record { start = 100; size = 0 }

abbrev some_bytes : Span
some_bytes = record { start = 100; size = 4 }

send_completes_example :
    let bytes = settle Send.send_callback (negsuc 3) (Send.set_value_bytes nothing (pos 0) new) in
    let many =
      settle Send.send_callback (negsuc 3) (Send.set_value_buffs (some_bytes ∷ []) (pos 0) new) in
    (bytes.completions ≡ (
      if nothing.size == 0
      then outcome (pos 0) (negsuc 3) ∷ set_value tt ∷ []
      else outcome (pos 0) (negsuc 3) ∷ []))
    × (many.completions ≡ outcome (pos 0) (negsuc 3) ∷ [])
    × (bytes.pending ≡ false)
    × (many.pending ≡ false)
send_completes_example = send_completes nothing (some_bytes ∷ []) (pos 0) (negsuc 3)

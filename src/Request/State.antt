-- ===== src/Request/State.antt =====
-- What the receivers of one request have in common.
use uvexec.Base.{Bool, true, false, List, [], ◌∷◌, if◌then◌else◌}
use uvexec.Uv.{UvError, is_error, Signal, set_value, set_error}
use uvexec.Stream.ReadSome.{Span}

pub record Request : Type 0 where
  -- libuv took the request, and has not called back
  pub pending : Bool
  -- `Buf` of the receivers that have one
  pub buf : Span
  -- the buffers that libuv was handed last
  pub submitted : List Span
  -- what the receiver was completed with, the latest first
  pub completions : List (Signal (Unit {0}))

abbrev pub new : Request
new = record {
  pending = false;
  buf = record { start = 0; size = 0 };
  submitted = [];
  completions = [];
}

abbrev pub complete : Signal (Unit {0}) → Request → Request
complete s op = record op { completions = s ∷ op.completions }

-- The request is handed over, with the answer of libuv.
unfoldable pub submit : UvError → Request → Request
unfolding is_error
submit err op = if is_error err then complete (set_error err) op else record op { pending = true }

-- The callback of a request, with its status.
unfoldable pub finish : UvError → Request → Request
unfolding is_error
finish status op =
    let op' = record op { pending = false } in
    if is_error status then complete (set_error status) op' else complete (set_value tt) op'

-- libuv calls back, once, for a request that it took.
unfoldable pub settle : (UvError → Request → Request) → UvError → Request → Request
settle callback status op = if op.pending then callback status op else op

-- ===== src/Uv/Handle.antt =====
-- A libuv handle as its user sees it: the calls that were made on it. libuv itself is not part of the
-- repository; `may_occur` and `may_close` are what its documentation says of the callbacks that it makes.
use uvexec.Base.{ℕ, suc, Bool, true, false, not, ◌&&◌, ltb}

pub record Handle : Type 0 where
  -- `uv_*_init` succeeded
  pub inited : Bool
  -- the handle was started, and neither stopped nor used up since
  pub started : Bool
  -- what it was started with last: a timeout, a signal number
  pub argument : ℕ
  -- calls of `uv_close`
  pub closes : ℕ
  -- the close callback was made
  pub closed : Bool

abbrev pub raw : Handle
raw = record { inited = false; started = false; argument = 0; closes = 0; closed = false }

abbrev pub init : Handle → Handle
init h = record h { inited = true }

abbrev pub start : ℕ → Handle → Handle
start n h = record h { started = true; argument = n }

abbrev pub stop : Handle → Handle
stop h = record h { started = false }

abbrev pub close : Handle → Handle
close h = record h { started = false; closes = suc h.closes }

-- A oneshot handle calls back if it was started, once.
abbrev pub may_occur : Handle → Bool
may_occur h = h.started

-- The close callback is made once, after a call of `uv_close`.
abbrev pub may_close : Handle → Bool
may_close h = ltb 0 h.closes && not h.closed

abbrev pub finish_close : Handle → Handle
finish_close h = record h { closed = true }

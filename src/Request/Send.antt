-- ===== src/Request/Send.antt =====
-- TSendReceiver.
use uvexec.Base.{List, [], ◌∷◌, ◌==◌, if◌then◌else◌}
use uvexec.Uv.{UvError, set_value}
use uvexec.Stream.ReadSome.{Span}
use uvexec.Request.State.{Request, complete, submit, finish}

-- `set_value(std::span<const uv_buf_t>)`, with the answer of `Send`.
unfoldable pub set_value_buffs : List Span → UvError → Request → Request
unfolding submit
set_value_buffs buffs err op = submit err (record op { submitted = buffs })

-- `set_value(std::span<const std::byte>)`: an empty span completes the receiver, and the function goes on.
unfoldable pub set_value_bytes : Span → UvError → Request → Request
unfolding set_value_buffs
set_value_bytes buff err op =
    let op' = if buff.size == 0 then complete (set_value tt) op else op in
    set_value_buffs (buff ∷ []) err (record op' { buf = buff })

unfoldable pub send_callback : UvError → Request → Request
unfolding finish
send_callback status op = finish status op

-- ===== src/Request/SendTo.antt =====
-- TSendToReceiver. The endpoint goes to libuv unseen.
use uvexec.Base.{List, [], ◌∷◌}
use uvexec.Uv.{UvError}
use uvexec.Stream.ReadSome.{Span}
use uvexec.Request.State.{Request, submit, finish}

-- `set_value(std::span<const uv_buf_t>, ep)`, with the answer of `Send`.
unfoldable pub set_value_buffs : List Span → UvError → Request → Request
unfolding submit
set_value_buffs buffs err op = submit err (record op { submitted = buffs })

-- `set_value(std::span<std::byte>, ep)`
unfoldable pub set_value_bytes : Span → UvError → Request → Request
unfolding set_value_buffs
set_value_bytes buff err op = set_value_buffs (buff ∷ []) err (record op { buf = buff })

unfoldable pub send_callback : UvError → Request → Request
unfolding finish
send_callback status op = finish status op

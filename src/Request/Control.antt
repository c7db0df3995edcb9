-- ===== src/Request/Control.antt =====
-- TShutdownReceiver, TConnectReceiver and TCloseReceiver.
use uvexec.Base.{true, false, if◌then◌else◌}
use uvexec.Uv.{UvError, is_error, set_value, set_error}
use uvexec.Request.State.{Request, complete, submit, finish}

-- `TShutdownReceiver::set_value`, with the answer of `Shutdown`.
unfoldable pub shutdown_set_value : UvError → Request → Request
unfolding submit
shutdown_set_value err op = submit err op

unfoldable pub shutdown_callback : UvError → Request → Request
unfolding finish
shutdown_callback status op = finish status op

-- `uv_udp_t` or `uv_tcp_t`.
pub data SocketType : Type 0 where
  udp tcp : SocketType

-- `TConnectReceiver::set_value`, with the answer of `Connect`: a UDP socket connects at once.
unfoldable pub connect_set_value : SocketType → UvError → Request → Request
unfolding submit is_error
connect_set_value SocketType.udp err op =
    if is_error err then complete (set_error err) op else complete (set_value tt) op
connect_set_value SocketType.tcp err op = submit err op

unfoldable pub connect_callback : UvError → Request → Request
unfolding finish
connect_callback status op = finish status op

-- `TCloseReceiver::set_value`: `uv_close` has no answer.
unfoldable pub close_set_value : Request → Request
close_set_value op = record op { pending = true }

unfoldable pub close_callback : Request → Request
close_callback op = complete (set_value tt) (record op { pending = false })

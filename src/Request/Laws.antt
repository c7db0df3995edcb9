-- ===== src/Request/Laws.antt =====
-- What the receivers of one request do.
use uvexec.Base.{◌≡◌, false, List, [], ◌∷◌, arith, ◌==◌, if◌then◌else◌, pos}
use uvexec.Uv.{UvError, is_error, Signal, set_value, set_error}
use uvexec.Stream.ReadSome.{Span}
use uvexec.Request.State.{new, settle}
use uvexec.Request.Write
use uvexec.Request.Send
use uvexec.Request.SendTo
use uvexec.Request.Control.{
  SocketType, shutdown_set_value, shutdown_callback, connect_set_value, connect_callback,
  close_set_value, close_callback,
}

-- The completion of a request that libuv answers with `err` and, if it takes the request, calls back with
-- `status`.
abbrev pub outcome : UvError → UvError → Signal (Unit {0})
outcome err status =
    if is_error err
    then set_error err
    else if is_error status
    then set_error status
    else set_value tt

-- A write, of bytes or of buffers, completes its receiver exactly once: with libuv's refusal, or with the
-- status of the callback. No request is left pending, and libuv was handed the bytes, or the buffers.
pub write_completes :
    (buff : Span) (buffs : List Span) (err status : UvError)
    → let bytes = settle Write.write_callback status (Write.set_value_bytes buff err new) in
      let many = settle Write.write_callback status (Write.set_value_buffs buffs err new) in
      (bytes.completions ≡ outcome err status ∷ [])
      × (many.completions ≡ outcome err status ∷ [])
      × (bytes.pending ≡ false)
      × (many.pending ≡ false)
      × (bytes.submitted ≡ buff ∷ [])
      × (many.submitted ≡ buffs)
unfolding settle Write.write_callback Write.set_value_bytes is_error
write_completes buff buffs err status = ground arith

-- A send over a connected socket completes its receiver once; but where it is a send of an empty span of
-- bytes, it completes it twice, first with a value and then with the outcome of the request.
pub send_completes :
    (buff : Span) (buffs : List Span) (err status : UvError)
    → let bytes = settle Send.send_callback status (Send.set_value_bytes buff err new) in
      let many = settle Send.send_callback status (Send.set_value_buffs buffs err new) in
      (bytes.completions ≡ (
        if buff.size == 0 then outcome err status ∷ set_value tt ∷ [] else outcome err status ∷ []))
      × (many.completions ≡ outcome err status ∷ [])
      × (bytes.pending ≡ false)
      × (many.pending ≡ false)
unfolding settle Send.send_callback Send.set_value_bytes is_error
send_completes buff buffs err status = ground arith

-- A send to an endpoint, of bytes or of buffers, completes its receiver exactly once.
pub send_to_completes :
    (buff : Span) (buffs : List Span) (err status : UvError)
    → let bytes = settle SendTo.send_callback status (SendTo.set_value_bytes buff err new) in
      let many = settle SendTo.send_callback status (SendTo.set_value_buffs buffs err new) in
      (bytes.completions ≡ outcome err status ∷ [])
      × (many.completions ≡ outcome err status ∷ [])
      × (bytes.pending ≡ false)
      × (many.pending ≡ false)
unfolding settle SendTo.send_callback SendTo.set_value_bytes is_error
send_to_completes buff buffs err status = ground arith

-- A shutdown, a connection of a TCP socket and one of a UDP socket complete their receivers exactly once,
-- with libuv's refusal or with the status of the callback, which a UDP socket does not wait for; a close
-- completes its receiver exactly once, with a value. None leaves a request pending.
pub control_completes :
    (err status : UvError)
    → let shut = settle shutdown_callback status (shutdown_set_value err new) in
      let tcp = settle connect_callback status (connect_set_value SocketType.tcp err new) in
      let udp = settle connect_callback status (connect_set_value SocketType.udp err new) in
      let closed = settle (λ _. close_callback) status (close_set_value new) in
      (shut.completions ≡ outcome err status ∷ [])
      × (tcp.completions ≡ outcome err status ∷ [])
      × (udp.completions ≡ outcome err (pos 0) ∷ [])
      × (closed.completions ≡ set_value tt ∷ [])
      × (shut.pending ≡ false)
      × (tcp.pending ≡ false)
      × (udp.pending ≡ false)
      × (closed.pending ≡ false)
unfolding settle shutdown_callback shutdown_set_value connect_callback connect_set_value
    close_callback close_set_value is_error
control_completes err status = ground arith

-- ===== src/EchoUv/Server.antt =====
-- The server of examples/echo_uv.c: one connection, from on_connection to on_server_close, with what it shares with
-- the others, the buffer SERVER_READ_BUFFER and the counter CLIENT_COUNT.
pub mod Invariant
pub mod Reads
pub mod Completions
pub mod Steps
pub mod Laws
mod Tests
use uvexec.Base.{
  ℕ, suc, Bool, true, false, not, ◌&&◌, ◌||◌, Option, none, some, List, [], ◌∷◌, ◌++◌, ltb, ◌==◌,
  if◌then◌else◌, when, ℤ, pos, is_negative, to_size, eq_ℤ, length,
}
use uvexec.Request.Buffers.{take}
use uvexec.EchoUv.Heap.{Pointer, Heap, count, is_fresh, malloc, free, store}

-- READABLE_BUFFER_SIZE
abbrev pub buffer_size : ℕ
buffer_size = 65536

-- A uv_write_t that libuv has, with the TReqData that its `data` points to and the buffer that that one holds.
pub record Write : Type 0 where
  pub req : Pointer
  pub req_data : Pointer
  pub base : Pointer
  pub len : ℕ

pub record Connection : Type 0 where
  pub heap : Heap
  -- SERVER_READ_BUFFER
  pub read_buffer : Pointer
  -- CLIENT_COUNT
  pub client_count : ℕ
  pub client : Pointer
  -- `client->data`
  pub server_data : Pointer
  pub client_id : Option ℕ
  pub reading : Bool
  -- the writes that libuv has not called back, the oldest first
  pub writes : List Write
  -- the request of uv_shutdown
  pub shutdown : Option Pointer
  -- calls of uv_close
  pub closes : ℕ
  -- the close callback was made
  pub closed : Bool
  -- what was read from the socket, and what was written to it, since the connection was accepted
  pub received : List ℕ
  pub sent : List ℕ

abbrev close : Connection → Connection
close c = record c { reading = false; closes = suc c.closes }

abbrev modify_heap : (Heap → Heap) → Connection → Connection
modify_heap f c = record c { heap = f c.heap }

unfoldable pub on_server_close : Connection → Connection
on_server_close c = modify_heap (λ h. free c.client (free c.server_data h)) c

-- Apart from the message that it prints, nothing depends on the status.
unfoldable pub on_server_shutdown : (req : Pointer) → (status : ℤ) → Connection → Connection
on_server_shutdown req status c = close (modify_heap (free req) c)

-- The buffer that libuv reads into next, and its size.
unfoldable pub on_server_alloc : Connection → Pointer × ℕ
on_server_alloc c = (c.read_buffer, buffer_size)

unfoldable pub on_server_write : Write → (status : ℤ) → Connection → Connection
on_server_write w status c =
    let c' = modify_heap (λ h. free w.req (free w.req_data (free w.base h))) c in
    if is_negative status then close c' else c'

-- What malloc, uv_write and uv_shutdown answer while a callback of a read runs.
pub record Answers : Type 0 where
  pub req_data : Pointer
  pub buffer : Pointer
  pub request : Pointer
  pub result : ℤ

-- The end of the input, and read errors; `eof` is UV_EOF.
unfoldable pub on_server_read_error : (eof : ℤ) → (nread : ℤ) → Answers → Connection → Connection
on_server_read_error eof nread u c =
    let stopped = record c { reading = false } in
    if eq_ℤ nread eof
    then if is_negative u.result
      then close (modify_heap (λ h. free u.request (malloc u.request h)) stopped)
      else record stopped { heap = malloc u.request c.heap; shutdown = some u.request }
    else close stopped

unfoldable pub on_server_read_data : (len : ℕ) → Answers → Connection → Connection
on_server_read_data len u c =
    let h = malloc u.request (malloc u.buffer (malloc u.req_data c.heap)) in
    let c' = record c { heap = h; read_buffer = u.buffer } in
    if is_negative u.result
    then close (modify_heap (λ k. free u.request (free u.req_data (free c.read_buffer k))) c')
    else record c' {
      writes =
          c.writes
          ++ record { req = u.request; req_data = u.req_data; base = c.read_buffer; len = len }
            ∷ [];
    }

unfoldable pub on_server_read : (eof : ℤ) → (nread : ℤ) → Answers → Connection → Connection
unfolding on_server_read_error on_server_read_data
on_server_read eof nread u c =
    if is_negative nread
    then on_server_read_error eof nread u c
    else on_server_read_data (to_size nread) u c

-- What a callback of the listening socket finds: the results of uv_accept and uv_read_start, and what malloc answers.
pub record Opening : Type 0 where
  pub client : Pointer
  pub server_data : Pointer
  pub accept : ℤ
  pub read_start : ℤ

-- `none` where the status is an error: there is no connection.
unfoldable pub on_connection :
    (status : ℤ) → Opening → Heap → (read_buffer client_count : ℕ) → Option Connection
on_connection status o h buffer n =
    let c : Connection = record {
      heap = malloc o.server_data (malloc o.client h);
      read_buffer = buffer;
      client_count = n;
      client = o.client;
      server_data = o.server_data;
      client_id = none;
      reading = false;
      writes = [];
      shutdown = none;
      closes = 0;
      closed = false;
      received = [];
      sent = [];
    } in
    let accepted = record c { client_count = suc n; client_id = some (suc n) } in
    if is_negative status
    then none
    else some (
        if is_negative o.accept
        then close c
        else if is_negative o.read_start
        then close accepted
        else record accepted { reading = true })

-- What libuv and the other connections do.
pub data Event : Type 0 where
  -- libuv read these bytes into the buffer
  data_read : List ℕ → Answers → Event
  read_failed : (nread : ℤ) → Answers → Event
  write_done : (status : ℤ) → Event
  shutdown_done : (status : ℤ) → Event
  close_done : Event
  -- another connection read these bytes: it takes the buffer, and malloc answers with a new one
  others_read : List ℕ → (buffer : Pointer) → Event

abbrev pub head_write : List Write → (Write → List Write → Option Connection) → Option Connection
head_write [] k = none
head_write (w ∷ ws) k = k w ws

abbrev pub with_pointer : Option Pointer → (Pointer → Option Connection) → Option Connection
with_pointer none k = none
with_pointer (some p) k = k p

abbrev pub is_none : Option Pointer → Bool
is_none none = true
is_none (some p) = false

abbrev pub is_empty : List Write → Bool
is_empty [] = true
is_empty (w ∷ ws) = false

-- The events that libuv's documentation allows: no read after the reading stopped; the writes are called back in their
-- order, and with an error once the handle is closing; a shutdown after the writes, and the close after all requests.
unfoldable pub step : (eof : ℤ) → Event → Connection → Option Connection
unfolding on_server_read on_server_write on_server_shutdown on_server_close on_server_alloc
step eof (data_read l u) c =
    when
      (c.reading
        && not (ltb buffer_size (length l))
        && is_fresh u.req_data c.heap
        && is_fresh u.buffer (malloc u.req_data c.heap)
        && is_fresh u.request (malloc u.buffer (malloc u.req_data c.heap)))
      (on_server_read eof (pos (length l)) u
        (record c { heap = store (on_server_alloc c).0 l c.heap; received = c.received ++ l }))
step eof (read_failed nread u) c =
    when (c.reading && is_negative nread && is_fresh u.request c.heap)
      (on_server_read eof nread u c)
step eof (write_done status) c = head_write c.writes λ w ws.
    when (c.closes == 0 || is_negative status) (
      on_server_write w status (record c {
        writes = ws;
        sent = if is_negative status then c.sent else c.sent ++ take w.len (c.heap.bytes w.base);
      }))
step eof (shutdown_done status) c = with_pointer c.shutdown λ req.
    when (is_empty c.writes && (c.closes == 0 || is_negative status))
      (on_server_shutdown req status (record c { shutdown = none }))
step eof close_done c =
    when (ltb 0 c.closes && not c.closed && is_empty c.writes && is_none c.shutdown)
      (on_server_close (record c { closed = true }))
step eof (others_read l p) c = when (is_fresh p c.heap) (record c {
  heap = malloc p (free c.read_buffer (store c.read_buffer l c.heap));
  read_buffer = p;
})

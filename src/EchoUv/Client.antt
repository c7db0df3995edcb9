-- ===== src/EchoUv/Client.antt =====
-- The client of examples/echo_uv.c: its connections, which share one set of statistics, and the callbacks by which
-- they open further connections, up to a limit.
pub mod World
pub mod Callbacks
pub mod Counting
pub mod Limit
pub mod Leak
mod Tests
use uvexec.Base.{
  ℕ, zero, suc, ◌+◌, Bool, true, false, not, ◌&&◌, Option, none, some, ltb, ◌==◌, if◌then◌else◌, ℤ,
  pos, negsuc, is_negative, to_size, eq_ℤ,
}

-- `--n` on an int; the sizes and limits here stay far from overflow.
unfoldable pub pred : ℤ → ℤ
pred (pos zero) = negsuc 0
pred (pos (suc n)) = pos n
pred (negsuc n) = negsuc (suc n)

unfoldable pub minus : ℤ → ℕ → ℤ
unfolding pred
minus z zero = z
minus z (suc n) = minus (pred z) n

abbrev pub is_positive : ℤ → Bool
is_positive (pos (suc n)) = true
is_positive z = false

-- `SClientStats`
pub record Stats : Type 0 where
  pub connection_limit : ℤ
  pub processed_connections : ℕ
  pub fd_limit_exceeded : ℕ
  pub total_bytes_received : ℕ

-- A uv_tcp_t with the SClientData that its `data` points to, and which of its blocks are live.
pub record Client : Type 0 where
  -- `data_buffer->len`
  pub len : ℕ
  pub bytes_left : ℤ
  pub rc : ℤ
  pub connecting : Bool
  pub reading : Bool
  pub writing : Bool
  -- calls of uv_close
  pub closes : ℕ
  -- the close callback was made
  pub closed : Bool
  pub client_data : Bool
  pub handle : Bool
  pub connect_req : Bool
  pub write_req : Bool
  -- calls of free for a block that is not live
  pub bad_frees : ℕ

-- What a callback leaves: the connection, the statistics, and the connection that it made.
pub record Effect : Type 0 where
  pub client : Client
  pub stats : Stats
  pub made : Option Client

abbrev pub close : Client → Client
close k = record k { reading = false; closes = suc k.closes }

-- `free`, of each of the four blocks.
abbrev free_data : Client → Client
free_data k =
    if k.client_data
    then record k { client_data = false }
    else record k { bad_frees = suc k.bad_frees }

abbrev free_handle : Client → Client
free_handle k =
    if k.handle then record k { handle = false } else record k { bad_frees = suc k.bad_frees }

abbrev free_connect_req : Client → Client
free_connect_req k =
    if k.connect_req
    then record k { connect_req = false }
    else record k { bad_frees = suc k.bad_frees }

abbrev free_write_req : Client → Client
free_write_req k =
    if k.write_req then record k { write_req = false } else record k { bad_frees = suc k.bad_frees }

-- `new_connection`, where uv_tcp_connect answers `connect`, which is also the result.
unfoldable pub new_connection : (len : ℕ) → (connect : ℤ) → Client
new_connection len connect = record {
  len = len;
  bytes_left = pos len;
  rc = pos 2;
  connecting = not (is_negative connect);
  reading = false;
  writing = false;
  closes = 0;
  closed = false;
  client_data = true;
  handle = true;
  connect_req = true;
  write_req = false;
  bad_frees = 0;
}

-- `if (--connection_limit > 0)` and its body, as on_client_close and on_client_read have it; `emfile` is UV_EMFILE.
unfoldable pub next_connection : (emfile connect : ℤ) → (len : ℕ) → Stats → Stats × Option Client
unfolding pred new_connection
next_connection emfile connect len s =
    let s' : Stats = record s { connection_limit = pred s.connection_limit } in
    if is_positive s'.connection_limit
    then (
      if is_negative connect && eq_ℤ connect emfile
          then record s' { fd_limit_exceeded = suc s'.fd_limit_exceeded }
          else s',
      some (new_connection len connect),
    )
    else (s', none)

unfoldable pub on_client_close : (emfile connect : ℤ) → Client → Stats → Effect
unfolding next_connection
on_client_close emfile connect k s =
    let s' : Stats = record s { processed_connections = suc s.processed_connections } in
    let (s'', made) =
      if ltb 0 s'.fd_limit_exceeded then next_connection emfile connect k.len s' else (s', none) in
    record { client = free_handle (free_data k); stats = s''; made = made }

-- `if (--client_data->rc == 0) uv_close(...)`
unfoldable pub release : Client → Client
unfolding pred
release k =
    let k' : Client = record k { rc = pred k.rc } in if eq_ℤ k'.rc (pos 0) then close k' else k'

unfoldable pub on_client_read : (emfile connect nread : ℤ) → Client → Stats → Effect
unfolding next_connection release minus
on_client_read emfile connect nread k s =
    let stopped : Client = record k { reading = false } in
    let (s', made) =
      if s.fd_limit_exceeded == 0 && eq_ℤ k.bytes_left (pos k.len)
      then next_connection emfile connect k.len s
      else (s, none) in
    let s'' : Stats = record s' {
      total_bytes_received = s'.total_bytes_received + to_size nread;
    } in
    let left = minus k.bytes_left (to_size nread) in
    if is_negative nread
    then record { client = release stopped; stats = s; made = none }
    else record {
      client =
          if is_positive left
          then record k { bytes_left = left }
          else release (record stopped { bytes_left = left });
      stats = s'';
      made = made;
    }

-- Apart from the message that it prints, nothing depends on the status.
unfoldable pub on_client_write : (status : ℤ) → Client → Client
unfolding release
on_client_write status k = release (free_write_req k)

-- `read_start` and `write` are what uv_read_start and uv_write answer.
unfoldable pub on_connect : (status read_start write : ℤ) → Client → Client
on_connect status read_start write k =
    let k' = free_connect_req k in
    let started : Client = record k' { reading = true; write_req = true } in
    if is_negative status
    then close k'
    else if is_negative read_start
    then close k'
    else if is_negative write
    then close (free_write_req (record started { reading = false }))
    else record started { writing = true }

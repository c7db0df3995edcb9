-- ===== src/EchoUvexec.antt =====
-- The client of examples/echo_uvexec.cpp: EchoClient and its Connection, written with the library; Server has the
-- server. exec::async_scope of stdexec counts the operations that were spawned in it; `on_empty` completes when there
-- is none.
pub mod Laws
pub mod Same
pub mod Server
mod Tests
use uvexec.Base.{
  ℕ, zero, suc, ◌+◌, ◌-◌, Bool, true, false, ◌&&◌, ◌||◌, Option, ltb, ◌==◌, if◌then◌else◌, when, ℤ,
  pos, negsuc, eq_ℤ,
}
use uvexec.EchoUv.Client.{pred, minus, is_positive}

-- `n + 1` on an int.
unfoldable pub succ : ℤ → ℤ
succ (pos n) = pos (suc n)
succ (negsuc zero) = pos 0
succ (negsuc (suc n)) = negsuc n

-- `EchoClient`, with the connections that it spawned.
pub record EchoClient : Type 0 where
  pub connection_limit : ℤ
  pub processed_connections : ℕ
  pub total_bytes_received : ℕ
  pub spawned : ℕ

-- Where the sender of process_connection is: in `send`, in `join`, or past its last `then`.
pub data Stage : Type 0 where
  sending joining finished : Stage

pub record Connection : Type 0 where
  pub data_left : ℤ
  pub data_to_receive : ℕ
  -- the operations of `Scope`
  pub receives : ℕ
  pub stage : Stage
  -- the times that `delete connection` ran, and whether one of them found operations in `Scope`
  pub deletes : ℕ
  pub deleted_busy : Bool

pub record World : Type 0 where
  pub client : EchoClient
  pub connection : Connection

unfoldable pub echo_client : (connections : ℤ) → EchoClient
unfolding succ
echo_client connections = record {
  connection_limit = succ connections;
  processed_connections = 0;
  total_bytes_received = 0;
  spawned = 0;
}

unfoldable pub spawn_connection : EchoClient → EchoClient
spawn_connection e = record e { spawned = suc e.spawned }

unfoldable pub spawn_receive : Connection → Connection
spawn_receive c = record c { receives = suc c.receives }

-- The body that process_connection gives connect_to: a new Connection, whose first receive is spawned before `send`.
unfoldable pub process_connection : (size : ℕ) → Connection
unfolding spawn_receive
process_connection size = spawn_receive record {
  data_left = pos size;
  data_to_receive = size;
  receives = 0;
  stage = sending;
  deletes = 0;
  deleted_busy = false;
}

-- `if (std::cmp_equal(DataLeft, DataToReceive) && --Client.ConnectionLimit > 0)`
unfoldable pub next_connection : Connection → EchoClient → EchoClient
unfolding spawn_connection pred
next_connection c e =
    let e' : EchoClient = record e { connection_limit = pred e.connection_limit } in
    if eq_ℤ c.data_left (pos c.data_to_receive)
    then if is_positive e'.connection_limit then spawn_connection e' else e'
    else e

-- The `then` of receive_data; the operation leaves `Scope` afterwards.
unfoldable pub receive_data : (rd : ℕ) → World → World
unfolding next_connection spawn_receive minus
receive_data rd w =
    let left = minus w.connection.data_left rd in
    let e = next_connection w.connection w.client in
    let c : Connection = record w.connection { data_left = left } in
    let c' = if ltb 0 rd && is_positive left then spawn_receive c else c in
    record {
      client = record e { total_bytes_received = e.total_bytes_received + rd };
      connection = record c' { receives = c'.receives - 1 };
    }

-- The last `then` of process_connection.
unfoldable pub finish_connection : World → World
finish_connection w = record {
  client = record w.client { processed_connections = suc w.client.processed_connections };
  connection = record w.connection {
    stage = finished;
    deletes = suc w.connection.deletes;
    deleted_busy = w.connection.deleted_busy || ltb 0 w.connection.receives;
  };
}

-- What the senders of the connection complete with.
pub data Event : Type 0 where
  received : ℕ → Event
  receive_failed : Event
  sent : Event
  send_failed : Event
  emptied : Event

abbrev pub is_sending : Stage → Bool
is_sending sending = true
is_sending _ = false

abbrev pub is_joining : Stage → Bool
is_joining joining = true
is_joining _ = false

unfoldable pub step : Event → World → Option World
unfolding receive_data finish_connection
step (received rd) w = when (ltb 0 w.connection.receives) (receive_data rd w)
step receive_failed w =
    when (ltb 0 w.connection.receives)
      (record w { connection = record w.connection { receives = w.connection.receives - 1 } })
step sent w =
    when (is_sending w.connection.stage)
      (record w { connection = record w.connection { stage = joining } })
step send_failed w = when (is_sending w.connection.stage) (finish_connection w)
step emptied w =
    when (is_joining w.connection.stage && w.connection.receives == 0) (finish_connection w)

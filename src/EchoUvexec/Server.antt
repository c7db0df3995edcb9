-- ===== src/EchoUvexec/Server.antt =====
-- A connection of the server in examples/echo_uvexec.cpp: EchoConnection, which reads into the vector `Data` and hands
-- it over to a send, and the sender by which EchoServer runs and deletes it.
pub mod Laws
mod Tests
use uvexec.Base.{
  ℕ, suc, ◌+◌, Bool, true, false, not, ◌&&◌, ◌||◌, Option, none, some, List, [], ◌∷◌, ◌++◌, ltb,
  ◌==◌, if◌then◌else◌, when, length,
}
use uvexec.Request.Buffers.{take}

abbrev pub Pointer : Type 0
Pointer = ℕ

-- READABLE_BUFFER_SIZE
abbrev pub buffer_size : ℕ
buffer_size = 65536

-- A send in `Scope`, which owns the vector: where its elements are, and how many there are.
pub record Send : Type 0 where
  pub base : Pointer
  pub len : ℕ

-- Where the sender of accept_connection's body is: in process_connection, in `on_empty`, or past `delete connection`.
pub data Stage : Type 0 where
  reading emptying finished : Stage

pub record EchoConnection : Type 0 where
  -- the elements of `Data`
  pub elements : Pointer
  -- `Buf`
  pub buf : Pointer × ℕ
  -- what the vectors hold
  pub bytes : Pointer → List ℕ
  -- `Scope`, the oldest send first
  pub sends : List Send
  pub stage : Stage
  -- `Stats.ProcessedBytes`, for this connection
  pub processed_bytes : ℕ
  -- what was read from the socket, and what was written to it
  pub received : List ℕ
  pub sent : List ℕ
  -- the times that `delete connection` ran, and whether one of them found operations in `Scope`
  pub deletes : ℕ
  pub deleted_busy : Bool

unfoldable pub echo_connection : (elements : Pointer) → (Pointer → List ℕ) → EchoConnection
echo_connection elements bytes = record {
  elements = elements;
  buf = (elements, buffer_size);
  bytes = bytes;
  sends = [];
  stage = reading;
  processed_bytes = 0;
  received = [];
  sent = [];
  deletes = 0;
  deleted_busy = false;
}

-- The condition that process_connection gives read_until, where `fresh` are the elements of the new vector. It is never
-- met: the reading goes on.
unfoldable pub read_condition : (n : ℕ) → (fresh : Pointer) → EchoConnection → EchoConnection × Bool
read_condition n fresh c = (
  record c {
    elements = fresh;
    buf = (fresh, buffer_size);
    sends = c.sends ++ record { base = c.elements; len = n } ∷ [];
  },
  false,
)

-- The `then` of a send; the operation leaves `Scope` afterwards.
unfoldable pub count_bytes : Send → EchoConnection → EchoConnection
count_bytes s c = record c { processed_bytes = c.processed_bytes + s.len }

abbrev pub is_empty : List Send → Bool
is_empty [] = true
is_empty (s ∷ ss) = false

-- The sender that exec::finally runs.
unfoldable pub delete_connection : EchoConnection → EchoConnection
delete_connection c = record c {
  stage = finished;
  deletes = suc c.deletes;
  deleted_busy = c.deleted_busy || not (is_empty c.sends);
}

abbrev pub is_reading : Stage → Bool
is_reading reading = true
is_reading _ = false

abbrev pub is_emptying : Stage → Bool
is_emptying emptying = true
is_emptying _ = false

-- No send has these elements.
abbrev pub is_unused : Pointer → List Send → Bool
is_unused p [] = true
is_unused p (s ∷ ss) = not (s.base == p) && is_unused p ss

abbrev pub write : Pointer → List ℕ → (Pointer → List ℕ) → Pointer → List ℕ
write p l bytes q = if q == p then l else bytes q

abbrev pub head_send :
    List Send → (Send → List Send → Option EchoConnection) → Option EchoConnection
head_send [] k = none
head_send (s ∷ ss) k = k s ss

-- What the library's senders do: read_until reads bytes into `Buf` and asks its condition, or ends, with a value or an
-- error that upon_error makes one of, or is stopped; sends complete in their order.
pub data Event : Type 0 where
  bytes_read : List ℕ → (fresh : Pointer) → Event
  read_ended : Event
  read_stopped : Event
  sent_all : Event
  send_failed : Event
  emptied : Event

unfoldable pub step : Event → EchoConnection → Option EchoConnection
unfolding read_condition count_bytes delete_connection
step (bytes_read l fresh) c =
    when
      (is_reading c.stage
        && not (ltb c.buf.1 (length l))
        && not (c.elements == fresh)
        && is_unused fresh c.sends)
      (read_condition (length l) fresh
        (record c { bytes = write c.buf.0 l c.bytes; received = c.received ++ l })).0
step read_ended c = when (is_reading c.stage) (record c { stage = emptying })
step read_stopped c = when (is_reading c.stage) (delete_connection c)
step sent_all c = head_send c.sends λ s ss.
    some (count_bytes s (record c { sends = ss; sent = c.sent ++ take s.len (c.bytes s.base) }))
step send_failed c = head_send c.sends λ s ss. some (record c { sends = ss })
step emptied c = when (is_emptying c.stage && is_empty c.sends) (delete_connection c)

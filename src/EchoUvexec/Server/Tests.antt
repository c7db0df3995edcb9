-- ===== src/EchoUvexec/Server/Tests.antt =====
-- An EchoConnection that reads twice before the first send completes.
use uvexec.Base.{ℕ, ◌≡◌, refl, false, some, List, [], ◌∷◌, ◌++◌, run}
use uvexec.EchoUvexec.Server.Laws.{pending, connection_echoes}
use uvexec.EchoUvexec.Server.{
  Pointer, finished, reading, buffer_size, EchoConnection, echo_connection, Event, bytes_read,
  read_ended, sent_all, emptied, step, write,
}

abbrev no_bytes : Pointer → List ℕ
no_bytes p = []

abbrev events : List Event
events =
    bytes_read (104 ∷ 105 ∷ []) 2
    ∷ bytes_read (33 ∷ []) 3
    ∷ sent_all
    ∷ read_ended
    ∷ sent_all
    ∷ emptied
    ∷ []

abbrev at_the_end : EchoConnection
at_the_end = record {
  elements = 3;
  buf = (3, buffer_size);
  bytes = write 2 (33 ∷ []) (write 1 (104 ∷ 105 ∷ []) no_bytes);
  sends = [];
  stage = finished;
  processed_bytes = 3;
  received = 104 ∷ 105 ∷ 33 ∷ [];
  sent = 104 ∷ 105 ∷ 33 ∷ [];
  deletes = 1;
  deleted_busy = false;
}

ends : run step events (echo_connection 1 no_bytes) ≡ some at_the_end
unfolding step echo_connection
ends = refl

-- Two reads, of which the first was sent.
abbrev reads : List Event
reads = bytes_read (104 ∷ 105 ∷ []) 2 ∷ bytes_read (33 ∷ []) 3 ∷ sent_all ∷ []

abbrev half_sent : EchoConnection
half_sent = record {
  elements = 3;
  buf = (3, buffer_size);
  bytes = write 2 (33 ∷ []) (write 1 (104 ∷ 105 ∷ []) no_bytes);
  sends = record { base = 2; len = 1 } ∷ [];
  stage = reading;
  processed_bytes = 2;
  received = 104 ∷ 105 ∷ 33 ∷ [];
  sent = 104 ∷ 105 ∷ [];
  deletes = 0;
  deleted_busy = false;
}

half_sent-run : run step reads (echo_connection 1 no_bytes) ≡ some half_sent
unfolding step echo_connection
half_sent-run = refl

connection_echoes_example :
    half_sent.sent ++ pending half_sent.bytes half_sent.sends ≡ half_sent.received
connection_echoes_example =
    connection_echoes 1 no_bytes reads half_sent (tt, (tt, (tt, tt))) half_sent-run

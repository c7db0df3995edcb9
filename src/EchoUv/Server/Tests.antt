-- ===== src/EchoUv/Server/Tests.antt =====
-- A connection of the server that echoes two bytes while another connection reads, and one that is closed twice.
use uvexec.Base.{
  ℕ, ◌≤◌, ◌≡◌, refl, true, false, none, some, List, [], ◌∷◌, ◌++◌, ◌==◌, if◌then◌else◌, ℤ, pos,
  negsuc, All, run,
}
use uvexec.EchoUv.Heap.{Pointer, same, count, erase, free}
use uvexec.EchoUv.Server.{
  Connection, Write, Answers, Opening, Event, data_read, read_failed, write_done, shutdown_done,
  close_done, others_read, on_connection, step,
}
use uvexec.EchoUv.Server.Invariant.{pending, IsSane}
use uvexec.EchoUv.Server.Laws.{server_heap, server_echoes, server_frees, failed_read_closes_twice}

abbrev zeros : Pointer → List ℕ
zeros p = []

abbrev opening : Opening
opening = record { client = 1; server_data = 2; accept = pos 0; read_start = pos 0 }

abbrev answers : (req_data buffer request : ℕ) → Answers
answers d b r = record { req_data = d; buffer = b; request = r; result = pos 0 }

-- UV_EOF on Linux.
abbrev eof : ℤ
eof = negsuc 4094

abbrev echoed : List Event
echoed =
    data_read (104 ∷ 105 ∷ []) (answers 3 4 5)
    ∷ others_read (7 ∷ []) 8
    ∷ write_done (pos 0)
    ∷ read_failed eof (answers 0 0 6)
    ∷ shutdown_done (pos 0)
    ∷ close_done
    ∷ []

abbrev accepted : Connection
accepted = record {
  heap = record { blocks = 2 ∷ 1 ∷ 9 ∷ []; bytes = zeros; bad_frees = 0 };
  read_buffer = 9;
  client_count = 1;
  client = 1;
  server_data = 2;
  client_id = some 1;
  reading = true;
  writes = [];
  shutdown = none;
  closes = 0;
  closed = false;
  received = [];
  sent = [];
}

-- What another connection read went into a buffer that is not this one's any more.
abbrev bytes_then : Pointer → List ℕ
bytes_then p = if 4 == p then 7 ∷ [] else if 9 == p then 104 ∷ 105 ∷ [] else []

abbrev finished : Connection
finished = record accepted {
  heap = record { blocks = 8 ∷ []; bytes = bytes_then; bad_frees = 0 };
  read_buffer = 8;
  reading = false;
  closes = 1;
  closed = true;
  received = 104 ∷ 105 ∷ [];
  sent = 104 ∷ 105 ∷ [];
}

opens : on_connection (pos 0) opening (server_heap 9 zeros) 9 0 ≡ some accepted
unfolding on_connection
opens = refl

runs : run (step eof) echoed accepted ≡ some finished
unfolding step free count erase
runs = refl

echoed-IsSane : All (IsSane eof) echoed
echoed-IsSane = (refl, (tt, (refl, ((refl, refl), (tt, (tt, tt))))))

server_echoes_example :
    finished.sent ++ pending finished.heap.bytes finished.writes ≡ finished.received
unfolding count
server_echoes_example =
    server_echoes (pos 0) opening 9 0 zeros eof echoed accepted finished (refl, refl) opens
      echoed-IsSane runs

server_frees_example :
    (finished.heap.bad_frees ≡ 0)
    × (finished.closes ≤ 1)
    × (finished.closed ≡ true
        → (p : Pointer) → count p finished.heap.blocks ≡ same p finished.read_buffer)
unfolding count
server_frees_example =
    server_frees (pos 0) opening 9 0 zeros eof echoed accepted finished (refl, refl) opens
      echoed-IsSane runs

abbrev in_flight : Write
in_flight = record { req = 5; req_data = 3; base = 9; len = 2 }

-- The connection after its first read.
abbrev writing : Connection
writing = record accepted {
  heap = record {
    blocks = 5 ∷ 4 ∷ 3 ∷ 2 ∷ 1 ∷ 9 ∷ [];
    bytes = λ p. if 9 == p then 104 ∷ 105 ∷ [] else [];
    bad_frees = 0;
  };
  read_buffer = 4;
  writes = in_flight ∷ [];
  received = 104 ∷ 105 ∷ [];
}

reaches_writing :
    run (step eof) (data_read (104 ∷ 105 ∷ []) (answers 3 4 5) ∷ []) accepted ≡ some writing
unfolding step free count erase
reaches_writing = refl

failed_read_closes_twice_example :
    (d : Connection) × (run
        (step eof)
        (read_failed (negsuc 103) (answers 0 0 6) ∷ write_done (negsuc 124) ∷ [])
        writing
      ≡ some d)
    × (d.closes ≡ 2)
unfolding count
failed_read_closes_twice_example =
    failed_read_closes_twice eof (negsuc 103) (negsuc 124) (answers 0 0 6) writing in_flight [] refl
      refl refl refl refl refl refl

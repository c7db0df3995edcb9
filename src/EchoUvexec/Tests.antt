-- ===== src/EchoUvexec/Tests.antt =====
-- A connection of EchoClient that receives its five bytes in two parts.
use uvexec.Base.{◌≤◌, ◌≡◌, refl, false, some, List, [], ◌∷◌, arith, pos, negsuc, run}
use uvexec.EchoUv.Client.{Stats, pred, minus, on_client_read, on_connect, release, new_connection}
use uvexec.EchoUv.Client as Uv
use uvexec.EchoUvexec.{
  EchoClient, finished, World, process_connection, spawn_receive, Event, received, sent, emptied,
  step,
}
use uvexec.EchoUvexec.Laws.{deleted_when_empty}
use uvexec.EchoUvexec.Same.{uv_reads, uvexec_reads, connected, same_reads}

abbrev some_client : EchoClient
some_client = record {
  connection_limit = pos 4;
  processed_connections = 0;
  total_bytes_received = 7;
  spawned = 1;
}

abbrev events : List Event
events = received 2 ∷ sent ∷ received 3 ∷ emptied ∷ []

abbrev at_the_end : World
at_the_end = record {
  client = record {
    connection_limit = pos 3;
    processed_connections = 1;
    total_bytes_received = 12;
    spawned = 2;
  };
  connection = record {
    data_left = pos 0;
    data_to_receive = 5;
    receives = 0;
    stage = finished;
    deletes = 1;
    deleted_busy = false;
  };
}

ends :
    run step events (record { client = some_client; connection = process_connection 5 })
    ≡ some at_the_end
unfolding step process_connection spawn_receive
ends = refl

deleted_when_empty_example :
    (at_the_end.connection.deleted_busy ≡ false)
    × (at_the_end.connection.deletes ≤ 1)
    × (at_the_end.connection.deletes ≡ 1 → at_the_end.connection.receives ≡ 0)
deleted_when_empty_example =
    deleted_when_empty 5 some_client events at_the_end (tt, (tt, (tt, (tt, tt)))) ends

abbrev some_stats : Stats
some_stats = record {
  connection_limit = pos 4;
  processed_connections = 0;
  fd_limit_exceeded = 0;
  total_bytes_received = 7;
}

same_reads_example :
    uv_reads (negsuc 23) (2 ∷ 3 ∷ []) 1 (connected 5) some_stats
    ≡ uvexec_reads (2 ∷ 3 ∷ []) (record { client = some_client; connection = process_connection 5 })
same_reads_example =
    same_reads (negsuc 23) 5 (2 ∷ 3 ∷ []) some_stats some_client
      ((omega arith), ((omega arith), tt)) refl refl refl

same_numbers :
    uv_reads (negsuc 23) (2 ∷ 3 ∷ []) 1 (connected 5) some_stats
    ≡ record { left = pos 0; reads_on = false; limit = pos 3; started = 2; total = 12 }
unfolding uv_reads Uv.next_connection new_connection on_connect
same_numbers = refl

-- ===== src/EchoUv/Client/Tests.antt =====
-- A run of the client with a payload of three bytes and two connections, the first of which uv_tcp_connect refuses.
use uvexec.Base.{
  ◌≤◌, ◌≡◌, refl, true, false, some, List, [], ◌∷◌, arith, ℤ, pos, negsuc, length, All, run,
}
use uvexec.EchoUv.Client.{Client}
use uvexec.EchoUv.Client.World.{
  World, connected, was_read, was_written, was_closed, Event, call, step, echo_client,
}
use uvexec.EchoUv.Client.Counting.{IsSettled, client_closes_once}
use uvexec.EchoUv.Client.Limit.{connections_limited}

-- UV_EMFILE on Linux.
abbrev emfile : ℤ
emfile = negsuc 23

abbrev events : List Event
events =
    call 1 (connected (pos 0) (pos 0) (pos 0))
    ∷ call 1 (was_read (pos 2) (pos 0))
    ∷ call 1 (was_written (pos 0))
    ∷ call 1 (was_read (pos 1) (pos 0))
    ∷ call 1 (was_closed (pos 0))
    ∷ call 2 (connected (negsuc 110) (pos 0) (pos 0))
    ∷ []

abbrev refused : Client
refused = record {
  len = 3;
  bytes_left = pos 3;
  rc = pos 2;
  connecting = false;
  reading = false;
  writing = false;
  closes = 0;
  closed = false;
  client_data = true;
  handle = true;
  connect_req = true;
  write_req = false;
  bad_frees = 0;
}

abbrev served : Client
served = record {
  len = 3;
  bytes_left = pos 0;
  rc = pos 0;
  connecting = false;
  reading = false;
  writing = false;
  closes = 1;
  closed = true;
  client_data = false;
  handle = false;
  connect_req = false;
  write_req = false;
  bad_frees = 0;
}

abbrev unconnected : Client
unconnected = record {
  len = 3;
  bytes_left = pos 3;
  rc = pos 2;
  connecting = false;
  reading = false;
  writing = false;
  closes = 1;
  closed = false;
  client_data = true;
  handle = true;
  connect_req = false;
  write_req = false;
  bad_frees = 0;
}

abbrev after : World
after = record {
  stats = record {
    connection_limit = pos 1;
    processed_connections = 1;
    fd_limit_exceeded = 0;
    total_bytes_received = 3;
  };
  clients = refused ∷ served ∷ unconnected ∷ [];
}

abbrev connects : List ℤ
connects = negsuc 10 ∷ pos 0 ∷ []

runs : run (step emfile) events (echo_client 3 connects 3) ≡ some after
unfolding step echo_client
runs = refl

client_closes_once_example : All IsSettled after.clients
client_closes_once_example = client_closes_once emfile 3 connects 3 events after runs

connections_limited_example : length after.clients ≤ 3
connections_limited_example =
    connections_limited emfile 3 connects 3 events after (omega arith) runs

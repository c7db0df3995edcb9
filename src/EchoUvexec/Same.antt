-- ===== src/EchoUvexec/Same.antt =====
-- The clients of examples/echo_uvexec.cpp and of examples/echo_uv.c, beside one another: what the reads of a connection
-- make of the numbers that both keep.
use uvexec.Base.{
  ℕ, ◌+◌, ◌≤◌, ◌<◌, ◌≡◌, refl, sym, ap, ◌∙◌, inl, inr, Bool, true, false, List, [], ◌∷◌, arith, ltb,
  if◌then◌else◌, Bool-cases, ℤ, pos, eq_ℤ, length, All,
}
use uvexec.EchoUv.Client.{
  Stats, Client, Effect, pred, minus, is_positive, new_connection, release, on_client_read,
  on_connect,
}
use uvexec.EchoUv.Client as Uv
use uvexec.EchoUv.Client.World.{of_option}
use uvexec.EchoUvexec.{
  EchoClient, World, process_connection, spawn_receive, spawn_connection, next_connection,
  receive_data,
}

-- The bytes that are still to come, whether the connection reads on, how many connections may still be started, how
-- many were, and the bytes that all connections received.
pub record Numbers : Type 0 where
  pub left : ℤ
  pub reads_on : Bool
  pub limit : ℤ
  pub started : ℕ
  pub total : ℕ

abbrev uv_numbers : (started : ℕ) → Client → Stats → Numbers
uv_numbers n k s = record {
  left = k.bytes_left;
  reads_on = k.reading;
  limit = s.connection_limit;
  started = n;
  total = s.total_bytes_received;
}

-- libuv calls on_client_read back with these sizes, as long as the client reads, and uv_tcp_connect succeeds.
unfoldable pub uv_reads : (emfile : ℤ) → List ℕ → (started : ℕ) → Client → Stats → Numbers
unfolding on_client_read
uv_reads emfile [] n k s = uv_numbers n k s
uv_reads emfile (r ∷ rs) n k s =
    let f = on_client_read emfile (pos 0) (pos r) k s in
    let on = uv_reads emfile rs (n + length (of_option f.made)) f.client f.stats in
    if k.reading then on else uv_numbers n k s

abbrev uvexec_numbers : World → Numbers
uvexec_numbers w = record {
  left = w.connection.data_left;
  reads_on = ltb 0 w.connection.receives;
  limit = w.client.connection_limit;
  started = w.client.spawned;
  total = w.client.total_bytes_received;
}

-- The receives complete with these sizes, as long as there is one.
unfoldable pub uvexec_reads : List ℕ → World → Numbers
unfolding receive_data
uvexec_reads [] w = uvexec_numbers w
uvexec_reads (r ∷ rs) w =
    let on = uvexec_reads rs (receive_data r w) in
    if ltb 0 w.connection.receives then on else uvexec_numbers w

record Alike (n : ℕ) (k : Client) (s : Stats) (w : World) : Type 0 where
  left : k.bytes_left ≡ w.connection.data_left
  size : k.len ≡ w.connection.data_to_receive
  on : k.reading ≡ ltb 0 w.connection.receives
  one : w.connection.receives ≤ 1
  limit : s.connection_limit ≡ w.client.connection_limit
  started : n ≡ w.client.spawned
  total : s.total_bytes_received ≡ w.client.total_bytes_received
  files : s.fd_limit_exceeded ≡ 0

release-stopped : (k : Client) → k.reading ≡ false → (release k).reading ≡ false
unfolding release
release-stopped k h = ground arith

release-left : (k : Client) → (release k).bytes_left ≡ k.bytes_left
unfolding release
release-left k = ground arith

release-len : (k : Client) → (release k).len ≡ k.len
unfolding release
release-len k = ground arith

-- What both do with the limit.
module _ (emfile : ℤ) (n r : ℕ) (k : Client) (s : Stats) (w : World) (a : Alike n k s w)
    (more : k.reading ≡ true) (some_bytes : 0 < r) where
  abbrev effect : Effect
  effect = on_client_read emfile (pos 0) (pos r) k s

  abbrev left_now : ℤ
  left_now = minus k.bytes_left r

  receives_one : w.connection.receives ≡ 1
  receives_one = ground (arith, a.on, a.one)

  positive : ltb 0 r ≡ true
  positive = ground arith

  abbrev stopped : Client
  stopped = record k { reading = false; bytes_left = left_now }

  abbrev test : Bool
  test = is_positive (minus w.connection.data_left r)

  abbrev stopped_left : Client
  stopped_left = record k { reading = false; bytes_left = minus w.connection.data_left r }

  read-left : effect.client.bytes_left ≡ (receive_data r w).connection.data_left
  unfolding on_client_read receive_data spawn_receive
  read-left = elim (Bool-cases test) [
    | inl p ↦ rw (positive, a.left, p)
    | inr p ↦ rw (positive, a.left, p) (release-left stopped_left)
  ]

  read-len : effect.client.len ≡ (receive_data r w).connection.data_to_receive
  unfolding on_client_read receive_data spawn_receive
  read-len = elim (Bool-cases test) [
    | inl p ↦ rw (positive, a.left, p) a.size
    | inr p ↦ rw (positive, a.left, p) (release-len stopped_left ∙ a.size)
  ]

  read-on : effect.client.reading ≡ ltb 0 (receive_data r w).connection.receives
  unfolding on_client_read receive_data spawn_receive
  read-on = elim (Bool-cases test) [
    | inl p ↦ rw (positive, a.left, p, receives_one) more
    | inr p ↦ rw (positive, a.left, p, receives_one) (release-stopped stopped_left refl)
  ]

  read-one : (receive_data r w).connection.receives ≤ 1
  unfolding receive_data spawn_receive
  read-one = elim (Bool-cases test) [
    | inl p ↦ rw (positive, p, receives_one) (omega arith)
    | inr p ↦ rw (positive, p, receives_one) (omega arith)
  ]

  abbrev first : Bool
  first = eq_ℤ w.connection.data_left (pos w.connection.data_to_receive)

  read-limit : effect.stats.connection_limit ≡ (receive_data r w).client.connection_limit
  unfolding on_client_read receive_data Uv.next_connection next_connection spawn_connection
  read-limit = elim (Bool-cases first) [
    | inl p ↦ elim (Bool-cases (is_positive (pred w.client.connection_limit))) [
      | inl q ↦ rw (a.files, a.left, a.size, a.limit, p, q)
      | inr q ↦ rw (a.files, a.left, a.size, a.limit, p, q)
    ]
    | inr p ↦ rw (a.files, a.left, a.size, p) a.limit
  ]

  read-total : effect.stats.total_bytes_received ≡ (receive_data r w).client.total_bytes_received
  unfolding on_client_read receive_data Uv.next_connection next_connection spawn_connection
  read-total = elim (Bool-cases first) [
    | inl p ↦ elim (Bool-cases (is_positive (pred w.client.connection_limit))) [
      | inl q ↦ rw (a.files, a.left, a.size, a.limit, p, q) (ap (λ t. t + r) a.total)
      | inr q ↦ rw (a.files, a.left, a.size, a.limit, p, q) (ap (λ t. t + r) a.total)
    ]
    | inr p ↦ rw (a.files, a.left, a.size, p) (ap (λ t. t + r) a.total)
  ]

  read-files : effect.stats.fd_limit_exceeded ≡ 0
  unfolding on_client_read Uv.next_connection
  read-files = elim (Bool-cases first) [
    | inl p ↦ elim (Bool-cases (is_positive (pred w.client.connection_limit))) [
      | inl q ↦ rw (a.files, a.left, a.size, a.limit, p, q)
      | inr q ↦ rw (a.files, a.left, a.size, a.limit, p, q)
    ]
    | inr p ↦ rw (a.files, a.left, a.size, p)
  ]

  read-started : n + length (of_option effect.made) ≡ (receive_data r w).client.spawned
  unfolding on_client_read receive_data Uv.next_connection next_connection spawn_connection
  read-started = elim (Bool-cases first) [
    | inl p ↦ elim (Bool-cases (is_positive (pred w.client.connection_limit))) [
      | inl q ↦ rw (a.files, a.left, a.size, a.limit, p, q) (omega (arith, a.started))
      | inr q ↦ rw (a.files, a.left, a.size, a.limit, p, q) (omega (arith, a.started))
    ]
    | inr p ↦ rw (a.files, a.left, a.size, p) (omega (arith, a.started))
  ]

  read-Alike :
      Alike (n + length (of_option effect.made)) effect.client effect.stats (receive_data r w)
  read-Alike = record {
    left = read-left;
    size = read-len;
    on = read-on;
    one = read-one;
    limit = read-limit;
    started = read-started;
    total = read-total;
    files = read-files;
  }

numbers-Alike :
    (n : ℕ) (k : Client) (s : Stats) (w : World)
    → Alike n k s w
    → uv_numbers n k s ≡ uvexec_numbers w
numbers-Alike n k s w a = rw (a.left, a.on, a.limit, a.started, a.total)

if_true : (b : Bool) (x y : Numbers) → b ≡ true → (if b then x else y) ≡ x
if_true b x y h = rw h

if_false : (b : Bool) (x y : Numbers) → b ≡ false → (if b then x else y) ≡ y
if_false b x y h = rw h

reads-Alike :
    (emfile : ℤ) (rs : List ℕ) (n : ℕ) (k : Client) (s : Stats) (w : World)
    → All (λ r. 0 < r) rs
    → Alike n k s w
    → uv_reads emfile rs n k s ≡ uvexec_reads rs w
unfolding uv_reads uvexec_reads
reads-Alike emfile [] n k s w h a = numbers-Alike n k s w a
reads-Alike emfile (r ∷ rs) n k s w h a = elim (Bool-cases k.reading) [
  | inl more ↦
      if_true k.reading _ _ more
      ∙ reads-Alike emfile rs _ _ _ _ h.1 (read-Alike emfile n r k s w a more h.0)
      ∙ sym (if_true (ltb 0 w.connection.receives) _ _ (sym a.on ∙ more))
  | inr over ↦
      if_false k.reading _ _ over
      ∙ numbers-Alike n k s w a
      ∙ sym (if_false (ltb 0 w.connection.receives) _ _ (sym a.on ∙ over))
]

-- The connection of the client in echo_uv.c, once it is connected and reads.
abbrev pub connected : (size : ℕ) → Client
connected size =
    on_connect (pos 0) (pos 0) (pos 0) (record (new_connection size (pos 0)) { connecting = false })

-- Whatever sizes a connection reads, none of them empty, EchoClient and the client of echo_uv.c come to the same numbers
-- from the same ones: the bytes that are left, whether the connection reads on, the connections that were started and
-- those that still may be, and the total, as long as uv_tcp_connect succeeds and no limit of files was met.
pub same_reads :
    (emfile : ℤ) (size : ℕ) (rs : List ℕ) (s : Stats) (e : EchoClient)
    → All (λ r. 0 < r) rs
    → s.fd_limit_exceeded ≡ 0
    → s.connection_limit ≡ e.connection_limit
    → s.total_bytes_received ≡ e.total_bytes_received
    → uv_reads emfile rs e.spawned (connected size) s
      ≡ uvexec_reads rs (record { client = e; connection = process_connection size })
unfolding new_connection on_connect process_connection
same_reads emfile size rs s e h files limit total =
    reads-Alike emfile rs e.spawned (connected size) s
      (record { client = e; connection = process_connection size }) h
      record {
        left = refl;
        size = refl;
        on = refl;
        one = omega arith;
        limit = limit;
        started = refl;
        total = total;
        files = files;
      }

-- ===== src/Sockets/Laws.antt =====
-- Which constructors leave a handle in the loop.
use uvexec.Base.{◌-◌}
use uvexec.Sockets.{Outcome, returns, throws, terminates, Handles}

-- The program closes a socket that it could construct; of one that it could not it has nothing to close.
abbrev pub close_if_constructed : Outcome (Unit {0}) × Handles → Handles
close_if_constructed (returns u, n) = n - 1
close_if_constructed (throws e, n) = n
close_if_constructed (terminates, n) = n

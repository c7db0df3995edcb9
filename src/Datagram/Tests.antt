-- ===== src/Datagram/Tests.antt =====
-- Runs of the receives, and the laws at them.
use uvexec.Base.{◌≡◌, refl, inl, true, false, none, some, List, [], ◌∷◌, ℤ, pos, negsuc, run}
use uvexec.Uv.{is_error, set_value}
use uvexec.StopOperation
use uvexec.Transfer.{Event, begins, arrives}
use uvexec.Stream.ReadSome.{Span}
use uvexec.Datagram.Address.{Address, Datagram}
use uvexec.Datagram.Receive
use uvexec.Datagram.Receive.{ReceiveOpState}
use uvexec.Datagram.ReceiveFrom
use uvexec.Datagram.ReceiveFrom.{ReceiveFromOpState}
use uvexec.Datagram.Laws.{Delivered, receive_from_endpoint}

abbrev buff : Span
buff = record { start = 100; size = 8 }

-- AF_INET and the address of a sender.
abbrev sender : Address
sender = record { family = 2; body = 77 }

abbrev nowhere : Address
nowhere = record { family = 2; body = 0 }

abbrev einval : ℤ
einval = negsuc 21

einval_bad : is_error einval ≡ true
unfolding is_error
einval_bad = refl

-- Nothing to receive, and then a datagram of 5 bytes.
abbrev arrived : List (Event Datagram)
arrived =
    begins (pos 0)
    ∷ arrives (record { nrd = pos 0; addr = none })
    ∷ arrives (record { nrd = pos 5; addr = some sender })
    ∷ []

abbrev got : ReceiveOpState
got = record {
  stop_op = StopOperation.state false true false 0;
  buf = buff;
  reading = false;
  waiting = false;
  receiver = true;
  undefined = false;
  completions = set_value 5 ∷ [];
}

got-run : run (Receive.step buff) arrived (Receive.start (Receive.connect false)) ≡ some got
unfolding Receive.step Receive.start Receive.connect
got-run = refl

abbrev got_from : ReceiveFromOpState
got_from = record {
  stop_op = StopOperation.state false true false 0;
  buf = buff;
  endpoint = sender;
  reading = false;
  waiting = false;
  receiver = true;
  undefined = false;
  completions = set_value 5 ∷ [];
}

got_from-run :
    run
      (ReceiveFrom.step einval 2 buff nowhere)
      arrived
      (ReceiveFrom.start (ReceiveFrom.connect false))
    ≡ some got_from
unfolding ReceiveFrom.step ReceiveFrom.start ReceiveFrom.connect
got_from-run = refl

-- The socket receives, and has received nothing yet.
abbrev idle : List (Event Datagram)
idle = begins (pos 0) ∷ arrives (record { nrd = pos 0; addr = none }) ∷ []

waiting :
    (s : ReceiveFromOpState) × (run
        (ReceiveFrom.step einval 2 buff nowhere)
        idle
        (ReceiveFrom.start (ReceiveFrom.connect false))
      ≡ some s)
    × (s.reading ≡ true)
unfolding ReceiveFrom.step ReceiveFrom.start ReceiveFrom.connect
waiting = (_, refl, refl)

receive_from_endpoint_example : Delivered einval 2 buff nowhere waiting.0 (pos 5) sender
receive_from_endpoint_example =
    receive_from_endpoint einval 2 buff nowhere false idle waiting.0 (pos 5) sender
      (tt, (inl refl, tt)) einval_bad waiting.1 waiting.2

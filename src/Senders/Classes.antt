-- ===== src/Senders/Classes.antt =====
-- The sender classes of include/uvexec/algorithms: how each is connected, and the completion signatures it declares. A
-- class that adapts a sender gets what connecting that sender to a receiver makes, and that sender's signatures.
use uvexec.Base.{ℕ, Bool, List, [], ℤ}
use uvexec.Timer.Timeout.{TimerType}
use uvexec.Senders.Syntax.{
  Loop, Object, Adaptor, after_sender, upon_signal_sender, connect_sender, shutdown_sender,
  close_sender, accept_sender, read_some_sender, receive_sender, receive_from_sender,
  read_until_sender, write_sender, send_sender, send_to_sender, Sender, Fn, Receiver,
  connect_receiver, shutdown_receiver, close_receiver, write_receiver, send_receiver,
  send_to_receiver, of_op_state, Operation, schedule_op_state, after_schedule_op_state,
  upon_signal_schedule_op_state, after_op_state, upon_signal_op_state, accept_op_state,
  read_some_op_state, receive_op_state, receive_from_op_state, read_until_op_state,
  connect_to_op_state, bind_to_op_state, async_value_op_state, accept_from_op_state,
}
use uvexec.Senders.Signatures.{
  Signature, void_value, length_value, algorithm, exception, cancellable_algorithm, schedule,
  schedule_eventually, MakeSignatures,
}

pub record SenderClass : Type 0 where
  pub connect : (Receiver → Operation) → Receiver → Operation
  pub completion_signatures : List Signature → List Signature

-- A class that holds no sender.
pub record ScheduleClass : Type 0 where
  pub connect : Receiver → Operation
  pub completion_signatures : List Signature

unfoldable pub schedule_class : Loop → ScheduleClass
schedule_class loop = record {
  connect = λ rec. schedule_op_state loop rec;
  completion_signatures = schedule;
}

unfoldable pub after_schedule_class : TimerType → Loop → ℕ → ScheduleClass
after_schedule_class type loop timeout = record {
  connect = λ rec. after_schedule_op_state loop type timeout rec;
  completion_signatures = schedule_eventually;
}

unfoldable pub upon_signal_schedule_class : Loop → ℤ → ScheduleClass
upon_signal_schedule_class loop signum = record {
  connect = λ rec. upon_signal_schedule_op_state loop signum rec;
  completion_signatures = schedule_eventually;
}

module _ (std : MakeSignatures) where
  unfoldable pub after_class : TimerType → Loop → ℕ → SenderClass
  after_class type loop timeout = record {
    connect = λ held rec. after_op_state loop type timeout (held (of_op_state rec));
    completion_signatures = λ input. std.make input cancellable_algorithm void_value;
  }

  unfoldable pub upon_signal_class : Loop → ℤ → SenderClass
  upon_signal_class loop signum = record {
    connect = λ held rec. upon_signal_op_state loop signum (held (of_op_state rec));
    completion_signatures = λ input. std.make input cancellable_algorithm void_value;
  }

  unfoldable pub connect_class : Object → SenderClass
  connect_class socket = record {
    connect = λ held rec. held (connect_receiver socket rec);
    completion_signatures = λ input. std.make input algorithm void_value;
  }

  -- The primary template. The connect of the specialisation for stdexec::just() does not compile; Compiles says where.
  unfoldable pub shutdown_class : Object → SenderClass
  shutdown_class socket = record {
    connect = λ held rec. held (shutdown_receiver socket rec);
    completion_signatures = λ input. std.make input algorithm void_value;
  }

  unfoldable pub close_class : Object → SenderClass
  close_class handle = record {
    connect = λ held rec. held (close_receiver handle rec);
    completion_signatures = λ input. std.make input [] void_value;
  }

  unfoldable pub accept_class : Object → Object → SenderClass
  accept_class listener socket = record {
    connect = λ held rec. accept_op_state listener socket (held (of_op_state rec));
    completion_signatures = λ input. std.make input cancellable_algorithm void_value;
  }

  unfoldable pub read_some_class : Object → SenderClass
  read_some_class socket = record {
    connect = λ held rec. read_some_op_state socket (held (of_op_state rec));
    completion_signatures = λ input. std.make input cancellable_algorithm length_value;
  }

  unfoldable pub receive_class : Object → SenderClass
  receive_class socket = record {
    connect = λ held rec. receive_op_state socket (held (of_op_state rec));
    completion_signatures = λ input. std.make input cancellable_algorithm length_value;
  }

  unfoldable pub receive_from_class : Object → SenderClass
  receive_from_class socket = record {
    connect = λ held rec. receive_from_op_state socket (held (of_op_state rec));
    completion_signatures = λ input. std.make input cancellable_algorithm length_value;
  }

  unfoldable pub read_until_class : Object → (ℕ → Bool) → SenderClass
  read_until_class socket condition = record {
    connect = λ held rec. read_until_op_state socket condition (held (of_op_state rec));
    completion_signatures = λ input. std.make input cancellable_algorithm length_value;
  }

  unfoldable pub write_class : Object → SenderClass
  write_class socket = record {
    connect = λ held rec. held (write_receiver socket rec);
    completion_signatures = λ input. std.make input algorithm void_value;
  }

  unfoldable pub send_class : Object → SenderClass
  send_class socket = record {
    connect = λ held rec. held (send_receiver socket rec);
    completion_signatures = λ input. std.make input algorithm void_value;
  }

  unfoldable pub send_to_class : Object → SenderClass
  send_to_class socket = record {
    connect = λ held rec. held (send_to_receiver socket rec);
    completion_signatures = λ input. std.make input algorithm void_value;
  }

  -- connect_to and accept_from keep their sender until they are started.
  unfoldable pub connect_to_class : Sender → Fn → SenderClass
  connect_to_class sender fn = record {
    connect = λ held rec. connect_to_op_state sender fn rec;
    completion_signatures = λ input. std.make input exception fn.signatures;
  }

  unfoldable pub bind_to_class : Fn → SenderClass
  bind_to_class fn = record {
    connect = λ held rec. bind_to_op_state (held (of_op_state rec)) fn;
    completion_signatures = λ input. std.make input exception fn.signatures;
  }

  unfoldable pub async_value_class : Fn → SenderClass
  async_value_class fn = record {
    connect = λ held rec. async_value_op_state (held (of_op_state rec)) fn;
    completion_signatures = λ input. std.make input exception fn.signatures;
  }

  -- The input is what accept declares over the sender.
  unfoldable pub accept_from_class : Sender → Object → Fn → SenderClass
  accept_from_class sender listener fn = record {
    connect = λ held rec. accept_from_op_state sender listener fn rec;
    completion_signatures = λ input. std.make input exception fn.signatures;
  }

  unfoldable pub class_of : Adaptor → SenderClass
  unfolding after_class upon_signal_class connect_class shutdown_class close_class accept_class
      read_some_class receive_class receive_from_class read_until_class write_class send_class
      send_to_class
  class_of (after_sender type loop timeout) = after_class type loop timeout
  class_of (upon_signal_sender loop signum) = upon_signal_class loop signum
  class_of (connect_sender socket) = connect_class socket
  class_of (shutdown_sender socket) = shutdown_class socket
  class_of (close_sender handle) = close_class handle
  class_of (accept_sender listener socket) = accept_class listener socket
  class_of (read_some_sender socket) = read_some_class socket
  class_of (receive_sender socket) = receive_class socket
  class_of (receive_from_sender socket) = receive_from_class socket
  class_of (read_until_sender socket condition) = read_until_class socket condition
  class_of (write_sender socket) = write_class socket
  class_of (send_sender socket) = send_class socket
  class_of (send_to_sender socket) = send_to_class socket

-- ===== src/Senders/Syntax.antt =====
-- The senders of the repository as expressions, and the operations that connecting them makes.
use uvexec.Base.{ℕ, Bool, Option, List, ℤ}
use uvexec.Timer.Timeout.{TimerType}
use uvexec.Senders.Signatures.{Signature}

-- TLoop&
abbrev pub Loop : Type 0
Loop = ℕ

-- References to the sockets of a program, by number: its own, and the field Socket of each listener.
pub data TcpSocket : Type 0 where
  own of_listener : ℕ → TcpSocket

pub data Object : Type 0 where
  tcp_socket : TcpSocket → Object
  tcp_listener udp_socket : ℕ → Object

-- TSenderPackage's tag and data, for each customisation point of interface/uvexec.hpp. Times are in
-- milliseconds, the one of `at` since the clock's epoch.
pub data Algorithm : Type 0 where
  after_t at_t upon_signal_t : ℤ → Algorithm
  connect_t shutdown_t close_t : Object → Algorithm
  accept_t : (listener socket : Object) → Algorithm
  receive_t read_some_t receive_from_t send_t write_some_t send_to_t : Object → Algorithm
  read_until_t : Object → (condition : ℕ → Bool) → Algorithm

-- The sender classes that adapt one sender, with their other fields.
pub data Adaptor : Type 0 where
  after_sender : TimerType → Loop → (timeout : ℕ) → Adaptor
  upon_signal_sender : Loop → (signum : ℤ) → Adaptor
  connect_sender shutdown_sender close_sender : Object → Adaptor
  accept_sender : (listener socket : Object) → Adaptor
  read_some_sender receive_sender receive_from_sender : Object → Adaptor
  read_until_sender : Object → (condition : ℕ → Bool) → Adaptor
  write_sender send_sender send_to_sender : Object → Adaptor

-- A function that makes a sender, by number, with that sender's completion signatures.
pub record Fn : Type 0 where
  pub number : ℕ
  pub signatures : List Signature

pub data Sender : Type 0 where
  -- stdexec::just, with its values by number
  just : List ℕ → Sender
  -- a sender that is not of the repository: where it completes, and its signatures
  foreign : (number : ℕ) (scheduler : Option Loop) (signatures : List Signature) → Sender
  schedule_sender : Loop → Sender
  after_schedule_sender : TimerType → Loop → (timeout : ℕ) → Sender
  upon_signal_schedule_sender : Loop → (signum : ℤ) → Sender
  sender_package : Algorithm → Sender → Sender
  adapt : Adaptor → Sender → Sender
  connect_to_sender bind_to_sender async_value_sender : Sender → Fn → Sender
  accept_from_sender : Sender → (listener : Object) → Fn → Sender

-- Receivers: the one that the program connects, those of the one-request algorithms, and the one by which
-- an operation state takes the completion of the sender it holds.
pub data Receiver : Type 0 where
  downstream : Receiver
  connect_receiver shutdown_receiver close_receiver : Object → Receiver → Receiver
  write_receiver send_receiver send_to_receiver : Object → Receiver → Receiver
  of_op_state : Receiver → Receiver

-- Operation states, those that hold another one with it.
pub data Operation : Type 0 where
  -- of a sender of stdexec, or of another library
  just_op_state : List ℕ → Receiver → Operation
  foreign_op_state : ℕ → Receiver → Operation
  schedule_op_state : Loop → Receiver → Operation
  after_schedule_op_state : Loop → TimerType → (timeout : ℕ) → Receiver → Operation
  upon_signal_schedule_op_state : Loop → (signum : ℤ) → Receiver → Operation
  after_op_state : Loop → TimerType → (timeout : ℕ) → Operation → Operation
  upon_signal_op_state : Loop → (signum : ℤ) → Operation → Operation
  accept_op_state : (listener socket : Object) → Operation → Operation
  read_some_op_state receive_op_state receive_from_op_state : Object → Operation → Operation
  read_until_op_state : Object → (condition : ℕ → Bool) → Operation → Operation
  connect_to_op_state : Sender → Fn → Receiver → Operation
  bind_to_op_state async_value_op_state : Operation → Fn → Operation
  accept_from_op_state : Sender → (listener : Object) → Fn → Receiver → Operation
  fatal_op_state : Operation

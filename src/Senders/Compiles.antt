-- ===== src/Senders/Compiles.antt =====
-- Where the connect of a sender compiles: shutdown.hpp has one that does not.
use uvexec.Base.{Bool, true, false, ◌&&◌, Option, none, some, []}
use uvexec.Senders.Syntax.{
  Adaptor, shutdown_sender, Sender, just, sender_package, adapt, connect_to_sender, bind_to_sender,
  async_value_sender, accept_from_sender,
}
use uvexec.Senders.Connect.{Env, late_adaptor}

-- TShutdownSender has a connect of its own over TJustSender<>, which names a member `Stream` that the class does not have.
unfoldable pub shutdown_connects : Sender → Bool
shutdown_connects (just []) = false
shutdown_connects _ = true

-- An adaptor, and the sender that it holds.
unfoldable pub adaptor_connects : Adaptor → Sender → Bool
unfolding shutdown_connects
adaptor_connects (shutdown_sender socket) sender = shutdown_connects sender
adaptor_connects _ sender = true

abbrev pub late_connects : Option Adaptor → Sender → Bool
late_connects (some adaptor) sender = adaptor_connects adaptor sender
late_connects none sender = true

-- The senders that a sender holds are connected with it.
unfoldable pub connects : Env → Sender → Bool
connects env (sender_package a sender) =
    late_connects (late_adaptor env a sender) sender && connects env sender
connects env (adapt adaptor sender) = adaptor_connects adaptor sender && connects env sender
connects env (connect_to_sender sender fn) = connects env sender
connects env (bind_to_sender sender fn) = connects env sender
connects env (async_value_sender sender fn) = connects env sender
connects env (accept_from_sender sender listener fn) = connects env sender
connects env _ = true

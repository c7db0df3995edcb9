-- ===== src/Senders/Points.antt =====
-- include/uvexec/interface/uvexec.hpp, domain.hpp and closure.hpp: the customisation points, the packages they
-- make, and the closures that wait for a sender.
use uvexec.Base.{Option, none, some, ℤ}
use uvexec.Senders.Syntax.{
  Loop, Algorithm, Adaptor, Sender, just, foreign, schedule_sender, after_schedule_sender,
  upon_signal_schedule_sender, sender_package, adapt, connect_to_sender, bind_to_sender,
  async_value_sender, accept_from_sender,
}
use uvexec.Timer.Timeout.{TimerType, clamp}
use uvexec.Senders.Dispatch.{customised}

-- The environment of a sender, by the scheduler on which it completes with a value: each adapting sender's
-- get_env is the one of the sender it holds.
unfoldable pub scheduler_of : Sender → Option Loop
scheduler_of (just values) = none
scheduler_of (foreign number scheduler signatures) = scheduler
scheduler_of (schedule_sender loop) = some loop
scheduler_of (after_schedule_sender type loop timeout) = some loop
scheduler_of (upon_signal_schedule_sender loop signum) = some loop
scheduler_of (sender_package a sender) = scheduler_of sender
scheduler_of (adapt a sender) = scheduler_of sender
scheduler_of (connect_to_sender sender fn) = scheduler_of sender
scheduler_of (bind_to_sender sender fn) = scheduler_of sender
scheduler_of (async_value_sender sender fn) = scheduler_of sender
scheduler_of (accept_from_sender sender listener fn) = scheduler_of sender

-- The schedulers' own senders; a scheduler is its loop.
unfoldable pub schedule : Loop → Sender
schedule loop = schedule_sender loop

unfoldable pub schedule_after : Loop → ℤ → Sender
unfolding clamp
schedule_after loop timeout = after_schedule_sender TimerType.after loop (clamp timeout)

unfoldable pub schedule_at : Loop → ℤ → Sender
unfolding clamp
schedule_at loop timeout = after_schedule_sender TimerType.at loop (clamp timeout)

unfoldable pub schedule_upon_signal : Loop → ℤ → Sender
schedule_upon_signal loop signum = upon_signal_schedule_sender loop signum

-- stdexec::default_domain, and TLoop::TDomain. Schedulers other than TLoop's are not modelled.
pub data Domain : Type 0 where
  default_domain loop_domain : Domain

abbrev pub domain_of : Option Loop → Domain
domain_of (some loop) = loop_domain
domain_of none = default_domain

unfoldable pub get_early_domain : Sender → Domain
unfolding scheduler_of
get_early_domain sender = domain_of (scheduler_of sender)

-- stdexec::transform_sender of a package: by the domain, where it has an overload that fits, and else by the default
-- domain, which leaves a sender as it is whose tag has no transformation of its own.
unfoldable pub domain_adaptor : Domain → Algorithm → (scheduler : Option Loop) → Option Adaptor
unfolding customised
domain_adaptor default_domain a scheduler = none
domain_adaptor loop_domain a scheduler = customised a scheduler

abbrev pub transformed : Option Adaptor → Algorithm → Sender → Sender
transformed (some adaptor) a sender = adapt adaptor sender
transformed none a sender = sender_package a sender

-- The sender overload of a customisation point: MakeSenderPackage, transformed by the early domain.
unfoldable pub apply : Algorithm → Sender → Sender
unfolding get_early_domain domain_adaptor scheduler_of
apply a sender =
    transformed (domain_adaptor (get_early_domain sender) a (scheduler_of sender)) a sender

-- ===== src/Senders.antt =====
-- Senders and customisation points: include/uvexec/interface, and the sender classes of include/uvexec/algorithms.
-- A chain of algorithms is an expression, which the domain of the event loop transforms when the chain is written
-- or when it is connected.
pub mod Signatures
pub mod Syntax
pub mod Dispatch
pub mod Points
pub mod OnSender
pub mod OnValues
pub mod Closures
pub mod Classes
pub mod Required
pub mod Connect
pub mod Compiles
pub mod Laws
pub mod Fatal
pub mod Declared
pub mod Pipes
pub mod Completions
mod Tests

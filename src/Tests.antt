-- ===== src/Tests.antt =====
-- The theorems at concrete states.
pub mod Setup
pub mod Program
pub mod Rounds
pub mod Scheduler
pub mod Timers
pub mod Calls
pub mod Sockets
pub mod Contexts
pub mod Creation
pub mod Ends
pub mod Begin
pub mod Trees
pub mod Turns
pub mod Waits
pub mod I386

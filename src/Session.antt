-- ===== src/Session.antt =====
-- runtime/src/Session.h and Session.cpp: the life of a session. The events that a session pushes to
-- its instance are the list `events` of the states they announce, the last one at the end. What the
-- streaming server and the input manager do is an argument where it decides a branch: whether the
-- server starts, and whether a client is connected. Every operation is one step, so that the second
-- look at the state in `WaitFrame` sees the same state as the first. Times are readings of one
-- clock, from `startTime_` on.
mod State
mod FrameLoop
mod Objects
pub mod Events
pub mod Invariant
pub mod Operations
pub mod Lifecycle
pub mod Leaving
pub mod Exit
pub mod Textures
pub mod Labels
unfoldable pub use State.*
unfoldable pub use FrameLoop.*
unfoldable pub use Objects.*

-- ===== src/Actions.antt =====
-- runtime/src/ActionSet.h, ActionSet.cpp and the part of runtime/src/EntryPoint.cpp on actions:
-- Strings holds the checks of names and paths, State the objects with their creation and
-- destruction, Bindings what an application suggests and attaches, Aggregation what the bindings
-- read from the devices, Sync and Query the state of actions. Names is what the names promise,
-- Attached the life of attached sets, Memory what the pointers between objects need.
pub mod Strings
pub mod State
pub mod Bindings
pub mod Aggregation
pub mod Sync
pub mod Query
pub mod Calls
pub mod Memory
pub mod Names
pub mod Attached

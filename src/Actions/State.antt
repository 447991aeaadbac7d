-- ===== src/Actions/State.antt =====
-- runtime/src/ActionSet.h and EntryPoint.cpp: action sets and actions, how they are created and
-- destroyed. The pointer of an action to its set is the handle of the set, as no handle is given
-- twice; to follow it after the set was destroyed is a use after free, `none`. A handle that an
-- application passes is one of the kind that the call asks for, or of nothing that lives. The calls
-- whose pointers may be null take that none is (`given`), and that the `type` of the struct is
-- right (`typed`).
mod Data
mod Objects
unfoldable pub use Data.*
unfoldable pub use Objects.*

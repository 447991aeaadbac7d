-- ===== src/Session/Invariant.antt =====
-- Session.cpp: what holds of a session between any two calls.
use open_xr_osx.Base.{ℕ, ◌≡◌, refl, sym, Bool, true, false, not, List, arith, subst, if-elim}
use open_xr_osx.Xr.{SessionState, idle, ready, synchronized, visible, focused, stopping, exiting}
use open_xr_osx.Session.{
  Session, transition_state, create, advance_exiting, advance_starting, advance_session_state,
}
use open_xr_osx.Session.Events.{
  Edge, becomes_ready, begins, appears, gets_focus, loses_focus, disappears, stops, Trace, start,
  next,
}

-- The states of a session between `BeginSession` and `EndSession`.
abbrev pub is_live : SessionState → Bool
is_live idle = false
is_live ready = true
is_live synchronized = true
is_live visible = true
is_live focused = true
is_live stopping = true
is_live exiting = false

-- The states before and after.
abbrev pub is_still : SessionState → Bool
is_still ready = true
is_still exiting = true
is_still st = false

pub record Core (state : SessionState) (running exit_requested frame_begun : Bool) (waited : ℕ)
    (server started tracking : Bool) (events : List SessionState) : Type 0 where
  pub trace : Trace events state
  pub live : running ≡ true → is_live state ≡ true
  pub still : running ≡ false → is_still state ≡ true
  pub no_exit : running ≡ false → exit_requested ≡ false
  pub no_frame : running ≡ false → frame_begun ≡ false
  pub no_wait : running ≡ false → waited ≡ 0
  pub no_server : running ≡ false → server ≡ false
  pub same_start : started ≡ server
  pub tracked : tracking ≡ true → server ≡ true

abbrev pub Inv : Session → Type 0
Inv s =
    Core s.state s.running s.exit_requested s.frame_begun s.waited_frame_count s.streaming_server
      s.streaming_started s.tracking s.events

pub create-Inv : Inv create
unfolding create transition_state
create-Inv = record {
  trace = next start becomes_ready;
  live = λ e. refl;
  still = λ e. refl;
  no_exit = λ e. refl;
  no_frame = λ e. refl;
  no_wait = λ e. refl;
  no_server = λ e. refl;
  same_start = refl;
  tracked = λ e. ground (arith, e);
}

-- A running session in a state that goes on.
module _ (s : Session) (h : Inv s) where
  transition_live :
      (st : SessionState)
      → s.running ≡ true
      → Edge s.state st
      → is_live st ≡ true
      → Inv (transition_state st s)
  unfolding transition_state
  transition_live st r edge live = record {
    trace = next h.trace edge;
    live = λ e. live;
    still = λ e. ground (arith, e, r);
    no_exit = h.no_exit;
    no_frame = h.no_frame;
    no_wait = h.no_wait;
    no_server = h.no_server;
    same_start = h.same_start;
    tracked = h.tracked;
  }

  advance_exiting-Inv :
      (st : SessionState) → s.state ≡ st → s.running ≡ true → Inv (advance_exiting st s)
  unfolding advance_exiting
  advance_exiting-Inv idle e r = h
  advance_exiting-Inv ready e r =
      transition_live synchronized r (subst (λ a. Edge a synchronized) (sym e) begins) refl
  advance_exiting-Inv synchronized e r =
      transition_live stopping r (subst (λ a. Edge a stopping) (sym e) stops) refl
  advance_exiting-Inv visible e r =
      transition_live synchronized r (subst (λ a. Edge a synchronized) (sym e) disappears) refl
  advance_exiting-Inv focused e r =
      transition_live visible r (subst (λ a. Edge a visible) (sym e) loses_focus) refl
  advance_exiting-Inv stopping e r = h
  advance_exiting-Inv exiting e r = h

  advance_starting-Inv :
      (st : SessionState) → s.state ≡ st → s.running ≡ true → Inv (advance_starting st s)
  unfolding advance_starting
  advance_starting-Inv idle e r = h
  advance_starting-Inv ready e r =
      transition_live synchronized r (subst (λ a. Edge a synchronized) (sym e) begins) refl
  advance_starting-Inv synchronized e r =
      transition_live visible r (subst (λ a. Edge a visible) (sym e) appears) refl
  advance_starting-Inv visible e r =
      transition_live focused r (subst (λ a. Edge a focused) (sym e) gets_focus) refl
  advance_starting-Inv focused e r = h
  advance_starting-Inv stopping e r = h
  advance_starting-Inv exiting e r = h

  pub advance_session_state-Inv : Inv (advance_session_state s)
  unfolding advance_session_state
  advance_session_state-Inv =
      if-elim Inv (not s.running) (λ r. h)
        (λ r.
          if-elim Inv s.exit_requested (λ x. advance_exiting-Inv s.state refl (ground (arith, r)))
            (λ x. advance_starting-Inv s.state refl (ground (arith, r))))

-- ===== src/Session/Leaving.antt =====
-- Session.cpp: the frame loop of a session that is asked to exit.
use open_xr_osx.Base.{
  ℕ, ◌+◌, ◌-◌, ◌^◌, ◌<◌, ◌≡◌, refl, sym, ap, Bool, true, false, not, ◌&&◌, Option, none, some, List,
  [], ◌∷◌, arith, if-elim, ◌==◌, pos, subst,
}
use open_xr_osx.Xr.{
  Result, is_success, SessionState, idle, ready, synchronized, visible, focused, stopping, exiting,
  StructureType, frame_state, frame_end_info,
}
use open_xr_osx.Layers.{TextureOp, validate_layers}
use open_xr_osx.Session.{
  Session, transition_state, is_stopping, is_frame_loop_running, FrameState, FrameEndInfo,
  wait_frame, begin_frame, check_end_info, check_streaming_connection, advance_exiting,
  advance_session_state, submit_frame, end_frame_layers, end_frame_given, end_frame_info, end_frame,
}
use open_xr_osx.Session.Events.{Call, wait_frame_call, begin_frame_call, end_frame_call}

-- A frame without layers.
abbrev pub empty_frame : FrameEndInfo
empty_frame = record {
  structure_type = frame_end_info;
  display_time = pos 1;
  opaque_blend_mode = true;
  layer_count = 0;
  layers = none;
}

-- A session that is asked to exit.
pub record Leaving (st : SessionState) (w : ℕ) (s : Session) : Type 0 where
  pub running : s.running ≡ true
  pub exit_requested : s.exit_requested ≡ true
  pub state : s.state ≡ st
  pub waited : s.waited_frame_count ≡ w

-- The state after one more frame.
unfoldable pub exit_next : SessionState → SessionState
exit_next focused = visible
exit_next visible = synchronized
exit_next ready = synchronized
exit_next synchronized = stopping
exit_next st = st

module _ (refresh_hz now woken max_layers : ℕ) (has_slice : ℕ → ℕ → Bool) (connected : Bool) where
  abbrev pub frame_calls : List Call
  frame_calls =
      wait_frame_call none (some frame_state) refresh_hz now woken
      ∷ begin_frame_call none
      ∷ end_frame_call max_layers has_slice connected (some empty_frame)
      ∷ []

module _ {st : SessionState} {w : ℕ} (s : Session) (h : Leaving st w s)
    (goes_on : is_stopping st ≡ false) where
  loop_runs : is_frame_loop_running s ≡ true
  loop_runs = ground (arith, h.running, ap is_stopping h.state, goes_on)

  pub wait_frame-Leaving :
      (refresh_hz now woken : ℕ)
      → w + 1 < 2 ^ 32
      → Leaving st (w + 1) (wait_frame none (some frame_state) refresh_hz now woken s).0
  unfolding wait_frame
  wait_frame-Leaving refresh_hz now woken small =
      if-elim (λ (r : Session × Result × Option FrameState). Leaving st (w + 1) r.0)
        (not (is_frame_loop_running s)) (λ e. absurd (ground (arith, e, loop_runs)))
        (λ e. record {
          running = h.running;
          exit_requested = h.exit_requested;
          state = h.state;
          waited = omega (arith, h.waited);
        })

module _ {st : SessionState} {w : ℕ} (s : Session) (h : Leaving st (w + 1) s)
    (goes_on : is_stopping st ≡ false) where
  pub begin_frame-Leaving :
      (Leaving st w (begin_frame none s).0) × ((begin_frame none s).0.frame_begun ≡ true)
  unfolding begin_frame
  begin_frame-Leaving =
      if-elim (λ (r : Session × Result). (Leaving st w r.0) × (r.0.frame_begun ≡ true))
        (not (is_frame_loop_running s)) (λ e. absurd (ground (arith, e, loop_runs s h goes_on)))
        (λ e.
          if-elim (λ (r : Session × Result). (Leaving st w r.0) × (r.0.frame_begun ≡ true))
            (s.waited_frame_count == 0) (λ z. absurd (ground (arith, z, h.waited)))
            (λ z.
              if-elim (λ (r : Session × Result). (Leaving st w r.0) × (r.0.frame_begun ≡ true))
                s.frame_begun (λ b. (counted, b))
                (λ b. (
                  record {
                    running = h.running;
                    exit_requested = h.exit_requested;
                    state = h.state;
                    waited = omega (arith, h.waited);
                  },
                  refl,
                ))))
    where
      counted : Leaving st w (record s { waited_frame_count = s.waited_frame_count - 1 })
      counted = record {
        running = h.running;
        exit_requested = h.exit_requested;
        state = h.state;
        waited = omega (arith, h.waited);
      }

module _ {st : SessionState} {w : ℕ} (s : Session) (h : Leaving st w s) where
  check_streaming_connection-Leaving :
      (connected : Bool) → Leaving st w (check_streaming_connection connected s)
  unfolding check_streaming_connection
  check_streaming_connection-Leaving connected =
      if-elim (Leaving st w) (not s.streaming_server) (λ n. h)
        (λ y.
          if-elim (Leaving st w) (connected && not s.tracking) (λ e. same true)
            (λ e. if-elim (Leaving st w) (not connected && s.tracking) (λ e. same false) (λ e. h)))
    where
      same : (tracking : Bool) → Leaving st w (record s { tracking = tracking })
      same tracking = record {
        running = h.running;
        exit_requested = h.exit_requested;
        state = h.state;
        waited = h.waited;
      }

  to_state : (st' : SessionState) → Leaving st' w (transition_state st' s)
  unfolding transition_state
  to_state st' = record {
    running = h.running;
    exit_requested = h.exit_requested;
    state = refl;
    waited = h.waited;
  }

  advance_exiting-Leaving :
      (st' : SessionState) → st' ≡ st → Leaving (exit_next st) w (advance_exiting st' s)
  unfolding advance_exiting exit_next
  advance_exiting-Leaving idle e =
      subst (λ x. Leaving (exit_next x) w s) e (subst (λ x. Leaving x w s) (sym e) h)
  advance_exiting-Leaving ready e =
      subst (λ x. Leaving (exit_next x) w (transition_state synchronized s)) e
        (to_state synchronized)
  advance_exiting-Leaving synchronized e =
      subst (λ x. Leaving (exit_next x) w (transition_state stopping s)) e (to_state stopping)
  advance_exiting-Leaving visible e =
      subst (λ x. Leaving (exit_next x) w (transition_state synchronized s)) e
        (to_state synchronized)
  advance_exiting-Leaving focused e =
      subst (λ x. Leaving (exit_next x) w (transition_state visible s)) e (to_state visible)
  advance_exiting-Leaving stopping e =
      subst (λ x. Leaving (exit_next x) w s) e (subst (λ x. Leaving x w s) (sym e) h)
  advance_exiting-Leaving exiting e =
      subst (λ x. Leaving (exit_next x) w s) e (subst (λ x. Leaving x w s) (sym e) h)

  advance_session_state-Leaving : Leaving (exit_next st) w (advance_session_state s)
  unfolding advance_session_state
  advance_session_state-Leaving =
      if-elim (Leaving (exit_next st) w) (not s.running)
        (λ e. absurd (ground (arith, e, h.running)))
        (λ e.
          if-elim (Leaving (exit_next st) w) s.exit_requested
            (λ x. advance_exiting-Leaving s.state h.state)
            (λ x. absurd (ground (arith, x, h.exit_requested))))

module _ {st : SessionState} {w : ℕ} (s : Session) (h : Leaving st w s) where
  frame_over : Leaving st w (record s { frame_begun = false })
  frame_over = record {
    running = h.running;
    exit_requested = h.exit_requested;
    state = h.state;
    waited = h.waited;
  }

module _ {st : SessionState} {w : ℕ} (s : Session) (h : Leaving st w s)
    (goes_on : is_stopping st ≡ false) (begun : s.frame_begun ≡ true) where
  pub end_frame-Leaving :
      (max_layers : ℕ) (has_slice : ℕ → ℕ → Bool) (connected : Bool)
      → Leaving (exit_next st) w (end_frame max_layers has_slice connected (some empty_frame) s).0
  unfolding end_frame end_frame_info check_end_info end_frame_given end_frame_layers submit_frame
      validate_layers
  end_frame-Leaving max_layers has_slice connected =
      if-elim After (not (is_frame_loop_running s))
        (λ e. absurd (ground (arith, e, loop_runs s h goes_on)))
        (λ e.
          if-elim After (not s.frame_begun) (λ b. absurd (ground (arith, b, begun)))
            (λ b.
              if-elim After (not (is_success (check_end_info max_layers empty_frame)))
                (λ e. absurd (ground (arith, e)))
                (λ e.
                  advance_session_state-Leaving
                    (record (check_streaming_connection connected s) { frame_begun = false })
                    (frame_over (check_streaming_connection connected s)
                      (check_streaming_connection-Leaving s h connected)))))
    where
      After : Session × Result × List TextureOp → Type 0
      After r = Leaving (exit_next st) w r.0

-- Outside the frame loop no call changes anything.
module _ (s : Session) (h : is_frame_loop_running s ≡ false) where
  pub wait_frame_idle :
      (info out : Option StructureType) (refresh_hz now woken : ℕ)
      → (wait_frame info out refresh_hz now woken s).0 ≡ s
  unfolding wait_frame
  wait_frame_idle info out refresh_hz now woken = ground (arith, h)

  pub begin_frame_idle : (info : Option StructureType) → (begin_frame info s).0 ≡ s
  unfolding begin_frame
  begin_frame_idle info = ground (arith, h)

  pub end_frame_idle :
      (max_layers : ℕ) (has_slice : ℕ → ℕ → Bool) (connected : Bool) (info : Option FrameEndInfo)
      → (end_frame max_layers has_slice connected info s).0 ≡ s
  unfolding end_frame
  end_frame_idle max_layers has_slice connected info = ground (arith, h)

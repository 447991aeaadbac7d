-- ===== src/Session/Operations.antt =====
-- Session.cpp: what each operation that does not only advance the state keeps of a session.
use open_xr_osx.Session.Invariant.{Core, Inv, is_live}
use open_xr_osx.Base.{
  ℕ, ◌≡◌, refl, sym, ◌∙◌, Bool, true, false, not, ◌&&◌, Option, none, some, arith, subst, if-elim,
  ◌==◌,
}
use open_xr_osx.Xr.{
  Result, SessionState, idle, ready, synchronized, visible, focused, stopping, exiting,
  StructureType,
}
use open_xr_osx.Session.{
  Session, transition_state, is_ready, is_stopping, start_streaming_if_needed, begin_running,
  begin_session, stop_streaming, end_session, request_exit_session, wait_frame, begin_frame,
  is_frame_loop_running, is_frame_wait_info, is_frame_state, is_frame_begin_info, wrong_if_given,
  wrong_or_null, FrameState, check_streaming_connection,
}
use open_xr_osx.Session.Events.{ends, exits, Trace, next}

ready_live : (st : SessionState) → not (is_ready st) ≡ false → is_live st ≡ true
ready_live idle e = ground (arith, e)
ready_live ready e = refl
ready_live synchronized e = refl
ready_live visible e = refl
ready_live focused e = refl
ready_live stopping e = refl
ready_live exiting e = ground (arith, e)

stopping_only : (st : SessionState) → not (is_stopping st) ≡ false → st ≡ stopping
stopping_only idle e = absurd (ground (arith, e))
stopping_only ready e = absurd (ground (arith, e))
stopping_only synchronized e = absurd (ground (arith, e))
stopping_only visible e = absurd (ground (arith, e))
stopping_only focused e = absurd (ground (arith, e))
stopping_only stopping e = refl
stopping_only exiting e = absurd (ground (arith, e))

-- What a call with a result leaves.
abbrev AfterInv : Session × Result → Type 0
AfterInv r = Inv r.0

-- `EndSession` once the streaming has stopped.
ended-Inv :
    (s : Session)
    → Trace s.events stopping
    → s.running ≡ false
    → s.streaming_server ≡ false
    → s.streaming_started ≡ false
    → s.tracking ≡ false
    → Inv
        (record (transition_state exiting
          (transition_state idle (record s { frame_begun = false; waited_frame_count = 0 }))) {
            exit_requested = false;
          })
unfolding transition_state
ended-Inv s t r server started tracking = record {
  trace = next (next t ends) exits;
  live = λ e. ground (arith, e, r);
  still = λ e. refl;
  no_exit = λ e. refl;
  no_frame = λ e. refl;
  no_wait = λ e. refl;
  no_server = λ e. server;
  same_start = started ∙ sym server;
  tracked = λ e. ground (arith, e, tracking);
}

module _ (s : Session) (h : Inv s) where
  pub begin_session-Inv :
      (info : Option Bool) (start_result : Bool) → Inv (begin_session info start_result s).0
  unfolding begin_session begin_running start_streaming_if_needed
  begin_session-Inv none start_result = h
  begin_session-Inv (some supported) start_result =
      if-elim AfterInv s.running (λ r. h)
        (λ r.
          if-elim AfterInv (not (is_ready s.state)) (λ st. h)
            (λ st.
              if-elim AfterInv (not supported) (λ u. h)
                (λ u.
                  if-elim Inv s.streaming_started (λ yes. begun st h.same_start h.tracked)
                    (λ no.
                      if-elim Inv start_result (λ ok. begun st refl (λ e. refl))
                        (λ bad.
                          begun st no (λ e. ground (arith, no, h.same_start, h.tracked e)))))))
    where
      begun :
          {server started : Bool}
          → not (is_ready s.state) ≡ false
          → started ≡ server
          → (s.tracking ≡ true → server ≡ true)
          → Core s.state true false false 0 server started s.tracking s.events
      begun st same tracked = record {
        trace = h.trace;
        live = λ e. ready_live s.state st;
        still = λ e. ground (arith, e);
        no_exit = λ e. refl;
        no_frame = λ e. refl;
        no_wait = λ e. refl;
        no_server = λ e. ground (arith, e);
        same_start = same;
        tracked = tracked;
      }

  pub end_session-Inv : Inv (end_session s).0
  unfolding end_session stop_streaming
  end_session-Inv =
      if-elim AfterInv (not (is_stopping s.state)) (λ e. h)
        (λ e.
          ended-Inv (stop_streaming (record s { running = false }))
            (if-elim (λ (x : Session). Trace x.events stopping) s.streaming_server (λ y. trace e)
              (λ n. trace e))
            (if-elim (λ (x : Session). x.running ≡ false) s.streaming_server (λ y. refl)
              (λ n. refl))
            (if-elim (λ (x : Session). x.streaming_server ≡ false) s.streaming_server (λ y. refl)
              (λ n. n))
            (if-elim (λ (x : Session). x.streaming_started ≡ false) s.streaming_server (λ y. refl)
              (λ n. h.same_start ∙ n))
            (if-elim (λ (x : Session). x.tracking ≡ false) s.streaming_server (λ y. refl)
              (λ n. ground (arith, n, h.tracked))))
    where
      trace : not (is_stopping s.state) ≡ false → Trace s.events stopping
      trace e = subst (Trace s.events) (stopping_only s.state e) h.trace

  -- While the session runs, the frames may come and go.
  running_frame :
      (exit_requested begun : Bool) (waited : ℕ)
      → s.running ≡ true
      → Core s.state s.running exit_requested begun waited s.streaming_server s.streaming_started
          s.tracking s.events
  running_frame exit_requested begun waited r = record {
    trace = h.trace;
    live = h.live;
    still = h.still;
    no_exit = λ e. ground (arith, e, r);
    no_frame = λ e. ground (arith, e, r);
    no_wait = λ e. absurd (ground (arith, e, r));
    no_server = h.no_server;
    same_start = h.same_start;
    tracked = h.tracked;
  }

  pub request_exit_session-Inv : Inv (request_exit_session s).0
  unfolding request_exit_session
  request_exit_session-Inv =
      if-elim AfterInv (not s.running) (λ e. h)
        (λ e. running_frame true s.frame_begun s.waited_frame_count (ground (arith, e)))

  pub wait_frame-Inv :
      (info out : Option StructureType) (refresh_hz now woken : ℕ)
      → Inv (wait_frame info out refresh_hz now woken s).0
  unfolding wait_frame
  wait_frame-Inv info out refresh_hz now woken =
      if-elim After (wrong_if_given is_frame_wait_info info) (λ e. h)
        (λ e.
          if-elim After (wrong_or_null is_frame_state out) (λ e. h)
            (λ e.
              if-elim After (not (is_frame_loop_running s)) (λ e. h)
                (λ e. running_frame s.exit_requested s.frame_begun _ (ground (arith, e)))))
    where
      After : Session × Result × Option FrameState → Type 0
      After r = Inv r.0

  pub begin_frame-Inv : (info : Option StructureType) → Inv (begin_frame info s).0
  unfolding begin_frame
  begin_frame-Inv info =
      if-elim AfterInv (wrong_if_given is_frame_begin_info info) (λ e. h)
        (λ e.
          if-elim AfterInv (not (is_frame_loop_running s)) (λ e. h)
            (λ runs.
              if-elim AfterInv (s.waited_frame_count == 0) (λ e. h)
                (λ e.
                  if-elim AfterInv s.frame_begun
                    (λ e. running_frame s.exit_requested s.frame_begun _ (ground (arith, runs)))
                    (λ e. running_frame s.exit_requested true _ (ground (arith, runs))))))

  pub check_streaming_connection-Inv :
      (connected : Bool) → Inv (check_streaming_connection connected s)
  unfolding check_streaming_connection
  check_streaming_connection-Inv connected =
      if-elim Inv (not s.streaming_server) (λ n. h)
        (λ y.
          if-elim Inv (connected && not s.tracking) (λ e. tracks true (λ t. ground (arith, y)))
            (λ e.
              if-elim Inv (not connected && s.tracking) (λ e. tracks false (λ t. ground (arith, t)))
                (λ e. h)))
    where
      tracks :
          (tracking : Bool)
          → (tracking ≡ true → s.streaming_server ≡ true)
          → Core s.state s.running s.exit_requested s.frame_begun s.waited_frame_count
              s.streaming_server s.streaming_started tracking s.events
      tracks tracking tracked = record {
        trace = h.trace;
        live = h.live;
        still = h.still;
        no_exit = h.no_exit;
        no_frame = h.no_frame;
        no_wait = h.no_wait;
        no_server = h.no_server;
        same_start = h.same_start;
        tracked = tracked;
      }

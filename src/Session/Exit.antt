-- ===== src/Session/Exit.antt =====
-- Session.cpp: how a session ends after `RequestExitSession`.
use open_xr_osx.Base.{
  ℕ, ◌+◌, ◌^◌, ◌<◌, ◌≡◌, refl, sym, ap, ◌∙◌, Bool, true, false, not, none, some, [], ◌∷◌, ◌++◌,
  arith, if-elim, Bool-cases, inl, inr, subst,
}
use open_xr_osx.Xr.{
  Result, SessionState, idle, ready, synchronized, visible, focused, stopping, exiting, frame_state,
}
use open_xr_osx.Session.{
  Session, transition_state, is_stopping, end_session, request_exit_session, is_frame_loop_running,
  wait_frame, begin_frame, end_frame,
}
use open_xr_osx.Session.Events.{request_exit_call, end_session_call, step, run}
use open_xr_osx.Session.Invariant.{Inv, is_live}
use open_xr_osx.Session.Leaving.{
  empty_frame, Leaving, exit_next, frame_calls, wait_frame-Leaving, begin_frame-Leaving,
  end_frame-Leaving, wait_frame_idle, begin_frame_idle, end_frame_idle,
}

stopped_loop : {w : ℕ} (s : Session) → Leaving stopping w s → is_frame_loop_running s ≡ false
stopped_loop s h = ground (arith, ap is_stopping h.state)

stopping_eq : (st : SessionState) → is_stopping st ≡ true → st ≡ stopping
stopping_eq stopping e = refl
stopping_eq st e = absurd (ground (arith, e))

three : (st : SessionState) → is_live st ≡ true → exit_next (exit_next (exit_next st)) ≡ stopping
unfolding exit_next
three idle e = absurd (ground (arith, e))
three ready e = refl
three synchronized e = refl
three visible e = refl
three focused e = refl
three stopping e = refl
three exiting e = absurd (ground (arith, e))

asked :
    (s : Session)
    → s.running ≡ true
    → Leaving s.state s.waited_frame_count (request_exit_session s).0
unfolding request_exit_session
asked s running =
    if-elim (λ (r : Session × Result). Leaving s.state s.waited_frame_count r.0) (not s.running)
      (λ e. absurd (ground (arith, e, running)))
      (λ e. record { running = running; exit_requested = refl; state = refl; waited = refl })

module _ (refresh_hz now woken max_layers : ℕ) (has_slice : ℕ → ℕ → Bool) (connected : Bool) where
  abbrev the_frame : Session → Session
  the_frame s =
      (end_frame max_layers has_slice connected (some empty_frame)
        (begin_frame none (wait_frame none (some frame_state) refresh_hz now woken s).0).0).0

  -- A frame brings a session that is to exit one state further.
  frame-Leaving :
      (st : SessionState) (w : ℕ) (s : Session)
      → w + 1 < 2 ^ 32
      → Leaving st w s
      → Leaving (exit_next st) w (the_frame s)
  unfolding exit_next
  frame-Leaving st w s small h = elim (Bool-cases (is_stopping st)) [
    | inr goes_on ↦
        let waits = wait_frame-Leaving s h goes_on refresh_hz now woken small in
        let (begins, begun) = begin_frame-Leaving _ waits goes_on in
        end_frame-Leaving _ begins goes_on begun max_layers has_slice connected
    | inl stops ↦
        subst (λ st. Leaving (exit_next st) w (the_frame s)) (sym (stopping_eq st stops))
          (subst (Leaving stopping w) (sym (no_frame (stopped_loop s (at_stop stops))))
            (at_stop stops))
  ]
    where
      at_stop : is_stopping st ≡ true → Leaving stopping w s
      at_stop stops = subst (λ st. Leaving st w s) (stopping_eq st stops) h

      no_frame : is_frame_loop_running s ≡ false → the_frame s ≡ s
      no_frame idles =
          ap
            (λ s'.
              (end_frame max_layers has_slice connected (some empty_frame)
                (begin_frame none s').0).0)
            (wait_frame_idle s idles none (some frame_state) refresh_hz now woken)
          ∙ ap (λ s'. (end_frame max_layers has_slice connected (some empty_frame) s').0)
              (begin_frame_idle s idles none)
          ∙ end_frame_idle s idles max_layers has_slice connected (some empty_frame)

  three_frames :
      (st : SessionState) (w : ℕ) (s : Session)
      → w + 1 < 2 ^ 32
      → is_live st ≡ true
      → Leaving st w s
      → Leaving stopping w (the_frame (the_frame (the_frame s)))
  three_frames st w s small live h =
      subst (λ x. Leaving x w (the_frame (the_frame (the_frame s)))) (three st live)
        (frame-Leaving _ w _ small (frame-Leaving _ w _ small (frame-Leaving st w s small h)))

  end_session_stopped :
      {w : ℕ} (s : Session) → Leaving stopping w s → (end_session s).0.state ≡ exiting
  unfolding end_session transition_state
  end_session_stopped s h =
      if-elim (λ (r : Session × Result). r.0.state ≡ exiting) (not (is_stopping s.state))
        (λ e. absurd (ground (arith, e, ap is_stopping h.state))) (λ e. refl)

  -- A running session that is asked to exit and submits three more frames can end, whatever state it
  -- was in: `EndSession` then brings it to `exiting`. Less than 2^32 - 1 frames have been waited for
  -- and not begun.
  pub run_exit :
      (s : Session)
      → Inv s
      → s.running ≡ true
      → s.waited_frame_count + 1 < 2 ^ 32
      → (run
          (request_exit_call ∷ frame_calls refresh_hz now woken max_layers has_slice connected
            ++ frame_calls refresh_hz now woken max_layers has_slice connected
            ++ frame_calls refresh_hz now woken max_layers has_slice connected
            ++ end_session_call ∷ [])
          s).state
        ≡ exiting
  unfolding run step
  run_exit s h running small =
      end_session_stopped (the_frame (the_frame (the_frame (request_exit_session s).0))) (
        three_frames s.state s.waited_frame_count (request_exit_session s).0 small (h.live running)
          (asked s running))

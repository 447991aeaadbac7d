-- ===== src/Server/Bitrate.antt =====
-- StreamingServer.cpp, `HandleLatencyReport`: the bounds of the bitrate.
use open_xr_osx.Base.{
  ℕ, ◌^◌, ◌≤◌, ◌<◌, ◌≡◌, refl, Bool, ◌&&◌, List, [], ◌∷◌, arith, ltb, if◌then◌else◌, if-elim, min,
}
use open_xr_osx.Server.{
  Abr, min_bitrate_mbps, connect_abr, handle_keyframe_request, log_telemetry, should_decrease,
  can_increase, handle_latency_report,
}

-- What the client may send, and the log that resets a counter between.
pub data Message : Type 0 where
  latency_report : Bool → Bool → ℕ → Message
  keyframe_request : Message
  telemetry_logged : Message

unfoldable pub receive : List Message → Abr → Abr
receive [] s = s
receive (latency_report is_high is_good now ∷ ms) s =
    receive ms (handle_latency_report is_high is_good now s)
receive (keyframe_request ∷ ms) s = receive ms (handle_keyframe_request s)
receive (telemetry_logged ∷ ms) s = receive ms (log_telemetry s)

-- The bitrate is within what it started with and the minimum.
pub record Within (start : ℕ) (s : Abr) : Type 0 where
  pub top : s.config_max_bitrate_mbps ≡ start
  pub above : s.current_bitrate_mbps ≤ start
  pub below : min start min_bitrate_mbps ≤ s.current_bitrate_mbps

module _ (start : ℕ) (small : start < 2 ^ 28) where
  report-Within :
      (is_high is_good : Bool) (now : ℕ) (s : Abr)
      → Within start s
      → Within start (handle_latency_report is_high is_good now s)
  unfolding handle_latency_report
  report-Within is_high is_good now s h =
      if-elim (Within start)
        (should_decrease is_high s && ltb min_bitrate_mbps s.current_bitrate_mbps)
        (λ d. record {
          top = h.top;
          above = ground (arith, d, h.above);
          below = ground (arith, d, h.above);
        })
        (λ d.
          if-elim (Within start) (can_increase is_good now s)
            (λ i. record {
              top = h.top;
              above = omega (arith, h.top);
              below = omega (arith, h.top, h.above, h.below);
            })
            (λ i. record { top = h.top; above = h.above; below = h.below }))

  receive-Within : (ms : List Message) (s : Abr) → Within start s → Within start (receive ms s)
  unfolding receive handle_keyframe_request log_telemetry
  receive-Within [] s h = h
  receive-Within (latency_report is_high is_good now ∷ ms) s h =
      receive-Within ms (handle_latency_report is_high is_good now s)
        (report-Within is_high is_good now s h)
  receive-Within (keyframe_request ∷ ms) s h =
      receive-Within ms (handle_keyframe_request s)
        (record { top = h.top; above = h.above; below = h.below })
  receive-Within (telemetry_logged ∷ ms) s h =
      receive-Within ms (log_telemetry s) (record { top = h.top; above = h.above; below = h.below })

-- Whatever reports and keyframe requests a client sends, the bitrate is at most what was agreed when
-- it connected, and at least the smaller one of that and 10 Mbps.
pub receive-connect_abr :
    (ms : List Message) (config_bitrate max_bitrate_mbps now : ℕ) (s : Abr)
    → config_bitrate < 2 ^ 28
    → Within
        (if ltb 0 max_bitrate_mbps then min config_bitrate max_bitrate_mbps else config_bitrate)
        (receive ms (connect_abr config_bitrate max_bitrate_mbps now s))
unfolding connect_abr
receive-connect_abr ms config_bitrate max_bitrate_mbps now s small =
    receive-Within _ (ground arith) ms (connect_abr config_bitrate max_bitrate_mbps now s)
      (record { top = refl; above = ground arith; below = ground arith })

module _ (bound : ℕ) (low : bound < 20) where
  report_low :
      (is_high is_good : Bool) (now : ℕ) (s : Abr)
      → s.current_bitrate_mbps ≤ bound
      → (handle_latency_report is_high is_good now s).current_bitrate_mbps ≤ bound
  unfolding handle_latency_report
  report_low is_high is_good now s h =
      if-elim (λ (x : Abr). x.current_bitrate_mbps ≤ bound)
        (should_decrease is_high s && ltb min_bitrate_mbps s.current_bitrate_mbps)
        (λ d. ground (arith, d, h))
        (λ d.
          if-elim (λ (x : Abr). x.current_bitrate_mbps ≤ bound) (can_increase is_good now s)
            (λ i. omega (arith, h)) (λ i. h))

  -- Within one connection, a bitrate that is at most a bound below 20 Mbps stays at most that bound,
  -- whatever reports, keyframe requests and telemetry logs come, as a twentieth of it is 0.
  pub receive_low :
      (ms : List Message) (s : Abr)
      → s.current_bitrate_mbps ≤ bound
      → (receive ms s).current_bitrate_mbps ≤ bound
  unfolding receive handle_keyframe_request log_telemetry
  receive_low [] s h = h
  receive_low (latency_report is_high is_good now ∷ ms) s h =
      receive_low ms (handle_latency_report is_high is_good now s)
        (report_low is_high is_good now s h)
  receive_low (keyframe_request ∷ ms) s h = receive_low ms (handle_keyframe_request s) h
  receive_low (telemetry_logged ∷ ms) s h = receive_low ms (log_telemetry s) h

-- ===== src/Examples/Services.antt =====
-- Paths, the bitrate and the frame queue at concrete inputs.
use open_xr_osx.Base.{
  ℕ, ◌+◌, ◌^◌, ◌≤◌, ◌<◌, ◌≡◌, refl, true, false, none, some, List, [], ◌∷◌, arith, length, min, ltb,
  if◌then◌else◌, ◌==◌, same,
}
use open_xr_osx.Xr.{success}
use open_xr_osx.Layers.{Texture}
use open_xr_osx.Layers.Balance.{given_up}
use open_xr_osx.Runtime.{
  Runtime, fresh, starts_with_slash, ends_with_slash, has_double_slash, bad_segment,
  has_bad_segment, has_bad_char, rest_of, is_path_char, is_path_format, string_to_path_call,
  path_to_string_call,
}
use open_xr_osx.Runtime.Paths.{Inv, fresh-Inv, string_to_path-path_to_string}
use open_xr_osx.Server.{
  Abr, connect_abr, handle_latency_report, handle_keyframe_request, log_telemetry, FrameQueue,
}
use open_xr_osx.Server.Bitrate.{
  Message, latency_report, keyframe_request, telemetry_logged, receive, Within, receive-connect_abr,
  receive_low,
}
use open_xr_osx.Server.Conservation.{
  Event, sends, encodes, drops, run, sent, in_queue, run-conserves,
}

-- "/user"
abbrev user : List ℕ
user = 47 ∷ 117 ∷ 115 ∷ 101 ∷ 114 ∷ []

user_format : is_path_format 256 user ≡ true
unfolding is_path_format starts_with_slash ends_with_slash has_double_slash has_bad_segment
    bad_segment same has_bad_char rest_of is_path_char
user_format = refl

fresh_small : fresh.next_path + 2 < 2 ^ 64
unfolding fresh
fresh_small = omega arith

string_to_path-path_to_string_example :
    (r' : Runtime) × (p : ℕ) × (string_to_path_call 256 true user fresh ≡ (r', success, some p))
    × Inv r'
    × (path_to_string_call p 6 true r' ≡ (success, some (length user + 1), some user))
string_to_path-path_to_string_example =
    string_to_path-path_to_string 256 6 user fresh fresh-Inv (omega (arith, fresh_small))
      user_format (omega arith) (omega arith)

abbrev no_client : Abr
no_client = record {
  config_max_bitrate_mbps = 50;
  current_bitrate_mbps = 50;
  last_bitrate_increase_time_ns = 0;
  last_keyframe_request_count = 0;
  request_keyframe_count = 0;
}

abbrev messages : List Message
messages =
    keyframe_request ∷ latency_report false true 20 ∷ latency_report false true 6000000000 ∷ []

receive-connect_abr_example :
    Within (if ltb 0 30 then min 50 30 else 50) (receive messages (connect_abr 50 30 10 no_client))
receive-connect_abr_example = receive-connect_abr messages 50 30 10 no_client (omega arith)

abbrev slow : Abr
slow = record no_client { current_bitrate_mbps = 19 }

receive_low_example : (receive messages slow).current_bitrate_mbps ≤ 19
receive_low_example = receive_low 19 (omega arith) messages slow (omega arith)

-- The reset of the counter by the log lowers the bitrate, though nothing was requested since.
after_reset :
    (receive
      (keyframe_request
        ∷ latency_report false true 20
        ∷ telemetry_logged
        ∷ latency_report false true 30
        ∷ [])
      no_client).current_bitrate_mbps
    ≡ 40
unfolding receive handle_keyframe_request handle_latency_report log_telemetry
after_reset = refl

abbrev no_frames : FrameQueue
no_frames = record { pending = none; encoding = none; frame_index = 0; replaced_frame_count = 0 }

abbrev texture : ℕ → Texture
texture index = record { swapchain = 7; array_index = index }

abbrev submissions : List Event
submissions =
    sends (some (texture 0)) (some (texture 1)) true 5 none
    ∷ sends (some (texture 0)) (some (texture 1)) true 6 none
    ∷ encodes
    ∷ sends (some (texture 0)) none true 7 none
    ∷ drops
    ∷ []

run-conserves_example :
    in_queue (λ t. t.array_index == 0) (run submissions no_frames).0
      + given_up (λ t. t.array_index == 0) (run submissions no_frames).1
    ≡ in_queue (λ t. t.array_index == 0) no_frames + sent (λ t. t.array_index == 0) submissions
run-conserves_example = run-conserves (λ t. t.array_index == 0) submissions no_frames

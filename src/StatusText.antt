-- ===== src/StatusText.antt =====
-- runtime/src/RuntimeStatus.cpp: the text of the status file (`JsonEscape`, `WriteStreamingStats` and
-- what `WriteStatusLocked` writes). A text is the list of its bytes. How `<<` prints a `double`, with
-- six digits, is a parameter.
use open_xr_osx.Base.{
  zero, suc, ℕ, ◌+◌, ◌/◌, ◌%◌, Option, none, some, [], ◌∷◌, ◌++◌, ltb, ◌==◌, if◌then◌else◌, Text,
  codes, same, contains, lower, ◌||◌,
}

abbrev pub quote : ℕ
quote = 34

abbrev pub backslash : ℕ
backslash = 92

abbrev backslashed : ℕ → Text
backslashed c = backslash ∷ c ∷ []

-- `"0123456789abcdef"[n]`
abbrev pub hex_digit : ℕ → ℕ
hex_digit n = if ltb n 10 then 48 + n else 87 + n

-- The cases of `switch (character)`: backspace, form feed, line feed, carriage return and tab have
-- a letter.
unfoldable pub escape_char : ℕ → Text
escape_char c =
    if c == quote
    then backslashed quote
    else if c == backslash
    then backslashed backslash
    else if c == 8
    then backslashed b'b'
    else if c == 12
    then backslashed b'f'
    else if c == 10
    then backslashed b'n'
    else if c == 13
    then backslashed b'r'
    else if c == 9
    then backslashed b't'
    else if ltb c 32
    then backslash ∷ b'u' ∷ 48 ∷ 48 ∷ hex_digit (c / 16 % 16) ∷ hex_digit (c % 16) ∷ []
    else c ∷ []

unfoldable pub json_escape : Text → Text
unfolding escape_char
json_escape [] = []
json_escape (c ∷ cs) = escape_char c ++ json_escape cs

unfoldable pub device_type_for_client_name : Text → Text
unfolding contains lower
device_type_for_client_name client_name =
    let name = lower client_name in
    if contains (codes "quest") name
    then codes "quest"
    else if contains (codes "pico") name
    then codes "pico"
    else if contains (codes "vision") name
    then codes "vision_pro"
    else if contains (codes "simulator") name || contains (codes "viewer") name
    then codes "simulator"
    else if same name []
    then []
    else codes "unknown"

-- `<<` on an integer of at most 64 bits, which has at most 20 digits.
unfoldable pub digits : (rounds n : ℕ) → Text
digits zero n = []
digits (suc rounds) n =
    let rest = digits rounds (n / 10) in
    if ltb n 10 then (48 + n) ∷ [] else rest ++ (48 + n % 10) ∷ []

unfoldable pub show_integer : ℕ → Text
unfolding digits
show_integer n = digits 20 n

-- `double` with how `<<` prints it.
pub record Doubles : Type 1 where
  pub Double : Type 0
  pub zero_double : Double
  pub show_double : Double → Text

-- What stands before a number, the number and the rest of the file.
abbrev pub number : (before value rest : Text) → Text
number before value rest = before ++ (value ++ rest)

-- The same for a text, which is escaped and quoted.
abbrev pub member : (before value rest : Text) → Text
member before value rest = before ++ (json_escape value ++ (quote ∷ rest))

module _ (D : Doubles) where
  open D use {Double, zero_double, show_double}

  pub record StreamingStats : Type 0 where
    pub sample_unix_ms : ℕ
    pub refresh_rate_hz : ℕ
    pub current_bitrate_mbps : ℕ
    pub max_bitrate_mbps : ℕ
    pub render_width : ℕ
    pub render_height : ℕ
    pub encoded_width : ℕ
    pub encoded_height : ℕ
    pub server_pipeline_latency_ms : Double
    pub client_pipeline_latency_ms : Double
    pub client_receive_to_submit_ms : Double
    pub client_decode_ms : Double
    pub client_compositor_ms : Double
    pub prediction_horizon_ms : Double
    pub encode_queue_average_ms : Double
    pub encode_queue_p95_ms : Double
    pub encode_gpu_average_ms : Double
    pub encode_gpu_p95_ms : Double
    pub encode_submit_average_ms : Double
    pub encode_submit_p95_ms : Double
    pub encode_callback_average_ms : Double
    pub encode_callback_p95_ms : Double
    pub encode_total_average_ms : Double
    pub encode_total_p95_ms : Double
    pub encoded_frames_total : ℕ
    pub encoder_dropped_frames_total : ℕ
    pub replaced_frames_delta : ℕ
    pub keyframe_requests_delta : ℕ
    pub pending_depth_max : ℕ

  abbrev pub no_stats : StreamingStats
  no_stats = record {
    sample_unix_ms = 0;
    refresh_rate_hz = 0;
    current_bitrate_mbps = 0;
    max_bitrate_mbps = 0;
    render_width = 0;
    render_height = 0;
    encoded_width = 0;
    encoded_height = 0;
    server_pipeline_latency_ms = zero_double;
    client_pipeline_latency_ms = zero_double;
    client_receive_to_submit_ms = zero_double;
    client_decode_ms = zero_double;
    client_compositor_ms = zero_double;
    prediction_horizon_ms = zero_double;
    encode_queue_average_ms = zero_double;
    encode_queue_p95_ms = zero_double;
    encode_gpu_average_ms = zero_double;
    encode_gpu_p95_ms = zero_double;
    encode_submit_average_ms = zero_double;
    encode_submit_p95_ms = zero_double;
    encode_callback_average_ms = zero_double;
    encode_callback_p95_ms = zero_double;
    encode_total_average_ms = zero_double;
    encode_total_p95_ms = zero_double;
    encoded_frames_total = 0;
    encoder_dropped_frames_total = 0;
    replaced_frames_delta = 0;
    keyframe_requests_delta = 0;
    pending_depth_max = 0;
  }

  -- The lines of `WriteStreamingStats`, before the rest of the file.
  unfoldable pub write_streaming_stats : StreamingStats → Text → Text
  unfolding show_integer
  write_streaming_stats s rest =
      number (codes "  \"streaming_stats\": {\n    \"sample_unix_ms\": ")
        (show_integer s.sample_unix_ms)
        (number (codes ",\n    \"refresh_rate_hz\": ") (show_integer s.refresh_rate_hz) (
          number (codes ",\n    \"current_bitrate_mbps\": ") (show_integer s.current_bitrate_mbps) (
            number (codes ",\n    \"max_bitrate_mbps\": ") (show_integer s.max_bitrate_mbps) (
              number (codes ",\n    \"render_width\": ") (show_integer s.render_width) (
                number (codes ",\n    \"render_height\": ") (show_integer s.render_height) (
                  number (codes ",\n    \"encoded_width\": ") (show_integer s.encoded_width) (
                    number (codes ",\n    \"encoded_height\": ") (show_integer s.encoded_height) (
                      number (codes ",\n    \"latency_ms\": {\n      \"server_pipeline\": ")
                        (show_double s.server_pipeline_latency_ms)
                        (number (codes ",\n      \"client_pipeline\": ")
                          (show_double s.client_pipeline_latency_ms)
                          (number (codes ",\n      \"client_receive_to_submit\": ")
                            (show_double s.client_receive_to_submit_ms)
                            (number (codes ",\n      \"client_decode\": ")
                              (show_double s.client_decode_ms)
                              (number (codes ",\n      \"client_compositor\": ")
                                (show_double s.client_compositor_ms)
                                (number (codes ",\n      \"prediction_horizon\": ")
                                  (show_double s.prediction_horizon_ms)
                                  (number
                                    (codes "\n    },\n    \"encode_ms\": {\n      \"queue_avg\": ")
                                    (show_double s.encode_queue_average_ms)
                                    (number (codes ",\n      \"queue_p95\": ")
                                      (show_double s.encode_queue_p95_ms)
                                      (number (codes ",\n      \"gpu_avg\": ")
                                        (show_double s.encode_gpu_average_ms)
                                        (number (codes ",\n      \"gpu_p95\": ")
                                          (show_double s.encode_gpu_p95_ms)
                                          (number (codes ",\n      \"submit_avg\": ")
                                            (show_double s.encode_submit_average_ms)
                                            (number (codes ",\n      \"submit_p95\": ")
                                              (show_double s.encode_submit_p95_ms)
                                              (number (codes ",\n      \"callback_avg\": ")
                                                (show_double s.encode_callback_average_ms)
                                                (number (codes ",\n      \"callback_p95\": ")
                                                  (show_double s.encode_callback_p95_ms)
                                                  (number (codes ",\n      \"total_avg\": ")
                                                    (show_double s.encode_total_average_ms)
                                                    (number (codes ",\n      \"total_p95\": ")
                                                      (show_double s.encode_total_p95_ms)
                                                      (number
                                                        (codes
                                                          "\n    },\n    \"counters\": {\n      \"encoded_frames_total\": ")
                                                        (show_integer s.encoded_frames_total)
                                                        (number
                                                          (codes
                                                            ",\n      \"encoder_dropped_frames_total\": ")
                                                          (show_integer
                                                            s.encoder_dropped_frames_total)
                                                          (number
                                                            (codes
                                                            ",\n      \"replaced_frames_delta\": ")
                                                            (show_integer s.replaced_frames_delta)
                                                            (number
                                                            (codes
                                                            ",\n      \"keyframe_requests_delta\": ")
                                                            (show_integer s.keyframe_requests_delta)
                                                            (number
                                                            (codes
                                                            ",\n      \"pending_depth_max\": ")
                                                            (show_integer s.pending_depth_max)
                                                            (codes "\n    }\n  }\n"
                                                            ++ rest)))))))))))))))))))))))))))))

  -- The end of the file, from the process on.
  unfoldable pub tail_text : (process_id now_ms : ℕ) → Option StreamingStats → Text
  unfolding show_integer write_streaming_stats
  tail_text process_id now_ms none =
      number (codes ",\n  \"process_id\": ") (show_integer process_id)
        (number (codes ",\n  \"updated_at_unix_ms\": ") (show_integer now_ms) (codes "\n}\n"))
  tail_text process_id now_ms (some stats) =
      number (codes ",\n  \"process_id\": ") (show_integer process_id) (
        number (codes ",\n  \"updated_at_unix_ms\": ") (show_integer now_ms)
          (codes ",\n" ++ write_streaming_stats stats (codes "}\n")))

  -- The whole file.
  unfoldable pub status_text :
      (state transport client_name application_name : Text)
      → (process_id now_ms : ℕ) → Option StreamingStats
      → Text
  unfolding json_escape device_type_for_client_name tail_text
  status_text state transport client_name application_name process_id now_ms stats =
      member (codes "{\n  \"state\": \"") state (
        member (codes ",\n  \"transport\": \"") transport (
          member (codes ",\n  \"device_type\": \"") (device_type_for_client_name client_name) (
            member (codes ",\n  \"client_name\": \"") client_name (
              member (codes ",\n  \"application_name\": \"") application_name
                (tail_text process_id now_ms stats)))))

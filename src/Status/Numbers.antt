-- ===== src/Status/Numbers.antt =====
-- RuntimeStatus.cpp: what a reader of JSON makes of the numbers of the status file.
use open_xr_osx.Base.{
  ℕ, zero, suc, ◌+◌, ◌/◌, ◌%◌, ◌≡◌, refl, ap, ◌∙◌, Bool, true, false, not, ◌&&◌, ◌||◌, Option, none,
  some, List, [], ◌∷◌, ◌++◌, arith, ◌==◌, if◌then◌else◌, Text, codes, length, drop,
}
use open_xr_osx.StatusText.{
  Doubles, StreamingStats, number, digits, show_integer, write_streaming_stats, tail_text,
}
use open_xr_osx.Status.Json.{read_string, read_from, move, behind_quote}

-- A comma or a line feed ends a number.
abbrev pub ends : ℕ → Bool
ends c = (c == 44) || (c == 10)

unfoldable pub take_number : Text → Text × Text
take_number [] = ([], [])
take_number (c ∷ cs) =
    let (value, rest) = take_number cs in if ends c then ([], c ∷ cs) else (c ∷ value, rest)

-- Whether an object begins.
abbrev pub opens : Text → Bool
opens [] = false
opens (c ∷ cs) = c == 123

abbrev pub number_of : Text × Text → Text × Text × Text
number_of (key, rest) = let (value, rest') = take_number rest in (key, value, rest')

abbrev pub read_key : Text → Option (Text × Text)
read_key text = read_string (behind_quote text)

-- Behind the colon and the blank.
abbrev pub value_of : Option (Text × Text) → Option (Text × Text × Text)
value_of none = none
value_of (some (key, rest)) = some (number_of (key, drop 2 rest))

-- The first member of an object in the place of a number is read instead.
abbrev pub enter : Option (Text × Text) → Option (Text × Text)
enter none = none
enter (some (key, rest)) = if opens (drop 2 rest) then read_key rest else some (key, rest)

-- The next number, with its key.
unfoldable pub read_number : Text → Option (Text × Text × Text)
unfolding read_string behind_quote take_number
read_number text = value_of (enter (read_key text))

abbrev pub with_number :
    (Text × Text) → Option (List (Text × Text) × Text) → Option (List (Text × Text) × Text)
with_number m none = none
with_number m (some (ms, rest)) = some (m ∷ ms, rest)

abbrev pub then_numbers :
    Option (Text × Text × Text)
    → (Text → Option (List (Text × Text) × Text))
    → Option (List (Text × Text) × Text)
then_numbers none next = none
then_numbers (some (key, value, rest)) next = with_number (key, value) (next rest)

-- So many numbers, and what stands behind them.
unfoldable pub read_numbers : ℕ → Text → Option (List (Text × Text) × Text)
unfolding read_number
read_numbers zero text = some ([], text)
read_numbers (suc n) text = then_numbers (read_number text) (read_numbers n)

-- A printed number has no comma, no line feed and no brace.
unfoldable pub is_number : Text → Bool
is_number [] = true
is_number (c ∷ cs) = not (ends c) && (not (c == 123) && is_number cs)

abbrev pub closes : Text → Bool
closes [] = false
closes (c ∷ cs) = ends c

take_number-append :
    (value rest : Text)
    → is_number value ≡ true
    → closes rest ≡ true
    → take_number (value ++ rest) ≡ (value, rest)
unfolding take_number is_number
take_number-append [] [] h c = absurd (ground (arith, c))
take_number-append [] (d ∷ ds) h c = rw c refl
take_number-append (d ∷ ds) rest h c =
    let here : ends d ≡ false = ground (arith, h) in
    let there : is_number ds ≡ true = ground (arith, h) in
    rw (here, take_number-append ds rest there c) refl

opens-append :
    (value rest : Text)
    → is_number value ≡ true
    → closes rest ≡ true
    → opens (value ++ rest) ≡ false
unfolding is_number
opens-append [] [] h c = refl
opens-append [] (d ∷ ds) h c = ground (arith, c)
opens-append (d ∷ ds) rest h c = ground (arith, h)

is_number-append :
    (a b : Text) → is_number a ≡ true → is_number b ≡ true → is_number (a ++ b) ≡ true
unfolding is_number
is_number-append [] b h k = k
is_number-append (c ∷ cs) b h k = ground (arith, h, is_number-append cs b, k)

digits-is_number : (rounds n : ℕ) → is_number (digits rounds n) ≡ true
unfolding digits is_number
digits-is_number zero n = refl
digits-is_number (suc rounds) n =
    let rest =
      is_number-append (digits rounds (n / 10)) ((48 + n % 10) ∷ [])
        (digits-is_number rounds (n / 10)) (ground arith) in
    ground (arith, rest)

show_integer-is_number : (n : ℕ) → is_number (show_integer n) ≡ true
unfolding show_integer
show_integer-is_number n = digits-is_number 20 n

-- What stands before a number, its key, and the number.
abbrev Entry : Type 0
Entry = Text × Text × Text

abbrev numbers_text : List Entry → Text → Text
numbers_text [] end = end
numbers_text ((before, key, value) ∷ es) end = number before value (numbers_text es end)

abbrev keyed : List Entry → List (Text × Text)
keyed [] = []
keyed ((before, key, value) ∷ es) = (key, value) ∷ keyed es

abbrev Readable : List Entry → Text → Type 0
Readable [] end = closes end ≡ true
Readable ((before, key, value) ∷ es) end =
    ((text : Text)
      → opens text ≡ false
      → read_number (before ++ text) ≡ some (number_of (key, text)))
    × (is_number value ≡ true)
    × (closes (numbers_text es end) ≡ true)
    × Readable es end

read_numbers-numbers_text :
    (es : List Entry) (end : Text)
    → Readable es end
    → read_numbers (length es) (numbers_text es end) ≡ some (keyed es, end)
unfolding read_numbers
read_numbers-numbers_text [] end r = refl
read_numbers-numbers_text ((before, key, value) ∷ es) end (reads, is, closed, r) =
    let rest = numbers_text es end in
    let e : read_number (before ++ (value ++ rest)) ≡ some (key, value, rest) =
      reads (value ++ rest) (opens-append value rest is closed)
      ∙ ap (λ (x : Text × Text). some (key, x.0, x.1)) (take_number-append value rest is closed) in
    ap (λ m. then_numbers m (read_numbers (length es))) e
    ∙ ap (with_number (key, value)) (read_numbers-numbers_text es end r)

module _ (D : Doubles) where
  open D use {Double, show_double}

  -- The keys of the statistics in the file, each with its number.
  unfoldable pub stats_numbers : StreamingStats D → List (Text × Text)
  stats_numbers s =
      (codes "sample_unix_ms", show_integer s.sample_unix_ms)
      ∷ (codes "refresh_rate_hz", show_integer s.refresh_rate_hz)
      ∷ (codes "current_bitrate_mbps", show_integer s.current_bitrate_mbps)
      ∷ (codes "max_bitrate_mbps", show_integer s.max_bitrate_mbps)
      ∷ (codes "render_width", show_integer s.render_width)
      ∷ (codes "render_height", show_integer s.render_height)
      ∷ (codes "encoded_width", show_integer s.encoded_width)
      ∷ (codes "encoded_height", show_integer s.encoded_height)
      ∷ (codes "server_pipeline", show_double s.server_pipeline_latency_ms)
      ∷ (codes "client_pipeline", show_double s.client_pipeline_latency_ms)
      ∷ (codes "client_receive_to_submit", show_double s.client_receive_to_submit_ms)
      ∷ (codes "client_decode", show_double s.client_decode_ms)
      ∷ (codes "client_compositor", show_double s.client_compositor_ms)
      ∷ (codes "prediction_horizon", show_double s.prediction_horizon_ms)
      ∷ (codes "queue_avg", show_double s.encode_queue_average_ms)
      ∷ (codes "queue_p95", show_double s.encode_queue_p95_ms)
      ∷ (codes "gpu_avg", show_double s.encode_gpu_average_ms)
      ∷ (codes "gpu_p95", show_double s.encode_gpu_p95_ms)
      ∷ (codes "submit_avg", show_double s.encode_submit_average_ms)
      ∷ (codes "submit_p95", show_double s.encode_submit_p95_ms)
      ∷ (codes "callback_avg", show_double s.encode_callback_average_ms)
      ∷ (codes "callback_p95", show_double s.encode_callback_p95_ms)
      ∷ (codes "total_avg", show_double s.encode_total_average_ms)
      ∷ (codes "total_p95", show_double s.encode_total_p95_ms)
      ∷ (codes "encoded_frames_total", show_integer s.encoded_frames_total)
      ∷ (codes "encoder_dropped_frames_total", show_integer s.encoder_dropped_frames_total)
      ∷ (codes "replaced_frames_delta", show_integer s.replaced_frames_delta)
      ∷ (codes "keyframe_requests_delta", show_integer s.keyframe_requests_delta)
      ∷ (codes "pending_depth_max", show_integer s.pending_depth_max)
      ∷ []

  -- All numbers of the file.
  abbrev pub shown_numbers :
      (process_id now_ms : ℕ) → Option (StreamingStats D) → List (Text × Text)
  shown_numbers process_id now_ms none =
      (codes "process_id", show_integer process_id)
      ∷ (codes "updated_at_unix_ms", show_integer now_ms)
      ∷ []
  shown_numbers process_id now_ms (some s) =
      (codes "process_id", show_integer process_id)
      ∷ (codes "updated_at_unix_ms", show_integer now_ms)
      ∷ stats_numbers s

  abbrev pub end_text : Option (StreamingStats D) → Text
  end_text none = codes "\n}\n"
  end_text (some s) = codes "\n    }\n  }\n}\n"

  abbrev entries : StreamingStats D → List Entry
  entries s =
      (
        codes ",\n  \"streaming_stats\": {\n    \"sample_unix_ms\": ",
        codes "sample_unix_ms",
        show_integer s.sample_unix_ms,
      )
      ∷ (
        codes ",\n    \"refresh_rate_hz\": ",
        codes "refresh_rate_hz",
        show_integer s.refresh_rate_hz,
      )
      ∷ (
        codes ",\n    \"current_bitrate_mbps\": ",
        codes "current_bitrate_mbps",
        show_integer s.current_bitrate_mbps,
      )
      ∷ (
        codes ",\n    \"max_bitrate_mbps\": ",
        codes "max_bitrate_mbps",
        show_integer s.max_bitrate_mbps,
      )
      ∷ (codes ",\n    \"render_width\": ", codes "render_width", show_integer s.render_width)
      ∷ (codes ",\n    \"render_height\": ", codes "render_height", show_integer s.render_height)
      ∷ (codes ",\n    \"encoded_width\": ", codes "encoded_width", show_integer s.encoded_width)
      ∷ (codes ",\n    \"encoded_height\": ", codes "encoded_height", show_integer s.encoded_height)
      ∷ (
        codes ",\n    \"latency_ms\": {\n      \"server_pipeline\": ",
        codes "server_pipeline",
        show_double s.server_pipeline_latency_ms,
      )
      ∷ (
        codes ",\n      \"client_pipeline\": ",
        codes "client_pipeline",
        show_double s.client_pipeline_latency_ms,
      )
      ∷ (
        codes ",\n      \"client_receive_to_submit\": ",
        codes "client_receive_to_submit",
        show_double s.client_receive_to_submit_ms,
      )
      ∷ (
        codes ",\n      \"client_decode\": ",
        codes "client_decode",
        show_double s.client_decode_ms,
      )
      ∷ (
        codes ",\n      \"client_compositor\": ",
        codes "client_compositor",
        show_double s.client_compositor_ms,
      )
      ∷ (
        codes ",\n      \"prediction_horizon\": ",
        codes "prediction_horizon",
        show_double s.prediction_horizon_ms,
      )
      ∷ (
        codes "\n    },\n    \"encode_ms\": {\n      \"queue_avg\": ",
        codes "queue_avg",
        show_double s.encode_queue_average_ms,
      )
      ∷ (codes ",\n      \"queue_p95\": ", codes "queue_p95", show_double s.encode_queue_p95_ms)
      ∷ (codes ",\n      \"gpu_avg\": ", codes "gpu_avg", show_double s.encode_gpu_average_ms)
      ∷ (codes ",\n      \"gpu_p95\": ", codes "gpu_p95", show_double s.encode_gpu_p95_ms)
      ∷ (
        codes ",\n      \"submit_avg\": ",
        codes "submit_avg",
        show_double s.encode_submit_average_ms,
      )
      ∷ (codes ",\n      \"submit_p95\": ", codes "submit_p95", show_double s.encode_submit_p95_ms)
      ∷ (
        codes ",\n      \"callback_avg\": ",
        codes "callback_avg",
        show_double s.encode_callback_average_ms,
      )
      ∷ (
        codes ",\n      \"callback_p95\": ",
        codes "callback_p95",
        show_double s.encode_callback_p95_ms,
      )
      ∷ (codes ",\n      \"total_avg\": ", codes "total_avg", show_double s.encode_total_average_ms)
      ∷ (codes ",\n      \"total_p95\": ", codes "total_p95", show_double s.encode_total_p95_ms)
      ∷ (
        codes "\n    },\n    \"counters\": {\n      \"encoded_frames_total\": ",
        codes "encoded_frames_total",
        show_integer s.encoded_frames_total,
      )
      ∷ (
        codes ",\n      \"encoder_dropped_frames_total\": ",
        codes "encoder_dropped_frames_total",
        show_integer s.encoder_dropped_frames_total,
      )
      ∷ (
        codes ",\n      \"replaced_frames_delta\": ",
        codes "replaced_frames_delta",
        show_integer s.replaced_frames_delta,
      )
      ∷ (
        codes ",\n      \"keyframe_requests_delta\": ",
        codes "keyframe_requests_delta",
        show_integer s.keyframe_requests_delta,
      )
      ∷ (
        codes ",\n      \"pending_depth_max\": ",
        codes "pending_depth_max",
        show_integer s.pending_depth_max,
      )
      ∷ []

  abbrev header_entries : (process_id now_ms : ℕ) → List Entry → List Entry
  header_entries process_id now_ms es =
      (codes ",\n  \"process_id\": ", codes "process_id", show_integer process_id)
      ∷ (codes ",\n  \"updated_at_unix_ms\": ", codes "updated_at_unix_ms", show_integer now_ms)
      ∷ es

  -- `<<` prints a `double` without commas, line feeds and braces.
  abbrev pub PrintsNumbers : Type 0
  PrintsNumbers = (x : Double) → is_number (show_double x) ≡ true

  entries-Readable :
      (s : StreamingStats D) → PrintsNumbers → Readable (entries s) (codes "\n    }\n  }\n}\n")
  unfolding read_number read_string read_from move behind_quote
  entries-Readable s plain = (
    λ t e. refl,
    show_integer-is_number s.sample_unix_ms,
    refl,
    (
      λ t e. rw e refl,
      show_integer-is_number s.refresh_rate_hz,
      refl,
      (
        λ t e. rw e refl,
        show_integer-is_number s.current_bitrate_mbps,
        refl,
        (
          λ t e. rw e refl,
          show_integer-is_number s.max_bitrate_mbps,
          refl,
          (
            λ t e. rw e refl,
            show_integer-is_number s.render_width,
            refl,
            (
              λ t e. rw e refl,
              show_integer-is_number s.render_height,
              refl,
              (
                λ t e. rw e refl,
                show_integer-is_number s.encoded_width,
                refl,
                (
                  λ t e. rw e refl,
                  show_integer-is_number s.encoded_height,
                  refl,
                  (
                    λ t e. refl,
                    plain s.server_pipeline_latency_ms,
                    refl,
                    (
                      λ t e. rw e refl,
                      plain s.client_pipeline_latency_ms,
                      refl,
                      (
                        λ t e. rw e refl,
                        plain s.client_receive_to_submit_ms,
                        refl,
                        (
                          λ t e. rw e refl,
                          plain s.client_decode_ms,
                          refl,
                          (
                            λ t e. rw e refl,
                            plain s.client_compositor_ms,
                            refl,
                            (
                              λ t e. rw e refl,
                              plain s.prediction_horizon_ms,
                              refl,
                              (
                                λ t e. refl,
                                plain s.encode_queue_average_ms,
                                refl,
                                (
                                  λ t e. rw e refl,
                                  plain s.encode_queue_p95_ms,
                                  refl,
                                  (
                                    λ t e. rw e refl,
                                    plain s.encode_gpu_average_ms,
                                    refl,
                                    (
                                      λ t e. rw e refl,
                                      plain s.encode_gpu_p95_ms,
                                      refl,
                                      (
                                        λ t e. rw e refl,
                                        plain s.encode_submit_average_ms,
                                        refl,
                                        (
                                          λ t e. rw e refl,
                                          plain s.encode_submit_p95_ms,
                                          refl,
                                          (
                                            λ t e. rw e refl,
                                            plain s.encode_callback_average_ms,
                                            refl,
                                            (
                                              λ t e. rw e refl,
                                              plain s.encode_callback_p95_ms,
                                              refl,
                                              (
                                                λ t e. rw e refl,
                                                plain s.encode_total_average_ms,
                                                refl,
                                                (
                                                  λ t e. rw e refl,
                                                  plain s.encode_total_p95_ms,
                                                  refl,
                                                  (
                                                    λ t e. refl,
                                                    show_integer-is_number s.encoded_frames_total,
                                                    refl,
                                                    (
                                                      λ t e. rw e refl,
                                                      show_integer-is_number
                                                          s.encoder_dropped_frames_total,
                                                      refl,
                                                      (
                                                        λ t e. rw e refl,
                                                        show_integer-is_number
                                                            s.replaced_frames_delta,
                                                        refl,
                                                        (
                                                          λ t e. rw e refl,
                                                          show_integer-is_number
                                                            s.keyframe_requests_delta,
                                                          refl,
                                                          (
                                                            λ t e. rw e refl,
                                                            show_integer-is_number
                                                            s.pending_depth_max,
                                                            refl,
                                                            refl,
                                                          ),
                                                        ),
                                                      ),
                                                    ),
                                                  ),
                                                ),
                                              ),
                                            ),
                                          ),
                                        ),
                                      ),
                                    ),
                                  ),
                                ),
                              ),
                            ),
                          ),
                        ),
                      ),
                    ),
                  ),
                ),
              ),
            ),
          ),
        ),
      ),
    ),
  )

  header-Readable :
      (process_id now_ms : ℕ) (es : List Entry) (end : Text)
      → closes (numbers_text es end) ≡ true
      → Readable es end
      → Readable (header_entries process_id now_ms es) end
  unfolding read_number read_string read_from move behind_quote
  header-Readable process_id now_ms es end closed r = (
    λ t e. rw e refl,
    show_integer-is_number process_id,
    refl,
    (λ t e. rw e refl, show_integer-is_number now_ms, closed, r),
  )

  -- A reader gets all numbers of the file, under their keys, as they are printed.
  pub read_numbers-tail_text :
      (process_id now_ms : ℕ) (stats : Option (StreamingStats D))
      → PrintsNumbers
      → read_numbers
          (length (shown_numbers process_id now_ms stats))
          (tail_text D process_id now_ms stats)
        ≡ some (shown_numbers process_id now_ms stats, end_text stats)
  unfolding tail_text write_streaming_stats stats_numbers
  read_numbers-tail_text process_id now_ms none plain =
      read_numbers-numbers_text (header_entries process_id now_ms []) (end_text none)
        (header-Readable process_id now_ms [] (end_text none) refl refl)
  read_numbers-tail_text process_id now_ms (some s) plain =
      read_numbers-numbers_text (header_entries process_id now_ms (entries s)) (end_text (some s)) (
        header-Readable process_id now_ms (entries s) (end_text (some s)) refl
          (entries-Readable s plain))

-- ===== src/Status/Published.antt =====
-- RuntimeStatus.cpp: the status file shows the status.
use open_xr_osx.Base.{
  length, ℕ, ◌≡◌, ◌⊎◌, Bool, false, Option, none, some, List, [], ◌∷◌, if◌then◌else◌, Text, codes,
}
use open_xr_osx.StatusText.{Doubles, StreamingStats, device_type_for_client_name}
use open_xr_osx.Status.{
  Moment, Status, set_application_name, clear_application_name, set_idle, set_streaming,
  set_streaming_stats,
}
use open_xr_osx.Status.Numbers.{read_numbers, shown_numbers, end_text}
use open_xr_osx.Status.Json.{read_members}

module _ (D : Doubles) where
  -- The calls, each with whether its file can be written.
  pub data Call : Type 0 where
    application_named : (m : Moment) (name : Text) → Call
    application_cleared : (m : Moment) → Call
    went_idle : (m : Moment) → Call
    streaming_began : (m : Moment) (transport client_name : Text) → Call
    stats_sampled : (m : Moment) (now_ms : ℕ) (stats : StreamingStats D) → Call

  unfoldable pub step : Call → Status D → Status D
  step (application_named m name) = set_application_name D m name
  step (application_cleared m) = clear_application_name D m
  step (went_idle m) = set_idle D m
  step (streaming_began m t c) = set_streaming D m t c
  step (stats_sampled m now stats) = set_streaming_stats D m now stats

  unfoldable pub run : List Call → Status D → Status D
  unfolding step
  run [] s = s
  run (c ∷ cs) s = run cs (step c s)

  abbrev pub writes : Call → Bool
  writes (application_named m name) = m.can_write
  writes (application_cleared m) = m.can_write
  writes (went_idle m) = m.can_write
  writes (streaming_began m t c) = m.can_write
  writes (stats_sampled m now stats) = m.can_write

  -- Only a stream has statistics, a transport and a client.
  abbrev pub Consistent : Status D → Type 0
  Consistent s =
      ((s.state ≡ codes "idle") × (s.transport ≡ []) × (s.client_name ≡ []) × (s.has_stats ≡ false))
      ⊎ (s.state ≡ codes "streaming")

  -- The texts that the file shows, under their keys.
  abbrev pub shown_texts :
      (state transport client_name application_name : Text) → List (Text × Text)
  shown_texts state transport client_name application_name =
      (codes "state", state)
      ∷ (codes "transport", transport)
      ∷ (codes "device_type", device_type_for_client_name client_name)
      ∷ (codes "client_name", client_name)
      ∷ (codes "application_name", application_name)
      ∷ []

  -- The statistics that are kept.
  abbrev pub kept_stats : Status D → Option (StreamingStats D)
  kept_stats s = if s.has_stats then some s.stats else none

  -- The file shows the status: a reader gets the texts, then the numbers, those of the statistics if
  -- there are some, and then the file ends.
  pub record Shows (s : Status D) (text : Text) : Type 0 where
    pub in_file : s.file ≡ some text
    pub moment : Moment
    pub numbers : Text
    pub shows_texts :
        read_members 5 text
        ≡ some (shown_texts s.state s.transport s.client_name s.application_name, numbers)
    pub shows_numbers :
        read_numbers
          (length (shown_numbers D moment.process_id moment.now_ms (kept_stats s)))
          numbers
        ≡ some (
          shown_numbers D moment.process_id moment.now_ms (kept_stats s),
          end_text D (kept_stats s),
        )

  abbrev pub Published : Status D → Type 0
  Published s = Consistent s × ((text : Text) × Shows s text)

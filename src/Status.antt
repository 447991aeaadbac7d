-- ===== src/Status.antt =====
-- runtime/src/RuntimeStatus.cpp: the status for the host application, and the operations that write
-- it to a file.
pub mod Json
pub mod Numbers
pub mod Published
use open_xr_osx.Base.{
  ℕ, Bool, true, false, Option, none, some, [], ◌==◌, if◌then◌else◌, Text, codes, same, ◌&&◌,
}
use open_xr_osx.StatusText.{Doubles, StreamingStats, no_stats, status_text}

-- What a write of the file meets: whether the temporary file opens and is renamed, `getpid()` and
-- the clock.
pub record Moment : Type 0 where
  pub can_write : Bool
  pub process_id : ℕ
  pub now_ms : ℕ

module _ (D : Doubles) where
  -- The variables behind `StatusMutex`, and the file.
  pub record Status : Type 0 where
    pub application_name : Text
    pub state : Text
    pub transport : Text
    pub client_name : Text
    pub stats : StreamingStats D
    pub has_stats : Bool
    pub file : Option Text

  unfoldable pub initial : Status
  initial = record {
    application_name = [];
    state = codes "idle";
    transport = [];
    client_name = [];
    stats = no_stats D;
    has_stats = false;
    file = none;
  }

  -- The statistics that the file shows.
  abbrev pub shown_stats : (state : Text) → Status → Option (StreamingStats D)
  shown_stats state s = if same state (codes "streaming") && s.has_stats then some s.stats else none

  -- Where the file cannot be written, the old file stays, as the exceptions are caught.
  unfoldable pub write_status_locked :
      Moment → (state transport client_name : Text) → Status → Status
  unfolding same status_text
  write_status_locked m state transport client_name s =
      let written = record s {
        file = some (
            status_text D state transport client_name s.application_name m.process_id m.now_ms
              (shown_stats state s));
      } in
      if m.can_write then written else s

  -- What four operations begin with.
  abbrev cleared : Status → Status
  cleared s = record s { state = codes "idle"; transport = []; client_name = []; has_stats = false }

  unfoldable pub set_application_name : Moment → Text → Status → Status
  set_application_name m application_name s =
      write_status_locked m (codes "idle") [] []
        (record (cleared s) { application_name = application_name })

  unfoldable pub clear_application_name : Moment → Status → Status
  clear_application_name m s =
      write_status_locked m (codes "idle") [] [] (record (cleared s) { application_name = [] })

  unfoldable pub set_idle : Moment → Status → Status
  set_idle m s = write_status_locked m (codes "idle") [] [] (cleared s)

  unfoldable pub set_streaming : Moment → (transport client_name : Text) → Status → Status
  set_streaming m transport client_name s =
      write_status_locked m (codes "streaming") transport client_name (record s {
        state = codes "streaming";
        transport = transport;
        client_name = client_name;
        has_stats = false;
      })

  -- `if (sampleUnixMilliseconds == 0) sampleUnixMilliseconds = UnixTimeMilliseconds()`
  abbrev pub stamped : (now_ms : ℕ) → StreamingStats D → StreamingStats D
  stamped now_ms stats = record stats {
    sample_unix_ms = if stats.sample_unix_ms == 0 then now_ms else stats.sample_unix_ms;
  }

  unfoldable pub set_streaming_stats : Moment → (now_ms : ℕ) → StreamingStats D → Status → Status
  unfolding same
  set_streaming_stats m now_ms stats s =
      if same s.state (codes "streaming")
      then write_status_locked m (codes "streaming") s.transport s.client_name
          (record s { stats = stamped now_ms stats; has_stats = true })
      else s

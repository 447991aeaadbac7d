-- ===== src/Examples/Instances.antt =====
-- An instance with some events.
use open_xr_osx.Base.{ℕ, ◌≡◌, true, false, List, [], ◌∷◌, ◌++◌, length, if◌then◌else◌, ◌==◌}
use open_xr_osx.Xr.{idle, ready}
use open_xr_osx.Instance.{
  Instance, Event, session_state_changed, other_event, remove_events_for_session,
  enumerate_view_configurations, enumerate_view_configuration_views,
  enumerate_environment_blend_modes,
}
use open_xr_osx.Instance.Queue.{
  push_all, poll_all, events_of, push_all-poll_all, events_of-remove_events_for_session, Removed,
}
use open_xr_osx.Instance.Enumerations.{Sound, enumerations-Sound}

abbrev user : List ℕ
user = 117 ∷ 115 ∷ []

abbrev an_instance : Instance
an_instance = record {
  system_requested = true;
  api_version = 0;
  enabled_extensions = [];
  event_queue = other_event 1 ∷ [];
  debug_names = [];
  metal_requirements_queried = false;
}

abbrev new_events : List Event
new_events = session_state_changed 3 idle ∷ session_state_changed 4 ready ∷ []

push_all-poll_all_example :
    poll_all (length (an_instance.event_queue ++ new_events)) (push_all new_events an_instance)
    ≡ an_instance.event_queue ++ new_events
push_all-poll_all_example = push_all-poll_all new_events an_instance

events_of-remove_events_for_session_example :
    Removed 3
      (push_all new_events an_instance).event_queue
      (remove_events_for_session 3 (push_all new_events an_instance)).event_queue
    × (events_of 4 (remove_events_for_session 3 (push_all new_events an_instance)).event_queue
        ≡ (if 3 == 4 then [] else events_of 4 (push_all new_events an_instance).event_queue))
events_of-remove_events_for_session_example =
    events_of-remove_events_for_session 3 4 (push_all new_events an_instance)

enumerations-Sound_example :
    Sound 1 2 (enumerate_view_configurations 1 2)
    × Sound 2 2 (enumerate_view_configuration_views 1 true 2)
    × Sound 1 2 (enumerate_environment_blend_modes 1 true 2)
enumerations-Sound_example = enumerations-Sound 1 2 true

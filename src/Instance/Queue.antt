-- ===== src/Instance/Queue.antt =====
-- Instance.cpp: the event queue.
use open_xr_osx.Base.{
  ℕ, zero, suc, ◌≡◌, ◌≢◌, refl, sym, ap, subst, true, false, ℕ_discrete, ◌∙◌, Option, none, some,
  List, [], ◌∷◌, ◌++◌, arith, if◌then◌else◌, ◌==◌, length, append_assoc, append-nil,
}
use open_xr_osx.Xr.{Result, success, SessionState}
use open_xr_osx.Instance.{
  Instance, Event, session_state_changed, other_event, push_event, poll_from, poll_event,
  is_of_session, erase_events, remove_events_for_session,
}

unfoldable pub push_all : List Event → Instance → Instance
push_all [] i = i
push_all (e ∷ es) i = push_all es (push_event e i)

unfoldable pub cons_event : Option Event → List Event → List Event
cons_event none es = []
cons_event (some e) es = e ∷ es

-- The events that the application gets when it polls until there is none, at most so many times.
unfoldable pub poll_all : ℕ → Instance → List Event
poll_all zero i = []
poll_all (suc rounds) i = cons_event (poll_event i).2 (poll_all rounds (poll_event i).0)

pushed : (es : List Event) (i : Instance) → (push_all es i).event_queue ≡ i.event_queue ++ es
unfolding push_all push_event
pushed [] i = sym (append-nil i.event_queue)
pushed (e ∷ es) i = pushed es (push_event e i) ∙ append_assoc i.event_queue (e ∷ []) es

polled :
    (rounds : ℕ) (es : List Event) (i : Instance)
    → i.event_queue ≡ es
    → rounds ≡ length es
    → poll_all rounds i ≡ es
unfolding poll_all cons_event poll_event poll_from
polled zero [] i q e = refl
polled zero (x ∷ es) i q e = absurd (omega arith)
polled (suc rounds) [] i q e = absurd (omega arith)
polled (suc rounds) (x ∷ es) i q e =
    ap (λ (r : Instance × Result × Option Event). cons_event r.2 (poll_all rounds r.0))
      {x = poll_event i} {y = (record i { event_queue = es }, success, some x)}
      (ap (λ queue. poll_from queue i) q)
    ∙ ap (λ r. x ∷ r) (polled rounds es (record i { event_queue = es }) refl (omega arith))

-- The events that are pushed are polled in the same order, behind those that were there before.
pub push_all-poll_all :
    (es : List Event) (i : Instance)
    → poll_all (length (i.event_queue ++ es)) (push_all es i) ≡ i.event_queue ++ es
push_all-poll_all es i =
    polled (length (i.event_queue ++ es)) (i.event_queue ++ es) (push_all es i) (pushed es i) refl

-- The state changes of a session, in order.
unfoldable pub events_of : ℕ → List Event → List SessionState
events_of session [] = []
events_of session (session_state_changed s state ∷ es) =
    let rest = events_of session es in if s == session then state ∷ rest else rest
events_of session (other_event content ∷ es) = events_of session es

erased :
    (s s' : ℕ) (es : List Event)
    → events_of s' (erase_events s es) ≡ (if s == s' then [] else events_of s' es)
unfolding events_of erase_events is_of_session
erased s s' [] = ground arith
erased s s' (session_state_changed t state ∷ es) = ground (arith, erased s s' es)
erased s s' (other_event content ∷ es) = erased s s' es

-- The second list is the first one without the state changes of the session.
pub data Removed (session : ℕ) : List Event → List Event → Type 0 where
  at_end : Removed session [] []
  removed :
      {es es' : List Event} (state : SessionState)
      → Removed session es es'
      → Removed session (session_state_changed session state ∷ es) es'
  kept_state :
      {es es' : List Event} (s : ℕ) (state : SessionState)
      → s ≢ session
      → Removed session es es'
      → Removed session (session_state_changed s state ∷ es) (session_state_changed s state ∷ es')
  kept_other :
      {es es' : List Event} (content : ℕ)
      → Removed session es es'
      → Removed session (other_event content ∷ es) (other_event content ∷ es')

erase_events-Removed : (s : ℕ) (es : List Event) → Removed s es (erase_events s es)
unfolding erase_events is_of_session
erase_events-Removed s [] = at_end
erase_events-Removed s (session_state_changed t state ∷ es) = elim (ℕ_discrete t s) [
  | yes e ↦
      let same_session : (t == s) ≡ true = ground arith in
      rw same_session (
        subst (λ k. Removed s (session_state_changed k state ∷ es) (erase_events s es)) (sym e)
          (removed state (erase_events-Removed s es)))
  | no ne ↦
      let other_session : (t == s) ≡ false = ground arith in
      rw other_session (kept_state t state ne (erase_events-Removed s es))
]
erase_events-Removed s (other_event content ∷ es) = kept_other content (erase_events-Removed s es)

-- `RemoveEventsForSession` takes away all state changes of its session, and nothing else: what is
-- left, of whatever kind, is in its order. So an application gets no state change of that session
-- any more, and those of another one as before.
pub events_of-remove_events_for_session :
    (s s' : ℕ) (i : Instance)
    → Removed s i.event_queue (remove_events_for_session s i).event_queue
      × (events_of s' (remove_events_for_session s i).event_queue
          ≡ (if s == s' then [] else events_of s' i.event_queue))
unfolding remove_events_for_session
events_of-remove_events_for_session s s' i =
    (erase_events-Removed s i.event_queue, erased s s' i.event_queue)

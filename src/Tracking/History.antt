-- ===== src/Tracking/History.antt =====
-- runtime/src/TrackingReceiver.cpp: any sequence of calls of the class, with packets between them.
use open_xr_osx.Base.{
  ℕ, suc, ◌≤◌, ◌≡◌, refl, ℤ, pos, Bool, true, false, arith, Option, none, some, List, [], ◌∷◌, ◌++◌,
  length, ltb, if◌then◌else◌, subst,
}
use open_xr_osx.Tracking.Packet.{Glm, TrackingPacket}
use open_xr_osx.Tracking.State.{
  max_history_samples, HistorySample, TrackingReceiver, start, stop, trim_history,
  normalized_packet, store_packet, inject_packet, receive_packet, set_prediction_horizon_ms,
  last_two, diagnosed, predicted_from, get_predicted_pose,
}

module _ (G : Glm) where
  open G use {Float, decimal, at_most}

  pub data Call : Type 0 where
    starts : Option ℕ → Bool → Call
    stops : Call
    receives : List ℕ → ℤ → Call
    injects : List ℕ → ℤ → Call
    sets_horizon : Float → Call
    predicts : ℤ → Call

  unfoldable pub run :
      (List ℕ → TrackingPacket Float) → TrackingReceiver G → List Call → Option (TrackingReceiver G)
  run read t [] = some t
  run read t (starts socket bound ∷ cs) = elim (start G t socket bound) [
    | none ↦ none
    | some (ok, t') ↦ run read t' cs
  ]
  run read t (stops ∷ cs) = run read (stop G t) cs
  run read t (receives bytes now ∷ cs) = run read (receive_packet G read t bytes now) cs
  run read t (injects bytes now ∷ cs) = run read (inject_packet G read t bytes now) cs
  run read t (sets_horizon horizon ∷ cs) = run read (set_prediction_horizon_ms G t horizon) cs
  run read t (predicts now ∷ cs) = run read (get_predicted_pose G t now).1 cs

  -- A new object, whose members are all zero.
  unfoldable pub idle : TrackingPacket Float → TrackingReceiver G
  idle zeros = record {
    socket = none;
    receive_thread = false;
    running = false;
    has_data = false;
    packet_count = 0;
    latest_packet = zeros;
    history = [];
    prediction_horizon_ms = decimal 0 0;
    last_prediction_diagnostic_ns = pos 0;
  }

  -- The latest packet is the newest one of the history, once there is data.
  pub data IsCurrent (has_data : Bool) (latest : TrackingPacket Float)
      (history : List (HistorySample G)) : Type 0 where
    without_data : has_data ≡ false → history ≡ [] → IsCurrent has_data latest history
    with_data :
        (before : List (HistorySample G)) (now : ℤ)
        → has_data ≡ true
        → history ≡ before ++ (record { packet = latest; receive_time_ns = now } ∷ [])
        → IsCurrent has_data latest history

  unfoldable pub Inv : TrackingReceiver G → Type 0
  Inv t = (length t.history ≤ max_history_samples) × IsCurrent t.has_data t.latest_packet t.history

  length-kept_last_if :
      (b : Bool) (h : HistorySample G) (hs rest : List (HistorySample G))
      → ltb max_history_samples (suc (length hs)) ≡ b
      → length rest ≤ max_history_samples
      → length (if b then rest else h ∷ hs) ≤ max_history_samples
  length-kept_last_if true h hs rest e l = l
  length-kept_last_if false h hs rest e l = ground arith

  length-trim_history :
      (hs : List (HistorySample G)) → length (trim_history G hs) ≤ max_history_samples
  unfolding trim_history
  length-trim_history [] = omega arith
  length-trim_history (h ∷ hs) =
      length-kept_last_if _ h hs (trim_history G hs) refl (length-trim_history hs)

  kept_last_if :
      (b : Bool) (h x : HistorySample G) (hs rest : List (HistorySample G))
      → (before : List (HistorySample G)) × (rest ≡ before ++ (x ∷ []))
      → (before : List (HistorySample G)) × ((if b then rest else h ∷ hs ++ (x ∷ []))
          ≡ before ++ (x ∷ []))
  kept_last_if true h x hs rest found = found
  kept_last_if false h x hs rest found = (h ∷ hs, refl)

  trim_history_last :
      (hs : List (HistorySample G)) (x : HistorySample G)
      → (before : List (HistorySample G)) × (trim_history G (hs ++ (x ∷ [])) ≡ before ++ (x ∷ []))
  unfolding trim_history
  trim_history_last [] x = ([], refl)
  trim_history_last (h ∷ hs) x =
      kept_last_if _ h x hs (trim_history G (hs ++ (x ∷ []))) (trim_history_last hs x)

  store_packet-Inv :
      (t : TrackingReceiver G) (packet : TrackingPacket Float) (now : ℤ)
      → Inv (store_packet G t packet now)
  unfolding store_packet Inv
  store_packet-Inv t packet now =
      let kept =
        trim_history_last t.history
          (record { packet = normalized_packet G t packet; receive_time_ns = now }) in
      (length-trim_history (t.history ++ (_ ∷ [])), with_data kept.0 now refl kept.1)

  if_Inv : (b : Bool) (t t' : TrackingReceiver G) → Inv t → Inv t' → Inv (if b then t else t')
  if_Inv true t t' i i' = i
  if_Inv false t t' i i' = i'

  receive_packet-Inv :
      (read : List ℕ → TrackingPacket Float) (t : TrackingReceiver G) (bytes : List ℕ) (now : ℤ)
      → Inv t
      → Inv (receive_packet G read t bytes now)
  unfolding receive_packet
  receive_packet-Inv read t bytes now i = if_Inv _ t _ i (if_Inv _ t _ i (store_packet-Inv t _ now))

  inject_packet-Inv :
      (read : List ℕ → TrackingPacket Float) (t : TrackingReceiver G) (bytes : List ℕ) (now : ℤ)
      → Inv t
      → Inv (inject_packet G read t bytes now)
  unfolding inject_packet
  inject_packet-Inv read t bytes now i = if_Inv _ t _ i (store_packet-Inv t _ now)

  diagnosed-Inv : (t : TrackingReceiver G) (now : ℤ) → Inv t → Inv (diagnosed G t now)
  unfolding diagnosed
  diagnosed-Inv t now i =
      if_Inv _ (record t { last_prediction_diagnostic_ns = now }) t (unfold Inv in i) i

  PairInv : Option (TrackingPacket Float) × TrackingReceiver G → Type 0
  PairInv r = Inv r.1

  far-Inv :
      (b : Bool) (t : TrackingReceiver G) (now : ℤ) (p q : TrackingPacket Float)
      → Inv t
      → PairInv (if b then (some p, t) else (some q, diagnosed G t now))
  unfolding PairInv
  far-Inv true t now p q i = i
  far-Inv false t now p q i = diagnosed-Inv t now i

  predicted_from-Inv :
      (o : Option (Option (HistorySample G) × HistorySample G)) (t : TrackingReceiver G) (now : ℤ)
      → Inv t
      → PairInv (predicted_from G o t now)
  unfolding predicted_from PairInv
  predicted_from-Inv none t now i = i
  predicted_from-Inv (some (none, current)) t now i = i
  predicted_from-Inv (some (some previous, current)) t now i = far-Inv _ t now _ _ i

  predicts_if :
      (b : Bool) (t : TrackingReceiver G) (now : ℤ)
      (r : Option (TrackingPacket Float) × TrackingReceiver G)
      → Inv t
      → PairInv r
      → PairInv (if b then r else (none, t))
  unfolding PairInv
  predicts_if true t now r i i' = i'
  predicts_if false t now r i i' = i

  predicts-Inv : (t : TrackingReceiver G) (now : ℤ) → Inv t → Inv (get_predicted_pose G t now).1
  unfolding get_predicted_pose PairInv
  predicts-Inv t now i =
      predicts_if t.has_data t now _ i (predicted_from-Inv (last_two G t.history) t now i)

  StartInv : Option (Bool × TrackingReceiver G) → Type 0
  StartInv none = Unit
  StartInv (some (ok, t)) = Inv t

  start_if :
      (b : Bool) (t : TrackingReceiver G) → Inv t → StartInv (if b then none else some (true, t))
  unfolding StartInv
  start_if true t i = tt
  start_if false t i = i

  start-Inv :
      (t : TrackingReceiver G) (socket : Option ℕ) (bound : Bool)
      → Inv t
      → StartInv (start G t socket bound)
  unfolding start Inv StartInv
  start-Inv t none bound i = i
  start-Inv t (some fd) false i = i
  start-Inv t (some fd) true i = start_if t.receive_thread _ i

  RunInv : Option (TrackingReceiver G) → Type 0
  RunInv none = Unit
  RunInv (some t) = Inv t

  started :
      (o : Option (Bool × TrackingReceiver G))
      (next : TrackingReceiver G → Option (TrackingReceiver G))
      → StartInv o
      → ((t : TrackingReceiver G) → Inv t → RunInv (next t))
      → RunInv
          (elim o as (λ x. Option (TrackingReceiver G)) [ none ↦ none | some (ok, t) ↦ next t ])
  unfolding StartInv RunInv
  started none next i n = tt
  started (some (ok, t)) next i n = n t i

  run-Inv :
      (read : List ℕ → TrackingPacket Float) (t : TrackingReceiver G) (cs : List Call)
      → Inv t
      → RunInv (run read t cs)
  unfolding run RunInv Inv
  run-Inv read t [] i = i
  run-Inv read t (starts socket bound ∷ cs) i =
      started (start G t socket bound) (λ t'. run read t' cs) (start-Inv t socket bound i)
        (λ t' i'. run-Inv read t' cs i')
  run-Inv read t (stops ∷ cs) i = run-Inv read (stop G t) cs (unfold stop in i)
  run-Inv read t (receives bytes now ∷ cs) i =
      run-Inv read _ cs (receive_packet-Inv read t bytes now i)
  run-Inv read t (injects bytes now ∷ cs) i =
      run-Inv read _ cs (inject_packet-Inv read t bytes now i)
  run-Inv read t (sets_horizon horizon ∷ cs) i =
      run-Inv read (set_prediction_horizon_ms G t horizon) cs
        (unfold set_prediction_horizon_ms in i)
  run-Inv read t (predicts now ∷ cs) i = run-Inv read _ cs (predicts-Inv t now i)

  -- After any calls on a new object, if the process still runs, the history holds at most eight
  -- samples, and it is empty as long as there is no data, and ends with the latest packet after
  -- that.
  pub run-idle-Inv :
      (read : List ℕ → TrackingPacket Float) (zeros : TrackingPacket Float) (cs : List Call)
      (t : TrackingReceiver G)
      → run read (idle zeros) cs ≡ some t
      → Inv t
  unfolding Inv RunInv idle
  run-idle-Inv read zeros cs t e =
      subst RunInv e (run-Inv read (idle zeros) cs (omega arith, without_data refl refl))

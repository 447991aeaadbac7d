-- ===== src/Stream/Bounds.antt =====
-- NetworkReceiver.cpp, ReassembleFrame: any packets in any order, as a network may deliver them.
use open_xr_osx.Base.{
  ℕ, zero, suc, ◌+◌, ◌≡◌, refl, sym, ap, subst, ◌∙◌, Bool, true, false, not, ◌&&◌, ◌||◌, arith,
  Option, none, some, List, [], ◌∷◌, All, length, length-set, length-replicate, get_or, ltb, leb,
  ◌==◌, if◌then◌else◌,
}
use open_xr_osx.Fec.{group_count}
use open_xr_osx.Protocol.{u32, video_flag_fec, has_flag, Packet}
use open_xr_osx.Receiver.{
  PendingFrame, Receiver, Event, store_recovered, recover_group, recover_groups, try_fec_recovery,
  deliver, reset_pending, store_parity, receive_parity, store_data, store_packet, is_new_frame,
  is_partial, store_after, send_nack, begin_frame, reassemble_frame, receive_all,
}

-- The vectors are those of a frame of `n` packets.
pub record Sizes (n : ℕ) (f : PendingFrame) : Type 0 where
  pub total : f.total_packets ≡ n
  pub marks : length f.packet_received ≡ n
  pub slots : length f.slots ≡ n
  pub sizes : length f.packet_sizes ≡ n
  pub groups : f.fec_group_count ≡ group_count n
  pub parity_marks : length f.fec_received ≡ group_count n
  pub parity_slots : length f.fec_slots ≡ group_count n

reset_pending-Sizes : (p : Packet) → Sizes p.header.total_packets (reset_pending p)
unfolding reset_pending
reset_pending-Sizes p = record {
  total = refl;
  marks = length-replicate p.header.total_packets false;
  slots = length-replicate p.header.total_packets _;
  sizes = length-replicate p.header.total_packets 0;
  groups = refl;
  parity_marks = length-replicate (group_count p.header.total_packets) false;
  parity_slots = length-replicate (group_count p.header.total_packets) _;
}

module _ (n : ℕ) (f : PendingFrame) (h : Sizes n f) where
  store_recovered-Sizes : (i : ℕ) (bytes : List ℕ) → Sizes n (store_recovered f i bytes)
  unfolding store_recovered
  store_recovered-Sizes i bytes = record {
    total = h.total;
    marks = length-set f.packet_received i true ∙ h.marks;
    slots = length-set f.slots i bytes ∙ h.slots;
    sizes = length-set f.packet_sizes i _ ∙ h.sizes;
    groups = h.groups;
    parity_marks = h.parity_marks;
    parity_slots = h.parity_slots;
  }

  store_parity-Sizes : (g : ℕ) (payload : List ℕ) → Sizes n (store_parity f g payload)
  unfolding store_parity
  store_parity-Sizes g payload = record {
    total = h.total;
    marks = h.marks;
    slots = h.slots;
    sizes = h.sizes;
    groups = h.groups;
    parity_marks = length-set f.fec_received g true ∙ h.parity_marks;
    parity_slots = length-set f.fec_slots g _ ∙ h.parity_slots;
  }

  store_data-Sizes : (i : ℕ) (payload : List ℕ) → Sizes n (store_data f i payload)
  unfolding store_data
  store_data-Sizes i payload = record {
    total = h.total;
    marks = length-set f.packet_received i true ∙ h.marks;
    slots = length-set f.slots i _ ∙ h.slots;
    sizes = length-set f.packet_sizes i _ ∙ h.sizes;
    groups = h.groups;
    parity_marks = h.parity_marks;
    parity_slots = h.parity_slots;
  }

module _ (total_of : ℕ → ℕ) where
  -- A data packet says as many packets as all data packets of its frame do.
  unfoldable pub IsConsistent : Packet → Type 0
  IsConsistent p =
      has_flag p.header.flags video_flag_fec ≡ false
      → p.header.total_packets ≡ total_of p.header.frame_index

  -- Of a frame that is being put together, the vectors have the sizes that its packets say.
  pub IsSized : PendingFrame → Type 0
  IsSized f = (f.total_packets == 0) ≡ false → Sizes (total_of f.frame_index) f

  SizedAfter : {A : Type 0} → Receiver × A → Type 0
  SizedAfter x = IsSized x.0.pending

  Stored : Option (Receiver × List Event) → Type 0
  Stored none = ⊥
  Stored (some (r, events)) = IsSized r.pending

  keep : {A : Type 0} (r : Receiver) (a : A) → IsSized r.pending → SizedAfter (r, a)
  unfolding SizedAfter
  keep r a h = h

  kept : (r : Receiver) (events : List Event) → IsSized r.pending → Stored (some (r, events))
  unfolding Stored
  kept r events h = h

  kept_after : (x : Receiver × List Event) → SizedAfter x → Stored (some x)
  unfolding Stored SizedAfter
  kept_after (r, events) h = h

  if_SizedAfter :
      {A : Type 0} (b : Bool) (x y : Receiver × A)
      → SizedAfter x
      → SizedAfter y
      → SizedAfter (if b then x else y)
  if_SizedAfter true x y h k = h
  if_SizedAfter false x y h k = k

  if_Stored :
      (b : Bool) (x y : Option (Receiver × List Event))
      → (b ≡ true → Stored x)
      → (b ≡ false → Stored y)
      → Stored (if b then x else y)
  if_Stored true x y h k = h refl
  if_Stored false x y h k = k refl

  store_recovered-IsSized :
      (f : PendingFrame) (i : ℕ) (bytes : List ℕ) → IsSized f → IsSized (store_recovered f i bytes)
  unfolding store_recovered IsSized
  store_recovered-IsSized f i bytes h e = store_recovered-Sizes _ f (h e) i bytes

  recover_group-IsSized :
      (r : Receiver) (g : ℕ) → IsSized r.pending → SizedAfter (recover_group r g)
  unfolding recover_group SizedAfter
  recover_group-IsSized r g h =
      if_SizedAfter _ (r, false) _ h (store_recovered-IsSized r.pending _ _ h)

  recover_groups-IsSized :
      (rounds g : ℕ) (r : Receiver) (recovered : Bool)
      → IsSized r.pending
      → SizedAfter (recover_groups rounds g r recovered)
  unfolding recover_groups SizedAfter
  recover_groups-IsSized zero g r recovered h = h
  recover_groups-IsSized (suc rounds) g r recovered h =
      recover_groups-IsSized rounds (g + 1) (recover_group r g).0 _ (recover_group-IsSized r g h)

  try_fec_recovery-IsSized : (r : Receiver) → IsSized r.pending → SizedAfter (try_fec_recovery r)
  unfolding try_fec_recovery SizedAfter
  try_fec_recovery-IsSized r h =
      if_SizedAfter _ (r, false) _ h (recover_groups-IsSized _ 0 r false h)

  deliver-IsSized : (r : Receiver) (now : ℕ) → SizedAfter (deliver r now)
  unfolding deliver SizedAfter IsSized
  deliver-IsSized r now e = absurd (ground arith)

  store_parity-IsSized :
      (f : PendingFrame) (g : ℕ) (payload : List ℕ) → IsSized f → IsSized (store_parity f g payload)
  unfolding store_parity IsSized
  store_parity-IsSized f g payload h e = store_parity-Sizes _ f (h e) g payload

  -- The group of a parity packet that is stored is within the vectors.
  receive_parity-Stored :
      (r : Receiver) (now : ℕ) (p : Packet) → IsSized r.pending → Stored (receive_parity r now p)
  unfolding receive_parity IsSized
  receive_parity-Stored r now p h =
      let f = r.pending in
      let g = p.header.packet_index in
      let r' : Receiver = record r { pending = store_parity f g p.payload } in
      let stored = store_parity-IsSized f g p.payload h in
      let (recovered, complete) = try_fec_recovery r' in
      if_Stored (not ((p.header.frame_index == f.frame_index) && ltb 0 f.total_packets)) _ _
        (λ _. kept r [] h)
        (λ current.
          let sizes = h (ground (arith, current)) in
          if_Stored (not (ltb g f.fec_group_count)) _ _ (λ _. kept r [] h)
            (λ within.
              if_Stored (not (ltb g (length f.fec_received))) _ _
                (λ out. absurd (ground (arith, within, out, sizes.groups, sizes.parity_marks)))
                (λ _.
                  if_Stored (get_or f.fec_received g false) _ _ (λ _. kept r [] h)
                    (λ _.
                      if_Stored (not (ltb g (length f.fec_slots))) _ _
                        (λ out.
                          absurd (ground (arith, within, out, sizes.groups, sizes.parity_slots)))
                        (λ _.
                          if_Stored (leb f.total_packets (f.received_packets + 1)) _ _
                            (λ _.
                              if_Stored complete _ _
                                (λ _.
                                  kept_after (deliver recovered now)
                                    (deliver-IsSized recovered now))
                                (λ _.
                                  kept recovered []
                                    (unfold SizedAfter in try_fec_recovery-IsSized r' stored)))
                            (λ _. kept r' [] stored))))))

  store_data-IsSized :
      (f : PendingFrame) (i : ℕ) (payload : List ℕ) → IsSized f → IsSized (store_data f i payload)
  unfolding store_data IsSized
  store_data-IsSized f i payload h e = store_data-Sizes _ f (h e) i payload

  -- The index of a packet that is stored is within the vectors.
  store_packet-Stored :
      (r : Receiver) (now : ℕ) (p : Packet)
      → IsSized r.pending
      → Sizes p.header.total_packets r.pending
      → Stored (store_packet r now p)
  unfolding store_packet
  store_packet-Stored r now p h e =
      let f' = store_data r.pending p.header.packet_index p.payload in
      let r' : Receiver = record r { pending = f' } in
      let i = p.header.packet_index in
      if_Stored (not (ltb i p.header.total_packets)) _ _ (λ _. kept r [] h)
        (λ within.
          if_Stored (not (ltb i (length r.pending.packet_received))) _ _
            (λ outside. absurd (ground (arith, within, outside, e.marks)))
            (λ _.
              if_Stored (get_or r.pending.packet_received i false) _ _ (λ _. kept r [] h)
                (λ _.
                  if_Stored
                    (not (ltb i (length r.pending.slots))
                      || not (ltb i (length r.pending.packet_sizes)))
                    _ _ (λ outside. absurd (ground (arith, within, outside, e.slots, e.sizes)))
                    (λ _.
                      if_Stored (f'.received_packets == f'.total_packets) _ _
                        (λ _. kept_after (deliver r' now) (deliver-IsSized r' now))
                        (λ _. kept r' [] (store_data-IsSized r.pending i p.payload h))))))

  store_after-Stored :
      (events : List Event) (x : Option (Receiver × List Event))
      → Stored x
      → Stored (store_after events x)
  unfolding store_after Stored
  store_after-Stored events none h = h
  store_after-Stored events (some (r, later)) h = h

  -- A packet that is the first one of a frame.
  fresh-Stored :
      (r : Receiver) (now : ℕ) (p : Packet)
      → p.header.total_packets ≡ total_of p.header.frame_index
      → Stored (store_packet (record r { pending = reset_pending p }) now p)
  unfolding reset_pending IsSized
  fresh-Stored r now p e =
      let sizes = reset_pending-Sizes p in
      store_packet-Stored (record r { pending = reset_pending p }) now p
        (λ _. subst (λ n. Sizes n (reset_pending p)) e sizes) sizes

  begin_frame-Stored :
      (r : Receiver) (now : ℕ) (p : Packet)
      → p.header.total_packets ≡ total_of p.header.frame_index
      → Stored (begin_frame r now p)
  unfolding begin_frame
  begin_frame-Stored r now p e =
      let (recovered, complete) = try_fec_recovery r in
      let nacked =
        (send_nack recovered recovered.pending.frame_index recovered.pending.total_packets).0 in
      if_Stored (is_partial r.pending) _ _
        (λ _.
          if_Stored complete _ _
            (λ _. kept_after (deliver recovered now) (deliver-IsSized recovered now))
            (λ _. store_after-Stored _ _ (
              fresh-Stored (record nacked { frames_dropped = u32 (nacked.frames_dropped + 1) }) now
                p e)))
        (λ _. fresh-Stored r now p e)

  same_frame :
      (r : Receiver) (p : Packet)
      → is_new_frame r p ≡ false
      → (p.header.frame_index ≡ r.pending.frame_index) × ((r.pending.total_packets == 0) ≡ false)
  unfolding is_new_frame
  same_frame r p e = (ground arith, ground arith)

  reassemble_frame-Stored :
      (r : Receiver) (now : ℕ) (p : Packet)
      → IsSized r.pending
      → IsConsistent p
      → Stored (reassemble_frame r now p)
  unfolding reassemble_frame IsSized IsConsistent
  reassemble_frame-Stored r now p h c =
      if_Stored (has_flag p.header.flags video_flag_fec) _ _ (λ _. receive_parity-Stored r now p h)
        (λ data_packet.
          if_Stored (is_new_frame r p) _ _ (λ _. begin_frame-Stored r now p (c data_packet))
            (λ same.
              let (frame, some_packets) = same_frame r p same in
              store_packet-Stored r now p h (
                subst (λ n. Sizes n r.pending) (ap total_of (sym frame) ∙ sym (c data_packet))
                  (h some_packets))))

  -- The rest of the packets, after one.
  then_receive :
      (o : Option (Receiver × List Event)) (next : Receiver → Option (Receiver × List Event))
      → Stored o
      → ((r : Receiver) → IsSized r.pending → Stored (next r))
      → Stored (elim o as (λ x. Option (Receiver × List Event)) [
        | none ↦ none
        | some (r, events) ↦ store_after events (next r)
      ])
  unfolding Stored
  then_receive none next h n = h
  then_receive (some (r, events)) next h n = store_after-Stored events (next r) (n r h)

  receive_all-Stored :
      (ps : List Packet) (r : Receiver) (now : ℕ)
      → IsSized r.pending
      → All IsConsistent ps
      → Stored (receive_all r now ps)
  unfolding receive_all
  receive_all-Stored [] r now h c = kept r [] h
  receive_all-Stored (p ∷ ps) r now h (c, cs) =
      then_receive (reassemble_frame r now p) (λ r'. receive_all r' now ps)
        (reassemble_frame-Stored r now p h c) (λ r' h'. receive_all-Stored ps r' now h' cs)

  result_of :
      (o : Option (Receiver × List Event))
      → Stored o
      → (r : Receiver) × (events : List Event) × (o ≡ some (r, events)) × IsSized r.pending
  unfolding Stored
  result_of none h = absurd h
  result_of (some (r, events)) h = (r, events, refl, h)

  -- From a receiver that waits for a frame, packets of any number of frames, in any order, some of
  -- them lost or doubled, never make ReassembleFrame go past the end of its vectors where it stores
  -- a data packet or a parity packet, as long as the data packets of a frame agree on how many they
  -- are; the parity packets are arbitrary. In the end the vectors of a frame that is still being put
  -- together, those of the packets and those of the groups, have the sizes for as many packets.
  pub receive_all_within :
      (r : Receiver) (now : ℕ) (ps : List Packet)
      → r.pending.total_packets ≡ 0
      → All IsConsistent ps
      → (r' : Receiver) × (events : List Event) × (receive_all r now ps ≡ some (r', events))
        × IsSized r'.pending
  unfolding IsSized
  receive_all_within r now ps e c =
      result_of (receive_all r now ps)
        (receive_all-Stored ps r now (λ some_packets. absurd (ground arith)) c)

-- ===== src/Stream/State.antt =====
-- NetworkReceiver.cpp: what the pending frame holds while a frame comes in from which one packet may
-- be missing, and what one more packet does to it.
use open_xr_osx.Base.{
  ℕ, zero, suc, ◌+◌, ◌-◌, ◌*◌, ◌^◌, ◌≤◌, ◌<◌, ◌≡◌, ◌≢◌, ◌⊎◌, inl, inr, refl, sym, ap, ◌∙◌, true,
  false, List, [], ◌++◌, min, arith, length, get_or, take, drop, set, replicate, length-replicate,
  length-set, get_or-set_self, get_or-set_ne, get_or-replicate_same, ℕ_discrete, if◌then◌else◌, ltb,
  ◌==◌, get_or-set, subst,
}
use open_xr_osx.Protocol.{u16, u32, max_packet_payload, fec_group_size}
use open_xr_osx.Fec.{encode, group_count}
use open_xr_osx.Sender.{FrameInfo, data_packet}
use open_xr_osx.Receiver.{PendingFrame, write_slot, store_data, store_parity, reset_pending}
use open_xr_osx.Stream.Pieces.{piece, pieces, length-piece-le, take_all_eq, write_full}
use open_xr_osx.Fec.Recovery.{length-encode}

-- The number of packets in group `g`.
unfoldable pub group_size : ℕ → ℕ → ℕ
group_size total g = min (g * fec_group_size + fec_group_size) total - g * fec_group_size

-- The packets below `i` have come, but for `lost`, and the parity packets of `p` groups.
pub record Holds (info : FrameInfo) (bytes : List ℕ) (lost i p : ℕ) (f : PendingFrame)
    : Type 0 where
  pub frame : f.frame_index ≡ info.frame_index
  pub total : f.total_packets ≡ info.total_packets
  pub time : f.timestamp_ns ≡ info.timestamp_ns
  pub received : f.received_packets + (if ltb lost i then 1 else 0) ≡ i
  pub groups : f.fec_group_count ≡ group_count info.total_packets
  pub slot_count : length f.slots ≡ info.total_packets
  pub mark_count : length f.packet_received ≡ info.total_packets
  pub size_count : length f.packet_sizes ≡ info.total_packets
  pub parity_mark_count : length f.fec_received ≡ group_count info.total_packets
  pub parity_slot_count : length f.fec_slots ≡ group_count info.total_packets
  pub present : (j : ℕ) → j < i → j ≢ lost → get_or f.packet_received j false ≡ true
  pub absent : (j : ℕ) → (i ≤ j) ⊎ (j ≡ lost) → get_or f.packet_received j false ≡ false
  pub size : (j : ℕ) → j < i → j ≢ lost → get_or f.packet_sizes j 0 ≡ length (piece bytes j)
  pub slot :
      (j : ℕ)
      → j < i
      → j ≢ lost
      → take (length (piece bytes j)) (get_or f.slots j []) ≡ piece bytes j
  pub with_parity : (g : ℕ) → g < p → get_or f.fec_received g false ≡ true
  pub without_parity : (g : ℕ) → p ≤ g → get_or f.fec_received g false ≡ false
  pub short_parity : (g : ℕ) → p ≤ g → length (get_or f.fec_slots g []) ≤ max_packet_payload
  pub parity :
      (g : ℕ)
      → g < p
      → get_or f.fec_slots g []
        ≡ encode (pieces bytes (g * fec_group_size) (group_size info.total_packets g))

ltb_step :
    (lost i n : ℕ)
    → i ≢ lost
    → n + (if ltb lost i then 1 else 0) ≡ i
    → n < 2 ^ 16
    → u32 (n + 1) + (if ltb lost (i + 1) then 1 else 0) ≡ i + 1
ltb_step lost i n ne h small = ground arith

module _ {info : FrameInfo} {bytes : List ℕ} {lost i p : ℕ} {f : PendingFrame} where
  pub store_data-Holds :
      info.total_packets < 2 ^ 16
      → i < info.total_packets
      → i ≢ lost
      → Holds info bytes lost i p f
      → Holds info bytes lost (i + 1) p (store_data f i (piece bytes i))
  unfolding store_data write_slot
  store_data-Holds small below kept h = record {
    frame = h.frame;
    total = h.total;
    time = h.time;
    received = ltb_step lost i f.received_packets kept h.received (omega (arith, h.received));
    groups = h.groups;
    slot_count = length-set f.slots i _ ∙ h.slot_count;
    mark_count = length-set f.packet_received i true ∙ h.mark_count;
    size_count = length-set f.packet_sizes i _ ∙ h.size_count;
    parity_mark_count = h.parity_mark_count;
    parity_slot_count = h.parity_slot_count;
    present = λ j lt ne. ground (arith, marks j, h.present j);
    absent = λ j out. ground (arith, marks j, h.absent j);
    size = λ j lt ne. ground (arith, sizes j, h.size j, length-piece-le bytes i);
    slot = λ j lt ne. slots j lt ne;
    with_parity = h.with_parity;
    without_parity = h.without_parity;
    short_parity = h.short_parity;
    parity = h.parity;
  }
    where
      marks :
          (j : ℕ)
          → get_or (set f.packet_received i true) j false
            ≡ (if i == j then true else get_or f.packet_received j false)
      marks j = get_or-set f.packet_received i j true false (omega (arith, h.mark_count))

      sizes :
          (j : ℕ)
          → get_or (set f.packet_sizes i (u16 (length (piece bytes i)))) j 0
            ≡ (if i == j then u16 (length (piece bytes i)) else get_or f.packet_sizes j 0)
      sizes j = get_or-set f.packet_sizes i j _ 0 (omega (arith, h.size_count))

      written : List (List ℕ)
      written = set f.slots i (piece bytes i ++ drop (length (piece bytes i)) (get_or f.slots i []))

      slots :
          (j : ℕ)
          → j < i + 1
          → j ≢ lost
          → take (length (piece bytes j)) (get_or written j []) ≡ piece bytes j
      slots j lt ne = elim (ℕ_discrete i j) [
        | yes e ↦
            subst (λ j. take (length (piece bytes j)) (get_or written j []) ≡ piece bytes j) e
              (ap (take (length (piece bytes i)))
                  (get_or-set_self f.slots i _ [] (omega (arith, h.slot_count)))
                ∙ take_all_eq _ (piece bytes i) _ refl)
        | no ne' ↦
            ap (take (length (piece bytes j))) (get_or-set_ne f.slots i j _ [] ne')
            ∙ h.slot j (omega arith) ne
      ]

  pub store_parity-Holds :
      (payload : List ℕ)
      → p < group_count info.total_packets
      → payload ≡ encode (pieces bytes (p * fec_group_size) (group_size info.total_packets p))
      → Holds info bytes lost i p f
      → Holds info bytes lost i (p + 1) (store_parity f p payload)
  unfolding store_parity write_slot
  store_parity-Holds payload below same h = record {
    frame = h.frame;
    total = h.total;
    time = h.time;
    received = h.received;
    groups = h.groups;
    slot_count = h.slot_count;
    mark_count = h.mark_count;
    size_count = h.size_count;
    parity_mark_count = length-set f.fec_received p true ∙ h.parity_mark_count;
    parity_slot_count = length-set f.fec_slots p _ ∙ h.parity_slot_count;
    present = h.present;
    absent = h.absent;
    size = h.size;
    slot = h.slot;
    with_parity = λ g lt. ground (arith, marks g, h.with_parity g);
    without_parity = λ g le. ground (arith, marks g, h.without_parity g);
    short_parity = λ g le.
        subst (λ s. length s ≤ max_packet_payload)
          (sym (get_or-set_ne f.fec_slots p g _ [] (λ e. omega arith)))
          (h.short_parity g (omega arith));
    parity = λ g lt. elim (ℕ_discrete p g) [
      | yes e ↦
          subst
            (λ g.
              get_or (set f.fec_slots p written) g []
              ≡ encode (pieces bytes (g * fec_group_size) (group_size info.total_packets g)))
            e
            (get_or-set_self f.fec_slots p _ [] (omega (arith, h.parity_slot_count)) ∙ whole ∙ same)
      | no ne ↦ get_or-set_ne f.fec_slots p g _ [] ne ∙ h.parity g (omega arith)
    ];
  }
    where
      marks :
          (j : ℕ)
          → get_or (set f.fec_received p true) j false
            ≡ (if p == j then true else get_or f.fec_received j false)
      marks j = get_or-set f.fec_received p j true false (omega (arith, h.parity_mark_count))

      written : List ℕ
      written =
          take max_packet_payload payload
          ++ drop (length (take max_packet_payload payload)) (get_or f.fec_slots p [])

      whole : written ≡ payload
      whole =
          write_full max_packet_payload payload _ (ap length same ∙ length-encode _)
            (h.short_parity p (omega arith))

-- A lost packet changes nothing.
pub lost-Holds :
    {info : FrameInfo} {bytes : List ℕ} {i p : ℕ} {f : PendingFrame}
    → Holds info bytes i i p f
    → Holds info bytes i (i + 1) p f
lost-Holds {i = i} {f = f} h = record {
  frame = h.frame;
  total = h.total;
  time = h.time;
  received = ground (arith, h.received);
  groups = h.groups;
  slot_count = h.slot_count;
  mark_count = h.mark_count;
  size_count = h.size_count;
  parity_mark_count = h.parity_mark_count;
  parity_slot_count = h.parity_slot_count;
  present = λ j lt ne. h.present j (omega arith) ne;
  absent = λ j out. h.absent j (elim out [ inl le ↦ inl (omega arith) | inr e ↦ inr e ]);
  size = λ j lt ne. h.size j (omega arith) ne;
  slot = λ j lt ne. h.slot j (omega arith) ne;
  with_parity = h.with_parity;
  without_parity = h.without_parity;
  short_parity = h.short_parity;
  parity = h.parity;
}

length-get_or-replicate : (n g : ℕ) (s : List ℕ) → length (get_or (replicate n s) g []) ≤ length s
unfolding replicate
length-get_or-replicate zero g s = omega arith
length-get_or-replicate (suc n) zero s = omega arith
length-get_or-replicate (suc n) (suc g) s = length-get_or-replicate n g s

-- What a new frame begins with.
pub reset_pending-Holds :
    (info : FrameInfo) (bytes : List ℕ) (lost j : ℕ) (payload : List ℕ)
    → Holds info bytes lost 0 0 (reset_pending (data_packet info j payload))
unfolding reset_pending data_packet
reset_pending-Holds info bytes lost j payload = record {
  frame = refl;
  total = refl;
  time = refl;
  received = ground arith;
  groups = refl;
  slot_count = length-replicate info.total_packets _;
  mark_count = length-replicate info.total_packets _;
  size_count = length-replicate info.total_packets _;
  parity_mark_count = length-replicate (group_count info.total_packets) _;
  parity_slot_count = length-replicate (group_count info.total_packets) _;
  present = λ j lt ne. absurd (omega arith);
  absent = λ j out. get_or-replicate_same info.total_packets j false;
  size = λ j lt ne. absurd (omega arith);
  slot = λ j lt ne. absurd (omega arith);
  with_parity = λ g lt. absurd (omega arith);
  without_parity = λ g le. get_or-replicate_same (group_count info.total_packets) g false;
  short_parity = λ g le. omega (
    arith,
    length-get_or-replicate (group_count info.total_packets) g (replicate max_packet_payload 0),
    length-replicate {A = ℕ} max_packet_payload 0,
  );
  parity = λ g lt. absurd (omega arith);
}

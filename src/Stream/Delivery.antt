-- ===== src/Stream/Delivery.antt =====
-- NetworkReceiver.cpp, the block `deliver:`: the bytes that are handed to the decoder.
use open_xr_osx.Base.{
  ℕ, zero, suc, ◌+◌, ◌-◌, ◌*◌, ◌≤◌, ◌<◌, ◌≡◌, ◌≢◌, inl, inr, refl, sym, ap, ap₂, ◌∙◌, true, false,
  List, [], ◌∷◌, ◌++◌, arith, length, get_or, take, set, dec_lt, ltb, ◌==◌, if◌then◌else◌,
  ℕ_discrete, Bool-cases, get_or-set_self, get_or-set_ne, subst, replicate, append-nil,
  append_assoc,
}
use open_xr_osx.Protocol.{max_packet_payload}
use open_xr_osx.Fec.Recovery.{pad, length-pad}
use open_xr_osx.Sender.{FrameInfo}
use open_xr_osx.Receiver.{
  PendingFrame, Receiver, nal, store_recovered, compact, total_size, deliver,
}
use open_xr_osx.Stream.Pieces.{
  piece, joined, joined_from, length-piece_full, take_over, length-piece-le, length-piece,
}
use open_xr_osx.Stream.State.{Holds}
use open_xr_osx.Stream.Recovered.{with_recovered}

compact_pieces :
    (bytes : List ℕ) (f : PendingFrame) (rounds i : ℕ)
    → ((j : ℕ)
        → i ≤ j
        → j < i + rounds
        → take (get_or f.packet_sizes j 0) (get_or f.slots j []) ≡ piece bytes j)
    → compact rounds i f ≡ joined bytes i rounds
unfolding compact joined
compact_pieces bytes f zero i all = refl
compact_pieces bytes f (suc rounds) i all =
    ap₂ ◌++◌ (all i (omega arith) (omega arith))
      (compact_pieces bytes f rounds (i + 1) (λ j le lt. all j (omega arith) (omega arith)))

compact_last :
    (f : PendingFrame) (rounds i k : ℕ)
    → k ≡ i + rounds
    → compact (suc rounds) i f
      ≡ compact rounds i f ++ take (get_or f.packet_sizes k 0) (get_or f.slots k [])
unfolding compact
compact_last f zero i k e =
    append-nil _ ∙ ap (λ j. take (get_or f.packet_sizes j 0) (get_or f.slots j [])) (omega arith)
compact_last f (suc rounds) i k e =
    ap (λ r. take (get_or f.packet_sizes i 0) (get_or f.slots i []) ++ r)
      (compact_last f rounds (i + 1) k (omega arith))
    ∙ sym (
        append_assoc (take (get_or f.packet_sizes i 0) (get_or f.slots i []))
          (compact rounds (i + 1) f) (take (get_or f.packet_sizes k 0) (get_or f.slots k [])))

joined_last :
    (bytes : List ℕ) (rounds i k : ℕ)
    → k ≡ i + rounds
    → joined bytes i (suc rounds) ≡ joined bytes i rounds ++ piece bytes k
unfolding joined
joined_last bytes zero i k e = append-nil _ ∙ ap (piece bytes) (omega arith)
joined_last bytes (suc rounds) i k e =
    ap (λ r. piece bytes i ++ r) (joined_last bytes rounds (i + 1) k (omega arith))
    ∙ sym (append_assoc (piece bytes i) (joined bytes (i + 1) rounds) (piece bytes k))

pad_full : (n : ℕ) (p : List ℕ) → length p ≡ n → pad n p ≡ p
unfolding pad replicate
pad_full n p h = ap (λ k. p ++ replicate k 0) none_left ∙ append-nil p
  where
    none_left : n - length p ≡ 0
    none_left = omega arith

-- The zeros behind a recovered last packet.
unfoldable pub padding : ℕ → ℕ → List ℕ → ℕ
padding lost total bytes =
    if lost + 1 == total then total * max_packet_payload - length bytes else 0

joined_all :
    (bytes : List ℕ) (count : ℕ)
    → length bytes ≤ count * max_packet_payload
    → joined bytes 0 count ≡ bytes
joined_all bytes count fits = joined_from bytes 0 count (omega arith)

piece_only : (bytes : List ℕ) → length bytes ≤ max_packet_payload → piece bytes 0 ≡ bytes
unfolding piece
piece_only bytes fits = take_over max_packet_payload bytes fits

total_size_one : (f : PendingFrame) → total_size 1 0 f ≡ get_or f.packet_sizes 0 0
unfolding total_size
total_size_one f = omega arith

module _ {info : FrameInfo} {bytes : List ℕ} {lost p : ℕ} {f : PendingFrame}
    (h : Holds info bytes lost info.total_packets p f) where
  held :
      (j : ℕ)
      → j < info.total_packets
      → j ≢ lost
      → take (get_or f.packet_sizes j 0) (get_or f.slots j []) ≡ piece bytes j
  held j lt ne = ap (λ n. take n (get_or f.slots j [])) (h.size j lt ne) ∙ h.slot j lt ne

  held_other :
      (recovered : List ℕ)
      → (j : ℕ) → j < info.total_packets
      → j ≢ lost
      → take
          (get_or (set f.packet_sizes lost max_packet_payload) j 0)
          (get_or (set f.slots lost recovered) j [])
        ≡ piece bytes j
  held_other recovered j lt ne =
      ap₂ take (get_or-set_ne f.packet_sizes lost j max_packet_payload 0 (λ e. ne (sym e)))
        (get_or-set_ne f.slots lost j recovered [] (λ e. ne (sym e)))
      ∙ held j lt ne

  held_recovered :
      (recovered : List ℕ)
      → lost < info.total_packets
      → length recovered ≤ max_packet_payload
      → take
          (get_or (set f.packet_sizes lost max_packet_payload) lost 0)
          (get_or (set f.slots lost recovered) lost [])
        ≡ recovered
  held_recovered recovered below short =
      ap₂ take
        (get_or-set_self f.packet_sizes lost max_packet_payload 0 (omega (arith, h.size_count)))
        (get_or-set_self f.slots lost recovered [] (omega (arith, h.slot_count)))
      ∙ take_over max_packet_payload recovered short

  -- The text with the recovered packet in it.
  compact_recovered :
      lost < info.total_packets
      → length bytes ≤ info.total_packets * max_packet_payload
      → info.total_packets * max_packet_payload < length bytes + max_packet_payload
      → compact info.total_packets 0
          (store_recovered f lost (pad max_packet_payload (piece bytes lost)))
        ≡ bytes ++ replicate (padding lost info.total_packets bytes) 0
  unfolding store_recovered padding pad replicate
  compact_recovered below fits full = elim (dec_lt (lost + 1) info.total_packets) [
    | yes inner ↦
        compact_pieces bytes f' info.total_packets 0 (λ j le lt. all_held inner j (omega arith))
        ∙ joined_all bytes info.total_packets fits
        ∙ sym (append-nil bytes)
        ∙ ap (λ k. bytes ++ replicate k 0) (sym (no_padding inner))
    | no last ↦
        ap (λ n. compact n 0 f') (is_last last)
        ∙ compact_last f' lost 0 lost (omega arith)
        ∙ ap₂ ◌++◌
            (compact_pieces bytes f' lost 0
              (λ j le lt. held_other recovered j (omega arith) (λ e. omega arith)))
            (held_recovered recovered below short)
        ∙ sym (
            append_assoc (joined bytes 0 lost) (piece bytes lost)
              (replicate (max_packet_payload - length (piece bytes lost)) 0))
        ∙ ap₂ (λ bs k. bs ++ replicate k 0)
            (sym (joined_last bytes lost 0 lost (omega arith))
              ∙ joined_all bytes (suc lost) (omega (arith, is_last last)))
            (the_padding last)
  ]
    where
      recovered : List ℕ
      recovered = pad max_packet_payload (piece bytes lost)

      f' : PendingFrame
      f' = store_recovered f lost recovered

      short : length recovered ≤ max_packet_payload
      short =
          omega
            (arith, length-pad max_packet_payload (piece bytes lost) (length-piece-le bytes lost))

      is_last : ¬ (lost + 1 < info.total_packets) → info.total_packets ≡ suc lost
      is_last last = omega arith

      no_padding : lost + 1 < info.total_packets → padding lost info.total_packets bytes ≡ 0
      no_padding inner = ground arith

      the_padding :
          ¬ (lost + 1 < info.total_packets)
          → max_packet_payload - length (piece bytes lost) ≡ padding lost info.total_packets bytes
      the_padding last = ground (arith, length-piece bytes lost)

      all_held :
          lost + 1 < info.total_packets
          → (j : ℕ) → j < info.total_packets
          → take
              (get_or (set f.packet_sizes lost max_packet_payload) j 0)
              (get_or (set f.slots lost recovered) j [])
            ≡ piece bytes j
      all_held inner j lt = elim (ℕ_discrete lost j) [
        | yes e ↦
            subst
              (λ j.
                take (get_or (set f.packet_sizes lost max_packet_payload) j 0)
                  (get_or (set f.slots lost recovered) j [])
                ≡ piece bytes j)
              e
              (held_recovered recovered below short
                ∙ pad_full max_packet_payload (piece bytes lost)
                    (length-piece_full bytes lost (omega arith)))
        | no ne ↦ held_other recovered j lt (λ e. ne (sym e))
      ]

module _ (info : FrameInfo) (bytes : List ℕ) (lost p : ℕ) (r : Receiver) (now : ℕ) where
  -- A complete frame is handed over byte for byte.
  pub deliver_whole :
      0 < info.total_packets
      → length bytes ≤ info.total_packets * max_packet_payload
      → info.total_packets ≤ lost
      → Holds info bytes lost info.total_packets p r.pending
      → (deliver r now).1 ≡ nal bytes info.timestamp_ns now ∷ []
  unfolding deliver
  deliver_whole some_packets fits none_lost h =
      ap₂ (λ bs t. nal bs t now ∷ [])
        (elim (Bool-cases (ltb 1 r.pending.total_packets)) [
          | inl e ↦ rw e (
              ap (λ n. compact n 0 r.pending) h.total
              ∙ compact_pieces bytes r.pending info.total_packets 0
                  (λ j le lt. held h j (omega arith) (λ e'. omega arith))
              ∙ joined_all bytes info.total_packets fits)
          | inr e ↦ rw e (
              ap (λ n. take (total_size n 0 r.pending) (get_or r.pending.slots 0 [])) (one e)
              ∙ ap (λ n. take n (get_or r.pending.slots 0 [])) (total_size_one r.pending)
              ∙ held h 0 some_packets (λ e'. omega arith)
              ∙ piece_only bytes (omega (arith, one e, h.total)))
        ])
        h.time
    where
      one : ltb 1 r.pending.total_packets ≡ false → r.pending.total_packets ≡ 1
      one e = ground (arith, h.total)

  -- So is a frame with a recovered packet, but for zeros behind it if that was the last one.
  pub deliver_recovered :
      lost < info.total_packets
      → 1 < info.total_packets
      → length bytes ≤ info.total_packets * max_packet_payload
      → info.total_packets * max_packet_payload < length bytes + max_packet_payload
      → Holds info bytes lost info.total_packets p r.pending
      → (deliver (with_recovered bytes lost r) now).1
        ≡ nal (bytes ++ replicate (padding lost info.total_packets bytes) 0) info.timestamp_ns now
          ∷ []
  unfolding deliver store_recovered
  deliver_recovered below several fits full h =
      ap₂ (λ bs t. nal bs t now ∷ [])
        (rw several_here (
          ap
            (λ n.
              compact n 0
                (store_recovered r.pending lost (pad max_packet_payload (piece bytes lost))))
            h.total
          ∙ compact_recovered h below fits full))
        h.time
    where
      several_here : ltb 1 r.pending.total_packets ≡ true
      several_here = ground (arith, h.total)

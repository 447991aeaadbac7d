-- ===== src/Stream/Steps.antt =====
-- NetworkReceiver.cpp, `ReassembleFrame`: one packet of a frame of which at most one is missing.
use Prim.Native.Nat.{bit_or}
use open_xr_osx.Base.{
  ℕ, ◌+◌, ◌-◌, ◌^◌, ◌<◌, ◌≡◌, ◌≢◌, ◌⊎◌, inl, refl, ◌∙◌, Bool, true, false, some, List, [], arith,
  ◌==◌, if◌then◌else◌,
}
use open_xr_osx.Protocol.{
  has_flag, video_flag_fec, video_flag_stereo, video_flag_end_of_frame, Packet,
}
use open_xr_osx.Sender.{FrameInfo, frame_flags, data_packet, parity_packet}
use open_xr_osx.Receiver.{
  PendingFrame, Receiver, store_data, store_packet, deliver, is_new_frame, is_partial,
  reassemble_frame, reset_pending, begin_frame,
}
use open_xr_osx.Stream.Pieces.{piece}
use open_xr_osx.Stream.State.{Holds}

flags_plain :
    (keyframe last : Bool)
    → has_flag
        (if last
          then bit_or (frame_flags video_flag_stereo keyframe) video_flag_end_of_frame
          else frame_flags video_flag_stereo keyframe)
        video_flag_fec
      ≡ false
unfolding frame_flags
flags_plain true true = refl
flags_plain true false = refl
flags_plain false true = refl
flags_plain false false = refl

flags_parity :
    (keyframe : Bool)
    → has_flag (frame_flags (bit_or video_flag_fec video_flag_stereo) keyframe) video_flag_fec
      ≡ true
unfolding frame_flags
flags_parity true = refl
flags_parity false = refl

module _ (info : FrameInfo) where
  pub data_packet_plain :
      (i : ℕ) (payload : List ℕ)
      → has_flag (data_packet info i payload).header.flags video_flag_fec ≡ false
  unfolding data_packet
  data_packet_plain i payload = flags_plain info.is_keyframe (i == info.total_packets - 1)

  pub parity_packet_marked :
      (i : ℕ) (payloads : List (List ℕ))
      → has_flag (parity_packet info i payloads).header.flags video_flag_fec ≡ true
  unfolding parity_packet
  parity_packet_marked i payloads = flags_parity info.is_keyframe

module _ {info : FrameInfo} {bytes : List ℕ} {lost i p : ℕ} (r : Receiver) (now : ℕ) where
  same_frame :
      i < info.total_packets
      → Holds info bytes lost i p r.pending
      → is_new_frame r (data_packet info i (piece bytes i)) ≡ false
  unfolding is_new_frame data_packet
  same_frame below h = ground (arith, h.frame, h.total)

  -- A packet of the frame that is being put together.
  pub reassemble_same :
      i < info.total_packets
      → Holds info bytes lost i p r.pending
      → reassemble_frame r now (data_packet info i (piece bytes i))
        ≡ store_packet r now (data_packet info i (piece bytes i))
  unfolding reassemble_frame
  reassemble_same below h = rw (data_packet_plain info i (piece bytes i), same_frame below h)

  -- The packet is stored; some other one is still to come.
  pub step_data :
      info.total_packets < 2 ^ 16
      → i < info.total_packets
      → i ≢ lost
      → (i + 1 < info.total_packets) ⊎ (lost < i)
      → Holds info bytes lost i p r.pending
      → reassemble_frame r now (data_packet info i (piece bytes i))
        ≡ some (record r { pending = store_data r.pending i (piece bytes i) }, [])
  unfolding store_packet data_packet store_data
  step_data small below kept more h =
      reassemble_same below h
      ∙ ground (arith, h.total, h.mark_count, h.absent i (inl (omega arith)), h.received)

  -- The packet is stored, and is the last one.
  pub step_last :
      info.total_packets < 2 ^ 16
      → i + 1 ≡ info.total_packets
      → i < lost
      → Holds info bytes lost i p r.pending
      → reassemble_frame r now (data_packet info i (piece bytes i))
        ≡ some (deliver (record r { pending = store_data r.pending i (piece bytes i) }) now)
  unfolding store_packet data_packet store_data
  step_last small last kept h =
      reassemble_same (omega arith) h
      ∙ ground (arith, h.total, h.mark_count, h.absent i (inl (omega arith)), h.received)

idle_new : (r : Receiver) (p : Packet) → r.pending.total_packets ≡ 0 → is_new_frame r p ≡ true
unfolding is_new_frame
idle_new r p idle = ground arith

idle_whole : (f : PendingFrame) → f.total_packets ≡ 0 → is_partial f ≡ false
unfolding is_partial
idle_whole f idle = ground arith

reset_same :
    (info : FrameInfo) (r : Receiver) (j : ℕ) (payload : List ℕ)
    → 0 < info.total_packets
    → is_new_frame
        (record r { pending = reset_pending (data_packet info j payload) })
        (data_packet info j payload)
      ≡ false
unfolding is_new_frame reset_pending data_packet
reset_same info r j payload some_packets = ground arith

begin_idle :
    (r : Receiver) (now : ℕ) (p : Packet)
    → r.pending.total_packets ≡ 0
    → begin_frame r now p ≡ store_packet (record r { pending = reset_pending p }) now p
unfolding begin_frame
begin_idle r now p idle = rw (idle_whole r.pending idle)

-- The first packet that comes of a frame, after the frame before has been delivered.
pub step_first :
    (info : FrameInfo) (r : Receiver) (now j : ℕ) (payload : List ℕ)
    → r.pending.total_packets ≡ 0
    → 0 < info.total_packets
    → reassemble_frame r now (data_packet info j payload)
      ≡ reassemble_frame
          (record r { pending = reset_pending (data_packet info j payload) })
          now
          (data_packet info j payload)
unfolding reassemble_frame
step_first info r now j payload idle some_packets =
    rw
      (
        data_packet_plain info j payload,
        idle_new r (data_packet info j payload) idle,
        reset_same info r j payload some_packets,
      )
      (begin_idle r now (data_packet info j payload) idle)

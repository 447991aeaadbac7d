-- ===== src/Receiver.antt =====
-- clients/oxrsys-android/app/src/main/cpp/NetworkReceiver.h and NetworkReceiver.cpp: the frame that
-- is being put together from UDP packets (`ReassembleFrame`, `TryFecRecovery`, `SendNack`).
--
-- The vectors `data` and `fecData` of n * 1400 bytes are lists of n slots, as every access is to
-- one slot; a payload is at most 1400 bytes, since `ReceiveThread` reads at most that many.
-- A callback or a `sendto` is an `Event`.
use open_xr_osx.Base.{
  ℕ, zero, suc, ◌+◌, ◌-◌, ◌/◌, ◌^◌, Bool, true, false, not, ◌&&◌, ◌||◌, Option, none, some, List,
  [], ◌∷◌, ◌++◌, String, is_empty, ltb, leb, ◌==◌, if◌then◌else◌, length, take, drop, get_or, set,
  replicate, min,
}
use open_xr_osx.Protocol.{
  u16, u32, max_packet_payload, video_flag_fec, has_flag, Packet, NackRequest,
}
use open_xr_osx.Fec.{decode, group_count, group_range}

pub record PendingFrame : Type 0 where
  pub frame_index : ℕ
  pub total_packets : ℕ
  pub received_packets : ℕ
  pub timestamp_ns : ℕ
  pub slots : List (List ℕ)
  pub packet_received : List Bool
  pub packet_sizes : List ℕ
  pub fec_group_count : ℕ
  pub fec_received : List Bool
  pub fec_slots : List (List ℕ)

pub record Receiver : Type 0 where
  pub pending : PendingFrame
  pub control_socket : Option ℕ
  pub server_ip : String
  pub frames_delivered : ℕ
  pub frames_dropped : ℕ
  pub fec_recoveries : ℕ
  pub nacks_sent : ℕ
  pub last_completed_frame_receive_time_ns : ℕ

-- `nal` is the call of `nalCallback_`, with the bytes and both times.
pub data Event : Type 0 where
  nal : List ℕ → ℕ → ℕ → Event
  nack : NackRequest → Event

-- `memcpy` to the start of a slot
unfoldable pub write_slot : List ℕ → List ℕ → List ℕ
write_slot slot bytes = bytes ++ drop (length bytes) slot

-- The index that was found missing last, and the number of missing ones, from `i` on.
unfoldable pub scan_missing : ℕ → ℕ → List Bool → ℕ × ℕ → ℕ × ℕ
scan_missing zero i received found = found
scan_missing (suc rounds) i received (missing_idx, missing_count) =
    scan_missing rounds (i + 1) received
      (if get_or received i false then (missing_idx, missing_count) else (i, missing_count + 1))

-- `presentPtrs` with `presentSizes`
unfoldable pub gather_present : ℕ → ℕ → ℕ → PendingFrame → List (List ℕ)
gather_present zero i missing_idx f = []
gather_present (suc rounds) i missing_idx f =
    let rest = gather_present rounds (i + 1) missing_idx f in
    if i == missing_idx then rest else take (get_or f.packet_sizes i 0) (get_or f.slots i []) ∷ rest

-- The slot, the mark, the size and the count of a recovered packet.
unfoldable pub store_recovered : PendingFrame → ℕ → List ℕ → PendingFrame
store_recovered f missing_idx bytes = record f {
  slots = set f.slots missing_idx bytes;
  packet_received = set f.packet_received missing_idx true;
  packet_sizes = set f.packet_sizes missing_idx max_packet_payload;
  received_packets = u32 (f.received_packets + 1);
}

-- The body of the loop over the groups, with whether it recovered a packet.
unfoldable pub recover_group : Receiver → ℕ → Receiver × Bool
recover_group r g =
    let f = r.pending in
    let (group_start, group_end) = group_range g f.total_packets in
    let (missing_idx, missing_count) =
      scan_missing (group_end - group_start) group_start f.packet_received (2 ^ 32 - 1, 0) in
    if not (get_or f.fec_received g false) || not (missing_count == 1) then (r, false) else (
      record r {
        pending = store_recovered f missing_idx (
            decode (gather_present (group_end - group_start) group_start missing_idx f)
              (get_or f.fec_slots g []));
        fec_recoveries = u32 (r.fec_recoveries + 1);
      },
      true,
    )

unfoldable pub recover_groups : ℕ → ℕ → Receiver → Bool → Receiver × Bool
recover_groups zero g r recovered = (r, recovered)
recover_groups (suc rounds) g r recovered =
    let (r', here) = recover_group r g in recover_groups rounds (g + 1) r' (recovered || here)

unfoldable pub try_fec_recovery : Receiver → Receiver × Bool
try_fec_recovery r =
    if r.pending.total_packets == 0
    then (r, false)
    else let (r', recovered) = recover_groups (group_count r.pending.total_packets) 0 r false in
      (r', recovered && (r'.pending.received_packets == r'.pending.total_packets))

-- `bitmask |= 1 << (i - start)`: each bit is set once, so that the sum is the same.
unfoldable pub missing_mask : ℕ → ℕ → ℕ → List Bool → ℕ → ℕ
missing_mask zero start i received bitmask = bitmask
missing_mask (suc rounds) start i received bitmask =
    missing_mask rounds start (i + 1) received
      (if get_or received i false then bitmask else bitmask + 2 ^ (i - start))

-- The loop over the chunks of 64 packets. `anyMissing` is that the mask is not zero.
unfoldable pub nack_loop : ℕ → ℕ → ℕ → ℕ → List Bool → List NackRequest
nack_loop zero start frame_index total_packets received = []
nack_loop (suc rounds) start frame_index total_packets received =
    let end = min (start + 64) total_packets in
    let bitmask = missing_mask (end - start) start start received 0 in
    let rest = nack_loop rounds (start + 64) frame_index total_packets received in
    if bitmask == 0
    then rest
    else record {
      frame_index = frame_index;
      packet_index_start = u16 start;
      total_packets = u16 total_packets;
      missing_bitmask = bitmask;
    }
      ∷ rest

unfoldable pub nack_events : List NackRequest → List Event
nack_events [] = []
nack_events (n ∷ ns) = nack n ∷ nack_events ns

unfoldable pub send_nack : Receiver → ℕ → ℕ → Receiver × List Event
send_nack r frame_index total_packets = elim r.control_socket [
  | none ↦ (r, [])
  | some fd ↦
      if is_empty r.server_ip || (total_packets == 0)
      then (r, [])
      else let nacks =
          nack_loop ((total_packets + 63) / 64) 0 frame_index total_packets
            r.pending.packet_received in
        (record r { nacks_sent = u32 (r.nacks_sent + length nacks) }, nack_events nacks)
]

-- The total size, and the bytes without the gaps behind short packets.
unfoldable pub total_size : ℕ → ℕ → PendingFrame → ℕ
total_size zero i f = 0
total_size (suc rounds) i f = get_or f.packet_sizes i 0 + total_size rounds (i + 1) f

unfoldable pub compact : ℕ → ℕ → PendingFrame → List ℕ
compact zero i f = []
compact (suc rounds) i f =
    take (get_or f.packet_sizes i 0) (get_or f.slots i []) ++ compact rounds (i + 1) f

-- The block `deliver:`.
unfoldable pub deliver : Receiver → ℕ → Receiver × List Event
deliver r now =
    let f = r.pending in
    let bytes =
      if ltb 1 f.total_packets
      then compact f.total_packets 0 f
      else take (total_size f.total_packets 0 f) (get_or f.slots 0 []) in
    (
      record r {
        pending = record f { total_packets = 0 };
        frames_delivered = u32 (r.frames_delivered + 1);
        last_completed_frame_receive_time_ns = now;
      },
      nal bytes f.timestamp_ns now ∷ [],
    )

unfoldable pub reset_pending : Packet → PendingFrame
reset_pending p =
    let total = p.header.total_packets in
    record {
      frame_index = p.header.frame_index;
      total_packets = total;
      received_packets = 0;
      timestamp_ns = p.header.presentation_time_ns;
      slots = replicate total (replicate max_packet_payload 0);
      packet_received = replicate total false;
      packet_sizes = replicate total 0;
      fec_group_count = group_count total;
      fec_received = replicate (group_count total) false;
      fec_slots = replicate (group_count total) (replicate max_packet_payload 0);
    }

-- The frame with a parity packet of group `g` in it.
unfoldable pub store_parity : PendingFrame → ℕ → List ℕ → PendingFrame
store_parity f g payload = record f {
  fec_slots =
      set f.fec_slots g (write_slot (get_or f.fec_slots g []) (take max_packet_payload payload));
  fec_received = set f.fec_received g true;
}

-- A parity packet. `none` is an access to the vectors of the parity behind their end.
unfoldable pub receive_parity : Receiver → ℕ → Packet → Option (Receiver × List Event)
receive_parity r now p =
    let f = r.pending in
    let g = p.header.packet_index in
    let r' = record r { pending = store_parity f g p.payload } in
    let (recovered, complete) = try_fec_recovery r' in
    if not ((p.header.frame_index == f.frame_index) && ltb 0 f.total_packets)
    then some (r, [])
    else if not (ltb g f.fec_group_count)
    then some (r, [])
    else if not (ltb g (length f.fec_received))
    then none
    else if get_or f.fec_received g false
    then some (r, [])
    else if not (ltb g (length f.fec_slots))
    then none
    else if leb f.total_packets (f.received_packets + 1)
    then if complete then some (deliver recovered now) else some (recovered, [])
    else some (r', [])

-- The frame with packet `i` in it.
unfoldable pub store_data : PendingFrame → ℕ → List ℕ → PendingFrame
store_data f i payload = record f {
  slots = set f.slots i (write_slot (get_or f.slots i []) payload);
  packet_received = set f.packet_received i true;
  packet_sizes = set f.packet_sizes i (u16 (length payload));
  received_packets = u32 (f.received_packets + 1);
}

-- "Store this packet's data". A packet that promises more packets than the frame's first one did can
-- index past the end of the vectors: that fault is `none`, as is any other access behind the end of
-- the marks, the data or the sizes.
unfoldable pub store_packet : Receiver → ℕ → Packet → Option (Receiver × List Event)
store_packet r now p =
    let f = r.pending in
    let i = p.header.packet_index in
    let r' = record r { pending = store_data f i p.payload } in
    if not (ltb i p.header.total_packets)
    then some (r, [])
    else if not (ltb i (length f.packet_received))
    then none
    else if get_or f.packet_received i false
    then some (r, [])
    else if not (ltb i (length f.slots)) || not (ltb i (length f.packet_sizes))
    then none
    else if r'.pending.received_packets == r'.pending.total_packets
    then some (deliver r' now)
    else some (r', [])

unfoldable pub is_new_frame : Receiver → Packet → Bool
is_new_frame r p =
    not (p.header.frame_index == r.pending.frame_index) || (r.pending.total_packets == 0)

unfoldable pub is_partial : PendingFrame → Bool
is_partial f =
    ltb 0 f.total_packets && (ltb 0 f.received_packets && ltb f.received_packets f.total_packets)

unfoldable pub store_after :
    List Event → Option (Receiver × List Event) → Option (Receiver × List Event)
store_after events none = none
store_after events (some (r, later)) = some (r, events ++ later)

-- A data packet that begins another frame. Where parity completes the old frame, the source goes on
-- to deliver it, and the new packet is not stored.
unfoldable pub begin_frame : Receiver → ℕ → Packet → Option (Receiver × List Event)
begin_frame r now p =
    let (recovered, complete) = try_fec_recovery r in
    let (nacked, events) =
      send_nack recovered recovered.pending.frame_index recovered.pending.total_packets in
    let dropped = record nacked { frames_dropped = u32 (nacked.frames_dropped + 1) } in
    let fresh = reset_pending p in
    if is_partial r.pending
    then if complete
      then some (deliver recovered now)
      else store_after events (store_packet (record dropped { pending = fresh }) now p)
    else store_packet (record r { pending = fresh }) now p

unfoldable pub reassemble_frame : Receiver → ℕ → Packet → Option (Receiver × List Event)
reassemble_frame r now p =
    if has_flag p.header.flags video_flag_fec
    then receive_parity r now p
    else if is_new_frame r p
    then begin_frame r now p
    else store_packet r now p

-- What the loop of `ReceiveThread` does with packets that are no render poses, all read at `now`.
unfoldable pub receive_all : Receiver → ℕ → List Packet → Option (Receiver × List Event)
receive_all r now [] = some (r, [])
receive_all r now (p ∷ ps) = elim (reassemble_frame r now p) [
  | none ↦ none
  | some (r', events) ↦ store_after events (receive_all r' now ps)
]

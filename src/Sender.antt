-- ===== src/Sender.antt =====
-- runtime/src/StreamingServer.h and StreamingServer.cpp: how an encoded frame becomes packets
-- (`SendNalUnit`), and how lost ones are sent again (`HandleNackRequest`). The sockets are the list
-- of what is sent. A descriptor is `none` where the source holds -1.
use Prim.Native.Nat.{bit_or}
use open_xr_osx.Base.{
  ℕ, zero, suc, ◌+◌, ◌-◌, ◌*◌, ◌/◌, ◌%◌, ◌^◌, Bool, true, not, ◌&&◌, ◌||◌, Option, none, some, List,
  [], ◌∷◌, ◌++◌, map, String, is_empty, ltb, ◌==◌, if◌then◌else◌, length, take, drop, get_elem?,
  set,
}
use open_xr_osx.Protocol.{
  u16, u32, fec_group_size, max_packet_payload, tcp_max_record_payload, video_flag_keyframe,
  video_flag_end_of_frame, video_flag_stereo, video_flag_fec, codec_h265, VideoPacketHeader, Packet,
  NackRequest,
}
use open_xr_osx.Fec.{encode}

-- `CachedPacket::data` is `none` where the vector is empty.
pub record CachedFrame : Type 0 where
  pub frame_index : ℕ
  pub packets : List (Option Packet)

abbrev pub max_cached_frames : ℕ
max_cached_frames = 5

pub record PacketDispatchState : Type 0 where
  pub client_ip : String
  pub video_socket : Option ℕ
  pub video_uses_tcp : Bool
  pub accepting_packets : Bool
  pub cached_frames : List CachedFrame
  pub cache_write_index : ℕ

-- The arguments that stay the same for all packets of a frame.
pub record FrameInfo : Type 0 where
  pub frame_index : ℕ
  pub total_packets : ℕ
  pub is_keyframe : Bool
  pub timestamp_ns : ℕ

pub record TcpVideoNalHeader : Type 0 where
  pub presentation_time_ns : ℕ
  pub frame_index : ℕ
  pub payload_size : ℕ
  pub flags : ℕ
  pub codec : ℕ

pub data Sent : Type 0 where
  datagram : String → Packet → Sent
  video_nal : TcpVideoNalHeader → List ℕ → Sent

-- `header.flags = VIDEO_FLAG_STEREO; if (isKeyframe) header.flags |= VIDEO_FLAG_KEYFRAME`
unfoldable pub frame_flags : ℕ → Bool → ℕ
frame_flags flags is_keyframe = if is_keyframe then bit_or flags video_flag_keyframe else flags

unfoldable pub data_header : FrameInfo → ℕ → ℕ → VideoPacketHeader
unfolding frame_flags
data_header info i payload_size =
    let flags = frame_flags video_flag_stereo info.is_keyframe in
    record {
      frame_index = info.frame_index;
      packet_index = i;
      total_packets = info.total_packets;
      payload_size = u16 payload_size;
      flags = if i == info.total_packets - 1 then bit_or flags video_flag_end_of_frame else flags;
      codec = codec_h265;
      presentation_time_ns = info.timestamp_ns;
    }

unfoldable pub fec_header : FrameInfo → ℕ → VideoPacketHeader
unfolding frame_flags
fec_header info group_index = record {
  frame_index = info.frame_index;
  packet_index = u16 group_index;
  total_packets = info.total_packets;
  payload_size = max_packet_payload;
  flags = frame_flags (bit_or video_flag_fec video_flag_stereo) info.is_keyframe;
  codec = codec_h265;
  presentation_time_ns = info.timestamp_ns;
}

unfoldable pub data_packet : FrameInfo → ℕ → List ℕ → Packet
unfolding data_header
data_packet info i payload = record {
  header = data_header info i (length payload);
  payload = payload;
}

-- `payloads` are `payloadPtrs` and `payloadSizes` up to the packet `i`, the last of its group.
unfoldable pub parity_packet : FrameInfo → ℕ → List (List ℕ) → Packet
unfolding fec_header
parity_packet info i payloads =
    let group_index = i / fec_group_size in
    let group_start = group_index * fec_group_size in
    record {
      header = fec_header info group_index;
      payload = encode (take (i + 1 - group_start) (drop group_start payloads));
    }

unfoldable pub ends_group : FrameInfo → ℕ → Bool
ends_group info i = ((i + 1) % fec_group_size == 0) || (i + 1 == info.total_packets)

-- `for (i = 0; i < totalPackets; i++)`: the first argument counts the rounds that are left.
-- The cache gets the data packets alone.
unfoldable pub send_loop :
    ℕ → FrameInfo → List ℕ → ℕ → ℕ → List (List ℕ) → List Packet × List (Option Packet)
send_loop zero info bytes i offset payloads = ([], [])
send_loop (suc rounds) info bytes i offset payloads =
    let payload = take max_packet_payload (drop offset bytes) in
    let payloads' = payloads ++ (payload ∷ []) in
    let packet = data_packet info i payload in
    let (sent, cached) = send_loop rounds info bytes (i + 1) (offset + length payload) payloads' in
    (
      packet ∷ (if ends_group info i then parity_packet info i payloads' ∷ sent else sent),
      some packet ∷ cached,
    )

unfoldable pub packet_count : List ℕ → ℕ
packet_count bytes = u16 ((length bytes + max_packet_payload - 1) / max_packet_payload)

unfoldable pub frame_info : ℕ → List ℕ → Bool → ℕ → FrameInfo
unfolding packet_count
frame_info frame_index bytes is_keyframe timestamp_ns = record {
  frame_index = frame_index;
  total_packets = packet_count bytes;
  is_keyframe = is_keyframe;
  timestamp_ns = timestamp_ns;
}

abbrev pub sizeof_tcp_video_nal_header : ℕ
sizeof_tcp_video_nal_header = 24

-- The branch `if (videoUsesTcp)`.
unfoldable pub send_nal_tcp : ℕ → List ℕ → Bool → ℕ → List Sent
unfolding frame_flags
send_nal_tcp frame_index bytes is_keyframe timestamp_ns =
    if ltb (tcp_max_record_payload - sizeof_tcp_video_nal_header) (length bytes)
    then []
    else video_nal
        (record {
          presentation_time_ns = timestamp_ns;
          frame_index = frame_index;
          payload_size = u32 (length bytes);
          flags = frame_flags video_flag_stereo is_keyframe;
          codec = codec_h265;
        })
        bytes
      ∷ []

-- The rest: the packets go out, and the data packets take the next slot of the cache.
unfoldable pub send_nal_udp :
    PacketDispatchState → ℕ → List ℕ → Bool → ℕ → PacketDispatchState × List Sent
unfolding send_loop frame_info
send_nal_udp s frame_index bytes is_keyframe timestamp_ns =
    let info = frame_info frame_index bytes is_keyframe timestamp_ns in
    let (sent, cached) = send_loop info.total_packets info bytes 0 0 [] in
    (
      record s {
        cached_frames =
            set s.cached_frames (s.cache_write_index % max_cached_frames)
              (record { frame_index = frame_index; packets = cached });
        cache_write_index = (s.cache_write_index + 1) % 2 ^ 64;
      },
      map (datagram s.client_ip) sent,
    )

-- `videoSocket < 0 || (!videoUsesTcp && clientIp.empty())`
unfoldable pub cannot_send : PacketDispatchState → Bool
cannot_send s = elim s.video_socket [
  | none ↦ true
  | some fd ↦ not s.video_uses_tcp && is_empty s.client_ip
]

unfoldable pub send_nal_unit :
    PacketDispatchState → ℕ → List ℕ → Bool → ℕ → PacketDispatchState × List Sent
unfolding cannot_send send_nal_tcp send_nal_udp
send_nal_unit s frame_index bytes is_keyframe timestamp_ns =
    if not s.accepting_packets
    then (s, [])
    else if cannot_send s
    then (s, [])
    else if s.video_uses_tcp
    then (s, send_nal_tcp frame_index bytes is_keyframe timestamp_ns)
    else send_nal_udp s frame_index bytes is_keyframe timestamp_ns

-- The first cached frame with this index that has packets.
unfoldable pub find_cached : ℕ → List CachedFrame → Option (List (Option Packet))
find_cached frame_index [] = none
find_cached frame_index (c ∷ cs) =
    if (c.frame_index == frame_index) && not (length c.packets == 0)
    then some c.packets
    else find_cached frame_index cs

-- `missingBitmask & (1ULL << bit)`
unfoldable pub mask_bit : ℕ → ℕ → Bool
mask_bit mask bit = (mask / 2 ^ bit) % 2 == 1

-- `for (bit = 0; bit < 64; bit++)`: what is sent for the bits from `bit`.
unfoldable pub retransmit_loop : ℕ → ℕ → NackRequest → List (Option Packet) → List Packet
retransmit_loop zero bit request packets = []
retransmit_loop (suc rounds) bit request packets =
    let rest = retransmit_loop rounds (bit + 1) request packets in
    if mask_bit request.missing_bitmask bit
    then elim (get_elem? packets (request.packet_index_start + bit)) [
      | some (some packet) ↦ packet ∷ rest
      | _ ↦ rest
    ]
    else rest

unfoldable pub handle_nack_request : PacketDispatchState → NackRequest → List Sent
unfolding find_cached retransmit_loop
handle_nack_request s request =
    if not s.accepting_packets || is_empty s.client_ip then [] else elim s.video_socket [
      | none ↦ []
      | some fd ↦ elim (find_cached request.frame_index s.cached_frames) [
        | none ↦ []
        | some packets ↦ map (datagram s.client_ip) (retransmit_loop 64 0 request packets)
      ]
    ]

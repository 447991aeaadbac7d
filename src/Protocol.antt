-- ===== src/Protocol.antt =====
-- clients/common/src/Protocol.h: the constants of the wire format and the video packet. A packet
-- is its header with its payload bytes, since both ends copy the same packed struct; times are
-- readings of a monotonic clock, so they are not negative.
use Prim.Native.Nat.{bit_and}
use open_xr_osx.Base.{ℕ, ◌*◌, ◌%◌, ◌^◌, Bool, not, List, ◌==◌}

-- Machine words wrap.
abbrev pub u16 : ℕ → ℕ
u16 n = n % 2 ^ 16

abbrev pub u32 : ℕ → ℕ
u32 n = n % 2 ^ 32

abbrev pub fec_group_size : ℕ
fec_group_size = 10

abbrev pub max_packet_payload : ℕ
max_packet_payload = 1400

abbrev pub tcp_record_magic : ℕ
tcp_record_magic = 0x4f585255

abbrev pub tcp_record_version : ℕ
tcp_record_version = 1

abbrev pub tcp_max_record_payload : ℕ
tcp_max_record_payload = 16 * 1024 * 1024

abbrev pub video_flag_keyframe : ℕ
video_flag_keyframe = 0x01

abbrev pub video_flag_end_of_frame : ℕ
video_flag_end_of_frame = 0x02

abbrev pub video_flag_stereo : ℕ
video_flag_stereo = 0x0c

abbrev pub video_flag_fec : ℕ
video_flag_fec = 0x10

abbrev pub video_flag_render_pose : ℕ
video_flag_render_pose = 0x20

-- `VideoCodec::H265`
abbrev pub codec_h265 : ℕ
codec_h265 = 0

pub record VideoPacketHeader : Type 0 where
  pub frame_index : ℕ  -- uint32
  pub packet_index : ℕ  -- uint16
  pub total_packets : ℕ  -- uint16
  pub payload_size : ℕ  -- uint16
  pub flags : ℕ  -- uint8
  pub codec : ℕ  -- uint8
  pub presentation_time_ns : ℕ  -- int64

pub record Packet : Type 0 where
  pub header : VideoPacketHeader
  pub payload : List ℕ

-- `flags & mask`, as a condition
abbrev pub has_flag : ℕ → ℕ → Bool
has_flag flags mask = not (bit_and flags mask == 0)

-- `NackRequest`: the bitmask covers the 64 packets from `packet_index_start`.
pub record NackRequest : Type 0 where
  pub frame_index : ℕ
  pub packet_index_start : ℕ
  pub total_packets : ℕ
  pub missing_bitmask : ℕ

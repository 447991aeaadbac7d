-- ===== src/Stream/Tcp/Frames.antt =====
-- The frames that go over a TCP connection, and what `SendNalUnit` and `ReceiveTcpThread` do with
-- one.
use open_xr_osx.Base.{
  ℕ, zero, suc, ◌+◌, ◌-◌, ◌≤◌, ◌<◌, ◌^◌, ◌≡◌, refl, ap, ◌∙◌, Bool, true, false, arith, some, List,
  [], ◌∷◌, ◌++◌, length, take, ltb, if◌then◌else◌,
}
use open_xr_osx.Protocol.{u32, tcp_max_record_payload, video_flag_stereo, codec_h265}
use open_xr_osx.Sender.{
  PacketDispatchState, TcpVideoNalHeader, video_nal, sizeof_tcp_video_nal_header, frame_flags,
  send_nal_tcp, send_nal_unit, cannot_send,
}
use open_xr_osx.Receiver.{Receiver, Event, nal}
use open_xr_osx.Stream.Tcp.Record.{
  le, from_le, from_le-le, record_video_nal, record_render_pose, record_bytes,
}
use open_xr_osx.Stream.Tcp.Video.{
  nal_header_bytes, nal_payload, receive_nal, receive_record, EncodedFrame, sizeof_tcp_render_pose,
  Item, pose, frame,
}

take-length : (n : ℕ) (xs : List ℕ) → n ≡ length xs → take n xs ≡ xs
take-length zero [] e = refl
take-length zero (x ∷ xs) e = absurd (omega arith)
take-length (suc n) [] e = refl
take-length (suc n) (x ∷ xs) e = ap (λ ys. x ∷ ys) (take-length n xs (omega arith))

not_short : (n : ℕ) → sizeof_tcp_video_nal_header ≤ n → ltb n sizeof_tcp_video_nal_header ≡ false
not_short n h = ground arith

pub chosen : {A : Type 0} (b : Bool) (x y : A) → b ≡ true → (if b then x else y) ≡ x
chosen b x y e = rw e refl

pub taken : {A : Type 0} (b : Bool) (x y : A) → b ≡ false → (if b then x else y) ≡ y
taken b x y e = rw e refl

-- The receiver after a frame.
pub receives : Receiver → ℕ → Receiver
receives r now = record r {
  frames_delivered = u32 (r.frames_delivered + 1);
  last_completed_frame_receive_time_ns = now;
}

pub receive_record_lem :
    (r : Receiver) (now : ℕ) (h : TcpVideoNalHeader) (bytes : List ℕ)
    → h.presentation_time_ns < 2 ^ 64
    → h.payload_size < 2 ^ 32
    → h.payload_size ≡ length bytes
    → receive_record r now record_video_nal (nal_payload h bytes)
      ≡ (receives r now, nal bytes h.presentation_time_ns now ∷ [])
unfolding receive_record receive_nal nal_header_bytes le receives
receive_record_lem r now h bytes t s e =
    let time : from_le (le 8 h.presentation_time_ns) ≡ h.presentation_time_ns =
      from_le-le 8 h.presentation_time_ns t in
    let size : from_le (le 4 h.payload_size) ≡ h.payload_size = from_le-le 4 h.payload_size s in
    taken _ _ _ (not_short (length (nal_payload h bytes)) (omega arith))
    ∙ ap (λ bs. (receives r now, nal bs (from_le (le 8 h.presentation_time_ns)) now ∷ []))
        (ap (λ n. take n bytes) size ∙ take-length h.payload_size bytes e)
    ∙ ap (λ at. (receives r now, nal bytes at now ∷ [])) time

-- A frame that does not fit into one record.
unfoldable pub is_too_large : EncodedFrame → Bool
is_too_large f = ltb (tcp_max_record_payload - sizeof_tcp_video_nal_header) (length f.bytes)

-- The frames that the decoder is given.
unfoldable pub played : ℕ → List Item → List Event
unfolding is_too_large
played now [] = []
played now (pose p ∷ fs) = played now fs
played now (frame f ∷ fs) =
    if is_too_large f then played now fs else nal f.bytes f.timestamp_ns now ∷ played now fs

-- How many records they are, and how many bytes.
unfoldable pub record_count : List Item → ℕ
unfolding is_too_large
record_count [] = 0
record_count (pose p ∷ fs) = suc (record_count fs)
record_count (frame f ∷ fs) = if is_too_large f then record_count fs else suc (record_count fs)

unfoldable pub stream_size : List Item → ℕ
unfolding is_too_large
stream_size [] = 0
stream_size (pose p ∷ fs) = 12 + length p + stream_size fs
stream_size (frame f ∷ fs) =
    if is_too_large f then stream_size fs else 36 + length f.bytes + stream_size fs

-- The USB client is connected.
pub record Connected (s : PacketDispatchState) : Type 0 where
  pub accepting : s.accepting_packets ≡ true
  pub tcp : s.video_uses_tcp ≡ true
  pub descriptor : ℕ
  pub socket : s.video_socket ≡ some descriptor

unfoldable pub header_of : EncodedFrame → TcpVideoNalHeader
header_of f = record {
  presentation_time_ns = f.timestamp_ns;
  frame_index = f.frame_index;
  payload_size = u32 (length f.bytes);
  flags = frame_flags video_flag_stereo f.is_keyframe;
  codec = codec_h265;
}

pub send_nal_unit_lem :
    (s : PacketDispatchState) (f : EncodedFrame)
    → Connected s
    → send_nal_unit s f.frame_index f.bytes f.is_keyframe f.timestamp_ns
      ≡ (s, if is_too_large f then [] else video_nal (header_of f) f.bytes ∷ [])
unfolding send_nal_unit cannot_send send_nal_tcp is_too_large header_of
send_nal_unit_lem s f c = simp (c.accepting, c.socket, c.tcp) (ground arith)

-- A frame has a time below 2^63 ns, and a pose is one struct.
abbrev pub IsSound : Item → Type 0
IsSound (pose p) = length p ≡ sizeof_tcp_render_pose
IsSound (frame f) = f.timestamp_ns < 2 ^ 63

-- The bytes on the connection.
unfoldable pub wire : List Item → List ℕ
unfolding is_too_large
wire [] = []
wire (pose p ∷ fs) = record_bytes record_render_pose p ++ wire fs
wire (frame f ∷ fs) =
    if is_too_large f
    then wire fs
    else record_bytes record_video_nal (nal_payload (header_of f) f.bytes) ++ wire fs

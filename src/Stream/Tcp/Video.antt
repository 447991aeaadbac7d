-- ===== src/Stream/Tcp/Video.antt =====
-- The branch of `SendNalUnit` for TCP (runtime/src/StreamingServer.cpp) and `ReceiveTcpThread`
-- (NetworkReceiver.cpp): frames over one connection.
use open_xr_osx.Base.{
  ℕ, zero, suc, ◌+◌, Bool, true, ◌||◌, ◌&&◌, not, Option, List, [], ◌∷◌, ◌++◌, length, take, drop,
  ltb, ◌==◌, if◌then◌else◌,
}
use open_xr_osx.Protocol.{u32}
use open_xr_osx.Sender.{
  PacketDispatchState, TcpVideoNalHeader, Sent, datagram, video_nal, sizeof_tcp_video_nal_header,
  send_nal_unit,
}
use open_xr_osx.Receiver.{Receiver, Event, nal}
use open_xr_osx.Stream.Tcp.Socket.{Wakeup, Written, returns, blocks}
use open_xr_osx.Stream.Tcp.Record.{
  le, from_le, record_video_nal, record_render_pose, send_tcp_record, ReadRecord, got, no_record,
  no_return, read_tcp_record,
}

-- The bytes of the struct, whose reserved fields are zero.
unfoldable pub nal_header_bytes : TcpVideoNalHeader → List ℕ
unfolding le
nal_header_bytes h =
    le 8 h.presentation_time_ns
    ++ le 4 h.frame_index
    ++ le 4 h.payload_size
    ++ le 1 h.flags
    ++ le 1 h.codec
    ++ le 2 0
    ++ le 4 0

abbrev pub nal_payload : TcpVideoNalHeader → List ℕ → List ℕ
nal_payload h bytes = nal_header_bytes h ++ bytes

-- The next call, unless the one before it has not returned; what it returned is not looked at.
unfoldable pub then_send : List ℕ × Written → (List Wakeup → List ℕ × Written) → List ℕ × Written
then_send (out, blocks) next = (out, blocks)
then_send (out, returns ok cs) next = let (out', end) = next cs in (out ++ out', end)

-- What is sent over the TCP socket: a record for each video NAL.
unfoldable pub write_sent : Option ℕ → List Sent → List Wakeup → List ℕ × Written
unfolding send_tcp_record nal_header_bytes then_send
write_sent socket [] cs = ([], returns true cs)
write_sent socket (datagram ip p ∷ ss) cs = write_sent socket ss cs
write_sent socket (video_nal h bytes ∷ ss) cs =
    then_send (send_tcp_record socket record_video_nal (nal_payload h bytes) cs)
      (λ cs'. write_sent socket ss cs')

-- Where the thread is: before the next record, at its end, or in a call.
pub data Thread : Type 0 where
  listens : (calls : List Wakeup) → (incoming : List ℕ) → Thread
  connection_lost : Thread
  in_call : Thread

-- A video record: the bytes behind the header, at most as many as it says.
unfoldable pub receive_nal : Receiver → ℕ → List ℕ → Receiver × List Event
unfolding from_le
receive_nal r now payload =
    let time = from_le (take 8 payload) in
    let size = from_le (take 4 (drop 12 payload)) in
    (
      record r {
        frames_delivered = u32 (r.frames_delivered + 1);
        last_completed_frame_receive_time_ns = now;
      },
      nal (take size (drop sizeof_tcp_video_nal_header payload)) time now ∷ [],
    )

-- One record. A render pose goes to another queue, and every other record is left out.
unfoldable pub receive_record : Receiver → ℕ → (type : ℕ) → List ℕ → Receiver × List Event
unfolding receive_nal
receive_record r now type payload =
    if type == record_render_pose
    then (r, [])
    else if not (type == record_video_nal) || ltb (length payload) sizeof_tcp_video_nal_header
    then (r, [])
    else receive_nal r now payload

-- The body of the loop behind the call of `ReadTcpRecord`, and the rounds that follow.
unfoldable pub after_record :
    (Receiver → List Wakeup → List ℕ → Receiver × List Event × Thread)
    → Receiver
    → ℕ
    → ReadRecord
    → Receiver × List Event × Thread
unfolding receive_record
after_record next r now no_record = (r, [], connection_lost)
after_record next r now no_return = (r, [], in_call)
after_record next r now (got type payload cs rest) =
    let (r', events) = receive_record r now type payload in
    let (r'', later, thread) = next r' cs rest in (r'', events ++ later, thread)

-- The loop, for as many rounds as `receiving_` is true.
unfoldable pub receive_tcp :
    ℕ → Receiver → ℕ → List Wakeup → List ℕ → Receiver × List Event × Thread
unfolding read_tcp_record after_record
receive_tcp zero r now cs incoming = (r, [], listens cs incoming)
receive_tcp (suc rounds) r now cs incoming =
    after_record (λ r' cs' rest. receive_tcp rounds r' now cs' rest) r now
      (read_tcp_record cs incoming)

-- What the encoder hands to `SendNalUnit`.
pub record EncodedFrame : Type 0 where
  pub frame_index : ℕ
  pub bytes : List ℕ
  pub is_keyframe : Bool
  pub timestamp_ns : ℕ

-- `sizeof(TcpRenderPose)`
abbrev pub sizeof_tcp_render_pose : ℕ
sizeof_tcp_render_pose = 48

-- What the thread of the encoder sends: the pose that a frame was drawn for, and the frame.
pub data Item : Type 0 where
  pose : (struct_bytes : List ℕ) → Item
  frame : EncodedFrame → Item

-- The branch `if (videoUsesTcp && videoSocket >= 0)`.
unfoldable pub send_pose : PacketDispatchState → List ℕ → List Wakeup → List ℕ × Written
unfolding send_tcp_record
send_pose s struct_bytes cs =
    if s.accepting_packets && s.video_uses_tcp
    then send_tcp_record s.video_socket record_render_pose struct_bytes cs
    else ([], returns true cs)

-- One after the other.
unfoldable pub send_items : PacketDispatchState → List Wakeup → List Item → List ℕ × Written
unfolding then_send write_sent send_pose
send_items s cs [] = ([], returns true cs)
send_items s cs (pose p ∷ is) = then_send (send_pose s p cs) (λ cs'. send_items s cs' is)
send_items s cs (frame f ∷ is) =
    let (s', sent) = send_nal_unit s f.frame_index f.bytes f.is_keyframe f.timestamp_ns in
    then_send (write_sent s.video_socket sent cs) (λ cs'. send_items s' cs' is)

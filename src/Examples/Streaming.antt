-- ===== src/Examples/Streaming.antt =====
-- Two frames on their way from the runtime to the headset.
use open_xr_osx.Base.{
  ℕ, ◌≡◌, refl, true, false, none, some, List, [], ◌∷◌, ◌++◌, arith, replicate, length-replicate,
  All, map, Option,
}
use open_xr_osx.Sender.{PacketDispatchState, packet_count, cannot_send, send_nal_unit}
use open_xr_osx.Receiver.{Event, PendingFrame, Receiver, receive_all}
use open_xr_osx.Stream.Delivery.{padding}
use open_xr_osx.Stream.Loss.{lose, Delivers}
use open_xr_osx.Stream.Frames.{
  Streams, IsFrame, packets_of, send_nal_unit-Delivers, send_nal_unit-Delivers_recovered,
}
use open_xr_osx.Stream.Sequence.{Frame, IsLoss, Sendable, transmit, played, transmit-played}
use open_xr_osx.Protocol.{Packet}
use open_xr_osx.Sender.{find_cached, datagram}
use open_xr_osx.Receiver.{send_nack}
use open_xr_osx.Stream.Nack.{Answers, lost_packets, resend, resend-send_nack}
use open_xr_osx.Stream.Bounds.{IsConsistent, receive_all_within, IsSized}

abbrev pub sender : PacketDispatchState
sender = record {
  client_ip = "10.0.0.2";
  video_socket = some 5;
  video_uses_tcp = false;
  accepting_packets = true;
  cached_frames = replicate 5 (record { frame_index = 0; packets = [] });
  cache_write_index = 0;
}

sender-Streams : Streams sender
unfolding cannot_send
sender-Streams = record { accepting = refl; reachable = refl; udp = refl }

abbrev pub no_frame : PendingFrame
no_frame = record {
  frame_index = 0;
  total_packets = 0;
  received_packets = 0;
  timestamp_ns = 0;
  slots = [];
  packet_received = [];
  packet_sizes = [];
  fec_group_count = 0;
  fec_received = [];
  fec_slots = [];
}

abbrev pub receiver : Receiver
receiver = record {
  pending = no_frame;
  control_socket = some 6;
  server_ip = "10.0.0.1";
  frames_delivered = 0;
  frames_dropped = 0;
  fec_recoveries = 0;
  nacks_sent = 0;
  last_completed_frame_receive_time_ns = 0;
}

-- Three packets, the last one of 200 bytes.
abbrev some_bytes : List ℕ
some_bytes = replicate 3000 7

some_bytes-IsFrame : IsFrame some_bytes
some_bytes-IsFrame =
    (omega (arith, length-replicate {A = ℕ} 3000 7), omega (arith, length-replicate {A = ℕ} 3000 7))

three_packets : packet_count some_bytes ≡ 3
unfolding packet_count
three_packets = omega (arith, length-replicate {A = ℕ} 3000 7)

send_nal_unit-Delivers_example :
    Delivers receiver 50 (packets_of (send_nal_unit sender 4 some_bytes true 40).1) some_bytes 40
send_nal_unit-Delivers_example =
    send_nal_unit-Delivers sender 4 some_bytes true 40 receiver 50 sender-Streams some_bytes-IsFrame
      refl

send_nal_unit-Delivers_recovered_example :
    Delivers receiver 50
      (lose 2 (packets_of (send_nal_unit sender 4 some_bytes true 40).1))
      (some_bytes ++ replicate (padding 2 (packet_count some_bytes) some_bytes) 0)
      40
send_nal_unit-Delivers_recovered_example =
    send_nal_unit-Delivers_recovered sender 4 some_bytes true 40 receiver 50 2 sender-Streams
      some_bytes-IsFrame (omega (arith, three_packets)) (omega (arith, three_packets)) refl

abbrev lossy_frame : Frame
lossy_frame = record {
  frame_index = 4;
  bytes = some_bytes;
  is_keyframe = true;
  timestamp_ns = 40;
  lost = some 0;
}

abbrev next_frame : Frame
next_frame = record {
  frame_index = 5;
  bytes = some_bytes;
  is_keyframe = false;
  timestamp_ns = 60;
  lost = none;
}

lossy_frame-Sendable : Sendable lossy_frame
unfolding IsLoss
lossy_frame-Sendable =
    (some_bytes-IsFrame, (omega (arith, three_packets), omega (arith, three_packets)))

next_frame-Sendable : All Sendable (next_frame ∷ [])
unfolding IsLoss
next_frame-Sendable = ((some_bytes-IsFrame, tt), tt)

abbrev frames : List Frame
frames = lossy_frame ∷ next_frame ∷ []

transmit-played_example :
    (r' : Receiver) × (receive_all receiver 50 (transmit sender frames)
      ≡ some (r', played 50 frames))
    × (r'.pending.total_packets ≡ 0)
transmit-played_example =
    transmit-played frames sender receiver 50 sender-Streams
      (lossy_frame-Sendable, next_frame-Sendable) refl

-- Packet 1 of the two packets of frame 7 is missing.
abbrev packet : ℕ → Packet
packet i = record {
  header = record {
    frame_index = 7;
    packet_index = i;
    total_packets = 2;
    payload_size = 1;
    flags = 0;
    codec = 1;
    presentation_time_ns = 40;
  };
  payload = 9 ∷ [];
}

abbrev waiting : Receiver
waiting = record receiver {
  pending = record no_frame {
    frame_index = 7;
    total_packets = 2;
    packet_received = true ∷ false ∷ [];
  };
}

abbrev cached_packets : List (Option Packet)
cached_packets = some (packet 0) ∷ some (packet 1) ∷ []

abbrev caching : PacketDispatchState
caching = record sender {
  cached_frames = record { frame_index = 7; packets = cached_packets } ∷ [];
}

caching-Answers : Answers caching 7 cached_packets
unfolding find_cached
caching-Answers = record {
  accepting = refl;
  reachable = refl;
  descriptor = 5;
  socket = refl;
  cached = refl;
}

resend-send_nack_example :
    resend caching (send_nack waiting 7 2).1
    ≡ map (datagram "10.0.0.2") (lost_packets 2 0 (true ∷ false ∷ []) cached_packets)
resend-send_nack_example =
    resend-send_nack waiting caching 7 2 6 cached_packets refl refl (omega arith) (omega arith)
      caching-Answers

-- Packet 1 comes twice and before packet 0, and packets of two other frames come between.
abbrev packet_of : (frame_index i : ℕ) → Packet
packet_of frame_index i = record {
  header = record (packet i).header { frame_index = frame_index };
  payload = 9 ∷ [];
}

abbrev mixed_packets : List Packet
mixed_packets = packet_of 7 1 ∷ packet_of 7 1 ∷ packet_of 6 0 ∷ packet_of 8 5 ∷ packet_of 7 0 ∷ []

mixed_packets-IsConsistent : All (IsConsistent (λ frame_index. 2)) mixed_packets
unfolding IsConsistent
mixed_packets-IsConsistent = (agree, (agree, (agree, (agree, (agree, tt)))))
  where
    agree : false ≡ false → ◌≡◌ {A = ℕ} 2 2
    agree data_packet = refl

receive_all_within_example :
    (r' : Receiver) × (events : List Event) × (receive_all receiver 50 mixed_packets
      ≡ some (r', events))
    × IsSized (λ frame_index. 2) r'.pending
receive_all_within_example =
    receive_all_within (λ frame_index. 2) receiver 50 mixed_packets refl mixed_packets-IsConsistent

-- ===== src/Stream/Tcp/Played.antt =====
-- The frames that go over a TCP connection: what is written at one end and read at the other.
use open_xr_osx.Base.{
  Bool, ◌&&◌, ℕ, suc, ◌+◌, ◌≤◌, ◌≡◌, refl, sym, ap, ap₂, ◌∙◌, true, false, Bool-cases, inl, inr,
  arith, some, List, [], ◌∷◌, ◌++◌, append-nil, length, All,
}
use open_xr_osx.Protocol.{tcp_max_record_payload}
use open_xr_osx.Sender.{
  PacketDispatchState, TcpVideoNalHeader, Sent, video_nal, sizeof_tcp_video_nal_header,
  send_nal_unit,
}
use open_xr_osx.Receiver.{Receiver, Event, nal}
use open_xr_osx.Stream.Tcp.Socket.{Wakeup, returns, Serves, Sends}
use open_xr_osx.Stream.Tcp.Record.{
  le, record_video_nal, record_render_pose, send_tcp_record, got, read_tcp_record, record_header,
  record_bytes, Gets, read_tcp_record_lem, send_tcp_record_lem,
}
use open_xr_osx.Stream.Tcp.Video.{
  nal_header_bytes, nal_payload, then_send, send_pose, write_sent, Thread, listens, receive_record,
  after_record, receive_tcp, EncodedFrame, Item, pose, frame, send_items,
}
use open_xr_osx.Stream.Tcp.Frames.{
  chosen, taken, receives, receive_record_lem, is_too_large, played, record_count, stream_size,
  IsSound, Connected, header_of, send_nal_unit_lem, wire,
}

and_true : (a b : Bool) → a ≡ true → b ≡ true → (a && b) ≡ true
and_true a b d e = ground arith

send_step :
    (s : PacketDispatchState) (cs cs1 cs' : List Wakeup) (f : EncodedFrame) (fs : List Item)
    (sent : List Sent) (out bytes : List ℕ)
    → send_nal_unit s f.frame_index f.bytes f.is_keyframe f.timestamp_ns ≡ (s, sent)
    → write_sent s.video_socket sent cs ≡ (out, returns true cs1)
    → send_items s cs1 fs ≡ (bytes, returns true cs')
    → send_items s cs (frame f ∷ fs) ≡ (out ++ bytes, returns true cs')
unfolding send_items then_send
send_step s cs cs1 cs' f fs sent out bytes unit wrote rest =
    ap (λ r. then_send (write_sent s.video_socket r.1 cs) (λ k. send_items r.0 k fs)) unit
    ∙ ap (λ w. then_send w (λ k. send_items s k fs)) wrote
    ∙ ap (λ w. (out ++ w.0, w.1)) rest

write_sent_lem :
    (s : PacketDispatchState) (f : EncodedFrame) (cs cs1 : List Wakeup) (c : Connected s)
    (out : List ℕ)
    → send_tcp_record (some c.descriptor) record_video_nal (nal_payload (header_of f) f.bytes) cs
      ≡ (out, returns true cs1)
    → write_sent s.video_socket (video_nal (header_of f) f.bytes ∷ []) cs ≡ (out, returns true cs1)
unfolding write_sent then_send
write_sent_lem s f cs cs1 c out e =
    ap (λ socket. write_sent socket (video_nal (header_of f) f.bytes ∷ []) cs) c.socket
    ∙ ap (λ w. then_send w (λ k. ([], returns true k))) e
    ∙ ap (λ o. (o, returns true cs1)) (append-nil out)

pose_step :
    (s : PacketDispatchState) (c : Connected s) (cs cs1 cs' : List Wakeup) (p : List ℕ)
    (fs : List Item) (out bytes : List ℕ)
    → send_tcp_record (some c.descriptor) record_render_pose p cs ≡ (out, returns true cs1)
    → send_items s cs1 fs ≡ (bytes, returns true cs')
    → send_items s cs (pose p ∷ fs) ≡ (out ++ bytes, returns true cs')
unfolding send_items then_send send_pose
pose_step s c cs cs1 cs' p fs out bytes wrote rest =
    ap (λ w. then_send w (λ k. send_items s k fs))
      (chosen _ _ _ (and_true _ _ c.accepting c.tcp)
        ∙ ap (λ socket. send_tcp_record socket record_render_pose p cs) c.socket
        ∙ wrote)
    ∙ ap (λ w. (out ++ w.0, w.1)) rest

receive_step :
    (n : ℕ) (r r1 r' : Receiver) (now : ℕ) (ds ds1 : List Wakeup) (type : ℕ)
    (payload incoming rest : List ℕ) (events later : List Event) (thread : Thread)
    → read_tcp_record ds incoming ≡ got type payload ds1 rest
    → receive_record r now type payload ≡ (r1, events)
    → receive_tcp n r1 now ds1 rest ≡ (r', later, thread)
    → receive_tcp (suc n) r now ds incoming ≡ (r', events ++ later, thread)
unfolding receive_tcp after_record
receive_step n r r1 r' now ds ds1 type payload incoming rest events later thread read one others =
    let next =
      λ (r2 : Receiver) (cs : List Wakeup) (bytes : List ℕ). receive_tcp n r2 now cs bytes in
    ap (after_record next r now) read
    ∙ ap (λ x. ((next x.0 ds1 rest).0, x.1 ++ (next x.0 ds1 rest).1, (next x.0 ds1 rest).2)) one
    ∙ ap (λ x. (x.0, events ++ x.1, x.2)) others

length-nal_payload :
    (h : TcpVideoNalHeader) (bytes : List ℕ)
    → length (nal_payload h bytes) ≡ sizeof_tcp_video_nal_header + length bytes
unfolding nal_header_bytes le
length-nal_payload h bytes = omega arith

length-record_bytes :
    (type : ℕ) (payload : List ℕ) → length (record_bytes type payload) ≡ 12 + length payload
unfolding record_header le
length-record_bytes type payload = omega arith

length-frame :
    (f : EncodedFrame)
    → length (record_bytes record_video_nal (nal_payload (header_of f) f.bytes))
      ≡ 36 + length f.bytes
length-frame f = omega (
  arith,
  length-record_bytes record_video_nal (nal_payload (header_of f) f.bytes),
  length-nal_payload (header_of f) f.bytes,
)

fits_record :
    (f : EncodedFrame)
    → is_too_large f ≡ false
    → length (nal_payload (header_of f) f.bytes) ≤ tcp_max_record_payload
unfolding is_too_large
fits_record f fits = ground (arith, length-nal_payload (header_of f) f.bytes)

-- What the functions on a list of frames do with a first one that is too large, or not.
module _ (f : EncodedFrame) (fs : List Item) (large : is_too_large f ≡ true) where
  stream_size_large : stream_size (frame f ∷ fs) ≡ stream_size fs
  unfolding stream_size
  stream_size_large = chosen _ _ _ large

  wire_large : wire (frame f ∷ fs) ≡ wire fs
  unfolding wire
  wire_large = chosen _ _ _ large

  record_count_large : record_count (frame f ∷ fs) ≡ record_count fs
  unfolding record_count
  record_count_large = chosen _ _ _ large

  played_large : (now : ℕ) → played now (frame f ∷ fs) ≡ played now fs
  unfolding played
  played_large now = chosen _ _ _ large

module _ (f : EncodedFrame) (fs : List Item) (fits : is_too_large f ≡ false) where
  stream_size_fits :
      stream_size (frame f ∷ fs)
      ≡ length (record_bytes record_video_nal (nal_payload (header_of f) f.bytes)) + stream_size fs
  unfolding stream_size
  stream_size_fits = taken _ _ _ fits ∙ omega (arith, length-frame f)

  wire_fits :
      wire (frame f ∷ fs)
      ≡ record_bytes record_video_nal (nal_payload (header_of f) f.bytes) ++ wire fs
  unfolding wire
  wire_fits = taken _ _ _ fits

  record_count_fits : record_count (frame f ∷ fs) ≡ suc (record_count fs)
  unfolding record_count
  record_count_fits = taken _ _ _ fits

  played_fits :
      (now : ℕ) → played now (frame f ∷ fs) ≡ nal f.bytes f.timestamp_ns now ∷ played now fs
  unfolding played
  played_fits now = taken _ _ _ fits

module _ (p : List ℕ) (fs : List Item) where
  stream_size_pose :
      stream_size (pose p ∷ fs) ≡ length (record_bytes record_render_pose p) + stream_size fs
  unfolding stream_size
  stream_size_pose = omega (arith, length-record_bytes record_render_pose p)

  wire_pose : wire (pose p ∷ fs) ≡ record_bytes record_render_pose p ++ wire fs
  unfolding wire
  wire_pose = refl

  record_count_pose : record_count (pose p ∷ fs) ≡ suc (record_count fs)
  unfolding record_count
  record_count_pose = refl

  played_pose : (now : ℕ) → played now (pose p ∷ fs) ≡ played now fs
  unfolding played
  played_pose now = refl

Serves-le : (cs : List Wakeup) (m n : ℕ) → m ≡ n → Serves cs m → Serves cs n
Serves-le cs m n e s = record { no_error = s.no_error; enough = omega (arith, s.enough) }

send_items-wire :
    (s : PacketDispatchState) (c : Connected s) (fs : List Item)
    → All IsSound fs
    → (cs : List Wakeup) → Serves cs (stream_size fs)
    → (cs' : List Wakeup) × (send_items s cs fs ≡ (wire fs, returns true cs'))
unfolding Sends
send_items-wire s c [] ls cs sc = (cs, unfold send_items wire in refl)
send_items-wire s c (pose p ∷ fs) (l, ls) cs sc =
    let wrote : Sends (send_tcp_record (some c.descriptor) record_render_pose p cs)
        (record_bytes record_render_pose p) (stream_size fs) =
      send_tcp_record_lem cs c.descriptor record_render_pose p (stream_size fs) (omega arith)
        (Serves-le cs _ _ (stream_size_pose p fs) sc) in
    let rest = send_items-wire s c fs ls wrote.0 wrote.2 in
    (
      rest.0,
      pose_step s c cs wrote.0 rest.0 p fs (record_bytes record_render_pose p) (wire fs) wrote.1
            rest.1
          ∙ ap (λ bs. (bs, returns true rest.0)) (sym (wire_pose p fs)),
    )
send_items-wire s c (frame f ∷ fs) (l, ls) cs sc = elim (Bool-cases (is_too_large f)) [
  | inl large ↦
      let rest =
        send_items-wire s c fs ls cs (Serves-le cs _ _ (stream_size_large f fs large) sc) in
      (
        rest.0,
        send_step s cs cs rest.0 f fs [] [] (wire fs)
              (send_nal_unit_lem s f c ∙ ap (λ sent. (s, sent)) (chosen _ _ _ large))
              (unfold write_sent in refl) rest.1
            ∙ ap (λ bs. (bs, returns true rest.0)) (sym (wire_large f fs large)),
      )
  | inr fits ↦
      let payload = nal_payload (header_of f) f.bytes in
      let wrote : Sends (send_tcp_record (some c.descriptor) record_video_nal payload cs)
          (record_bytes record_video_nal payload) (stream_size fs) =
        send_tcp_record_lem cs c.descriptor record_video_nal payload (stream_size fs)
          (fits_record f fits) (Serves-le cs _ _ (stream_size_fits f fs fits) sc) in
      let rest = send_items-wire s c fs ls wrote.0 wrote.2 in
      (
        rest.0,
        send_step s cs wrote.0 rest.0 f fs (video_nal (header_of f) f.bytes ∷ [])
              (record_bytes record_video_nal payload) (wire fs)
              (send_nal_unit_lem s f c ∙ ap (λ sent. (s, sent)) (taken _ _ _ fits))
              (write_sent_lem s f cs wrote.0 c (record_bytes record_video_nal payload) wrote.1)
              rest.1
            ∙ ap (λ bs. (bs, returns true rest.0)) (sym (wire_fits f fs fits)),
      )
]

receive_tcp-wire :
    (fs : List Item) (r : Receiver) (now : ℕ) (ds : List Wakeup)
    → All IsSound fs
    → Serves ds (stream_size fs)
    → (r' : Receiver) × (ds' : List Wakeup) × (receive_tcp (record_count fs) r now ds (wire fs)
        ≡ (r', played now fs, listens ds' []))
unfolding Gets header_of
receive_tcp-wire [] r now ds ts sd = (r, ds, unfold receive_tcp wire record_count played in refl)
receive_tcp-wire (pose p ∷ fs) r now ds (t, ts) sd =
    let read : Gets (read_tcp_record ds (record_bytes record_render_pose p ++ wire fs))
        record_render_pose p (wire fs) (stream_size fs) =
      read_tcp_record_lem ds record_render_pose p (wire fs) (stream_size fs) (omega arith)
        (omega arith) (Serves-le ds _ _ (stream_size_pose p fs) sd) in
    let rest = receive_tcp-wire fs r now read.0 ts read.2 in
    (
      rest.0,
      rest.1,
      ap₂ (λ n bs. receive_tcp n r now ds bs) (record_count_pose p fs) (wire_pose p fs)
          ∙ receive_step (record_count fs) r r rest.0 now ds read.0 record_render_pose p
              (record_bytes record_render_pose p ++ wire fs) (wire fs) [] (played now fs)
              (listens rest.1 []) read.1 (unfold receive_record in refl) rest.2
          ∙ ap (λ es. (rest.0, es, listens rest.1 [])) (sym (played_pose p fs now)),
    )
receive_tcp-wire (frame f ∷ fs) r now ds (t, ts) sd = elim (Bool-cases (is_too_large f)) [
  | inl large ↦
      let rest =
        receive_tcp-wire fs r now ds ts (Serves-le ds _ _ (stream_size_large f fs large) sd) in
      (
        rest.0,
        rest.1,
        ap₂ (λ n bs. receive_tcp n r now ds bs) (record_count_large f fs large)
              (wire_large f fs large)
            ∙ rest.2
            ∙ ap (λ es. (rest.0, es, listens rest.1 [])) (sym (played_large f fs large now)),
      )
  | inr fits ↦
      let payload = nal_payload (header_of f) f.bytes in
      let read : Gets (read_tcp_record ds (record_bytes record_video_nal payload ++ wire fs))
          record_video_nal payload (wire fs) (stream_size fs) =
        read_tcp_record_lem ds record_video_nal payload (wire fs) (stream_size fs) (omega arith)
          (fits_record f fits) (Serves-le ds _ _ (stream_size_fits f fs fits) sd) in
      let rest = receive_tcp-wire fs (receives r now) now read.0 ts read.2 in
      (
        rest.0,
        rest.1,
        ap₂ (λ n bs. receive_tcp n r now ds bs) (record_count_fits f fs fits) (wire_fits f fs fits)
            ∙ receive_step (record_count fs) r (receives r now) rest.0 now ds read.0
                record_video_nal payload (record_bytes record_video_nal payload ++ wire fs)
                (wire fs) (nal f.bytes f.timestamp_ns now ∷ []) (played now fs) (listens rest.1 [])
                read.1
                (receive_record_lem r now (header_of f) f.bytes (omega arith) (omega arith)
                  (omega (arith, fits_record f fits, length-nal_payload (header_of f) f.bytes)))
                rest.2
            ∙ ap (λ es. (rest.0, es, listens rest.1 [])) (sym (played_fits f fs fits now)),
      )
]

-- Frames with times below 2^63 ns, and render poses between them as they come, go over the TCP
-- connection of a sender that accepts packets and has its socket. No call fails, but each may be
-- interrupted, or take or bring any number of bytes, as long as there are as many calls as there
-- are bytes. Then the sender writes records, and a receiver that reads as many from these bytes
-- hands each frame to the decoder once, byte for byte, in order and with its time, but for the
-- frames that are too large for a record. Nothing is left over, and the receiver waits for the next
-- record.
pub receive_tcp-send_items :
    (s : PacketDispatchState) (fs : List Item) (r : Receiver) (now : ℕ) (cs ds : List Wakeup)
    → Connected s
    → All IsSound fs
    → Serves cs (stream_size fs)
    → Serves ds (stream_size fs)
    → (bytes : List ℕ) × (cs' : List Wakeup) × (ds' : List Wakeup) × (r' : Receiver) × (send_items s
          cs fs
        ≡ (bytes, returns true cs'))
      × (receive_tcp (record_count fs) r now ds bytes ≡ (r', played now fs, listens ds' []))
receive_tcp-send_items s fs r now cs ds c ts sc sd =
    let sent = send_items-wire s c fs ts cs sc in
    let read = receive_tcp-wire fs r now ds ts sd in
    (wire fs, sent.0, read.1, read.0, sent.1, read.2)

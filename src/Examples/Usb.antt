-- ===== src/Examples/Usb.antt =====
-- Two frames over the USB transport.
use open_xr_osx.Base.{ℕ, ◌+◌, ◌≡◌, refl, true, false, List, [], ◌∷◌, ◌++◌, arith, All, replicate}
use open_xr_osx.Sender.{PacketDispatchState}
use open_xr_osx.Receiver.{Receiver}
use open_xr_osx.Stream.Tcp.Socket.{
  Wakeup, interrupted, ready, read_all, progress, NoError, Serves, Receives, read_all_lem, returns,
}
use open_xr_osx.Stream.Tcp.Video.{Item, pose, frame, listens, send_items, receive_tcp}
use open_xr_osx.Stream.Tcp.Played.{receive_tcp-send_items}
use open_xr_osx.Stream.Tcp.Frames.{
  Connected, IsSound, is_too_large, stream_size, record_count, played,
}
use open_xr_osx.Examples.Streaming.{sender, receiver}

abbrev usb_sender : PacketDispatchState
usb_sender = record sender { video_uses_tcp = true }

usb_sender-Connected : Connected usb_sender
usb_sender-Connected = record { accepting = refl; tcp = refl; descriptor = 5; socket = refl }

abbrev frames : List Item
frames =
    pose (replicate 48 1)
    ∷ frame (record { frame_index = 1; bytes = 9 ∷ 8 ∷ []; is_keyframe = true; timestamp_ns = 300 })
    ∷ frame (record { frame_index = 2; bytes = 7 ∷ []; is_keyframe = false; timestamp_ns = 600 })
    ∷ []

frames-IsSound : All IsSound frames
unfolding replicate
frames-IsSound = (refl, (omega arith, (omega arith, tt)))

-- Four bytes at a time, and a byte at a time.
abbrev slow : List Wakeup
slow = interrupted ∷ replicate 140 (ready 3)

abbrev slower : List Wakeup
slower = ready 0 ∷ interrupted ∷ replicate 140 (ready 0)

slow-Serves : Serves slow (stream_size frames)
unfolding stream_size is_too_large progress NoError replicate
slow-Serves = record { no_error = tt; enough = omega arith }

slower-Serves : Serves slower (stream_size frames)
unfolding stream_size is_too_large progress NoError replicate
slower-Serves = record { no_error = tt; enough = omega arith }

receive_tcp-send_items_example :
    (bytes : List ℕ) × (cs' : List Wakeup) × (ds' : List Wakeup) × (r' : Receiver) × (send_items
        usb_sender slow frames
      ≡ (bytes, returns true cs'))
    × (receive_tcp (record_count frames) receiver 50 slower bytes
        ≡ (r', played 50 frames, listens ds' []))
receive_tcp-send_items_example =
    receive_tcp-send_items usb_sender frames receiver 50 slow slower usb_sender-Connected
      frames-IsSound slow-Serves slower-Serves

five-Serves : Serves (interrupted ∷ replicate 6 (ready 1)) (3 + 2)
unfolding progress NoError replicate
five-Serves = record { no_error = tt; enough = omega arith }

read_all_lem_example :
    Receives
      (read_all 4 (1 ∷ []) (interrupted ∷ replicate 6 (ready 1)) ((2 ∷ 3 ∷ 4 ∷ []) ++ (5 ∷ [])))
      ((1 ∷ []) ++ (2 ∷ 3 ∷ 4 ∷ []))
      (5 ∷ [])
      2
read_all_lem_example =
    read_all_lem (interrupted ∷ replicate 6 (ready 1)) 4 (1 ∷ []) (2 ∷ 3 ∷ 4 ∷ []) (5 ∷ []) 2
      (omega arith) five-Serves

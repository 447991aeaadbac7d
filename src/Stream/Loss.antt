-- ===== src/Stream/Loss.antt =====
-- A network that loses one data packet of a frame, and what it means that the frame still comes
-- through to the decoder.
use open_xr_osx.Base.{
  ℕ, ◌≡◌, ◌≢◌, refl, Bool, not, ◌&&◌, some, List, [], ◌∷◌, arith, ◌==◌, if◌then◌else◌,
}
use open_xr_osx.Protocol.{has_flag, video_flag_fec, Packet}
use open_xr_osx.Sender.{FrameInfo, data_packet, parity_packet}
use open_xr_osx.Receiver.{Receiver, nal, reassemble_frame, receive_all, store_after, deliver}
use open_xr_osx.Stream.Steps.{data_packet_plain, parity_packet_marked}

unfoldable pub is_lost : ℕ → Packet → Bool
is_lost lost p = not (has_flag p.header.flags video_flag_fec) && (p.header.packet_index == lost)

-- All but the data packet `lost`.
unfoldable pub lose : ℕ → List Packet → List Packet
lose lost [] = []
lose lost (p ∷ ps) = let rest = lose lost ps in if is_lost lost p then rest else p ∷ rest

module _ (lost : ℕ) (info : FrameInfo) (i : ℕ) (ps : List Packet) where
  pub lose-data_packet :
      (payload : List ℕ)
      → i ≢ lost
      → lose lost (data_packet info i payload ∷ ps) ≡ data_packet info i payload ∷ lose lost ps
  unfolding lose is_lost data_packet
  lose-data_packet payload ne = rw (data_packet_plain info i payload) (ground arith)

  pub lose-data_packet_here :
      (payload : List ℕ) → i ≡ lost → lose lost (data_packet info i payload ∷ ps) ≡ lose lost ps
  unfolding lose is_lost data_packet
  lose-data_packet_here payload e = rw (data_packet_plain info i payload) (ground arith)

  pub lose-parity_packet :
      (payloads : List (List ℕ))
      → lose lost (parity_packet info i payloads ∷ ps)
        ≡ parity_packet info i payloads ∷ lose lost ps
  unfolding lose is_lost
  lose-parity_packet payloads = rw (parity_packet_marked info i payloads) refl

-- The packets make the receiver hand over exactly these bytes, once, and leave it idle.
abbrev pub Delivers : Receiver → ℕ → List Packet → List ℕ → ℕ → Type 0
Delivers r now ps bytes time =
    (r' : Receiver) × (receive_all r now ps ≡ some (r', nal bytes time now ∷ []))
    × (r'.pending.total_packets ≡ 0)

module _ {bytes : List ℕ} {time : ℕ} (r r1 : Receiver) (now : ℕ) (p : Packet)
    (ps : List Packet) where
  -- A packet after which nothing is handed over.
  pub receive_quiet :
      reassemble_frame r now p ≡ some (r1, [])
      → Delivers r1 now ps bytes time
      → Delivers r now (p ∷ ps) bytes time
  unfolding receive_all store_after
  receive_quiet step (r', eq, idle) = (r', rw (step, receive_all, eq) refl, idle)

  -- The packet that completes the frame.
  pub receive_complete :
      reassemble_frame r now p ≡ some (deliver r1 now)
      → (deliver r1 now).1 ≡ nal bytes time now ∷ []
      → receive_all (deliver r1 now).0 now ps ≡ some ((deliver r1 now).0, [])
      → Delivers r now (p ∷ ps) bytes time
  unfolding receive_all store_after deliver
  receive_complete step out rest =
      ((deliver r1 now).0, rw (step, receive_all, rest, out) refl, refl)

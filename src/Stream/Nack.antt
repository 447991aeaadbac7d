-- ===== src/Stream/Nack.antt =====
-- SendNack and HandleNackRequest: the requests of the receiver bring every missing packet once.
use native.Mathlib.Nat.{div-div-eq-div-mul, pow-succ'}
use mathlib.Core.List.{map-append}
use open_xr_osx.Base.{
  ℕ, zero, suc, ◌+◌, ◌-◌, ◌*◌, ◌/◌, ◌%◌, ◌^◌, ◌≤◌, ◌<◌, ◌≡◌, refl, sym, ap, ◌∙◌, Bool, true, false,
  Bool-cases, not, Option, none, some, List, [], ◌∷◌, ◌++◌, map, append_assoc, append-nil, All,
  ℕ_discrete, inl, inr, arith, min, ◌==◌, ==_iff, if◌then◌else◌, get_or, get_elem?, length,
  is_empty, String, ◌||◌,
}
use open_xr_osx.Protocol.{u16, u32, Packet, NackRequest}
use open_xr_osx.Sender.{
  PacketDispatchState, mask_bit, retransmit_loop, find_cached, handle_nack_request, Sent, datagram,
}
use open_xr_osx.Receiver.{
  Receiver, Event, nal, nack, missing_mask, nack_loop, nack_events, send_nack,
}
pub use Bits.{lost_packets}
use Loop.{retransmit_all, nack_loop_lem}
mod Bits
mod Loop

-- What the sender does with the events of a receiver.
pub resend : PacketDispatchState → List Event → List Sent
resend s [] = []
resend s (nal bytes timestamp_ns now ∷ es) = resend s es
resend s (nack n ∷ es) = handle_nack_request s n ++ resend s es

-- The sender can answer a request for this frame.
pub record Answers (s : PacketDispatchState) (frame_index : ℕ) (packets : List (Option Packet))
    : Type 0 where
  pub accepting : s.accepting_packets ≡ true
  pub reachable : is_empty s.client_ip ≡ false
  pub descriptor : ℕ
  pub socket : s.video_socket ≡ some descriptor
  pub cached : find_cached frame_index s.cached_frames ≡ some packets

handle_lem :
    (s : PacketDispatchState) (frame_index : ℕ) (packets : List (Option Packet)) (n : NackRequest)
    → Answers s frame_index packets
    → n.frame_index ≡ frame_index
    → handle_nack_request s n ≡ map (datagram s.client_ip) (retransmit_loop 64 0 n packets)
unfolding handle_nack_request
handle_lem s frame_index packets n a e =
    rw (a.accepting, a.reachable, a.socket, ap (λ i. find_cached i s.cached_frames) e ∙ a.cached)
      refl

IsFor : ℕ → NackRequest → Type 0
IsFor frame_index n = n.frame_index ≡ frame_index

request_if :
    (b : Bool) (frame_index : ℕ) (n : NackRequest) (ns : List NackRequest)
    → IsFor frame_index n
    → All (IsFor frame_index) ns
    → All (IsFor frame_index) (if b then ns else n ∷ ns)
request_if true frame_index n ns e all = all
request_if false frame_index n ns e all = (e, all)

nack_loop-IsFor :
    (rounds start frame_index total : ℕ) (received : List Bool)
    → All (IsFor frame_index) (nack_loop rounds start frame_index total received)
unfolding nack_loop IsFor
nack_loop-IsFor zero start f total received = tt
nack_loop-IsFor (suc rounds) start f total received =
    request_if _ f _ _ refl (nack_loop-IsFor rounds (start + 64) f total received)

resend-nack_events :
    (ns : List NackRequest) (s : PacketDispatchState) (frame_index : ℕ)
    (packets : List (Option Packet))
    → Answers s frame_index packets
    → All (IsFor frame_index) ns
    → resend s (nack_events ns) ≡ map (datagram s.client_ip) (retransmit_all ns packets)
unfolding resend nack_events retransmit_all IsFor
resend-nack_events [] s f packets a all = refl
resend-nack_events (n ∷ ns) s f packets a (e, all) =
    ap (λ sent. sent ++ resend s (nack_events ns)) (handle_lem s f packets n a e)
    ∙ ap (λ sent. map (datagram s.client_ip) (retransmit_loop 64 0 n packets) ++ sent)
        (resend-nack_events ns s f packets a all)
    ∙ sym (
        map-append (datagram s.client_ip) (retransmit_loop 64 0 n packets)
          (retransmit_all ns packets))

not_zero : (n : ℕ) → 0 < n → (n == 0) ≡ false
not_zero n h = ground arith

-- When the receiver asks with `SendNack` for the missing packets of a frame of 1 to 65535 packets,
-- over a control socket to a known server, and the sender accepts packets, has a client and a video
-- socket and holds the frame in its cache, then handling the requests one after the other sends each
-- cached packet that the receiver has not marked as received, once and in the order of the indices,
-- and nothing else.
pub resend-send_nack :
    (r : Receiver) (s : PacketDispatchState) (frame_index total fd : ℕ)
    (packets : List (Option Packet))
    → r.control_socket ≡ some fd
    → is_empty r.server_ip ≡ false
    → 0 < total
    → total < 2 ^ 16
    → Answers s frame_index packets
    → resend s (send_nack r frame_index total).1
      ≡ map (datagram s.client_ip) (lost_packets total 0 r.pending.packet_received packets)
unfolding send_nack
resend-send_nack r s f total fd packets c i p t a =
    let rounds = (total + 63) / 64 in
    let received = r.pending.packet_received in
    rw (c, i, not_zero total p)
      (resend-nack_events (nack_loop rounds 0 f total received) s f packets a
          (nack_loop-IsFor rounds 0 f total received)
        ∙ ap (map (datagram s.client_ip)) (
            nack_loop_lem rounds 0 f total received packets t (omega arith)
            ∙ ap (λ k. lost_packets k 0 received packets) {x = total - 0} {y = total}
                (omega arith)))

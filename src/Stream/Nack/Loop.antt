-- ===== src/Stream/Nack/Loop.antt =====
-- The loop of `SendNack`, one request for up to 64 packets.
use open_xr_osx.Base.{
  ℕ, zero, suc, ◌+◌, ◌-◌, ◌*◌, ◌^◌, ◌≤◌, ◌<◌, ◌≡◌, refl, sym, ap, ◌∙◌, Bool, true, false, Option,
  List, [], ◌∷◌, ◌++◌, append-nil, ℕ_discrete, arith, min, ◌==◌, if◌then◌else◌,
}
use open_xr_osx.Protocol.{u16, Packet, NackRequest}
use open_xr_osx.Sender.{retransmit_loop}
use open_xr_osx.Receiver.{missing_mask, nack_loop}
use open_xr_osx.Stream.Nack.Bits.{
  binary, mask_bit-binary, marked, retransmit_lem, request_lem, lost_packets, lost_packets-add,
}

-- All requests, one after the other.
unfoldable pub retransmit_all : List NackRequest → List (Option Packet) → List Packet
retransmit_all [] packets = []
retransmit_all (n ∷ ns) packets = retransmit_loop 64 0 n packets ++ retransmit_all ns packets

u16_small : (n : ℕ) → n < 2 ^ 16 → u16 n ≡ n
u16_small n h = omega arith

chunk_lem :
    (start total : ℕ) (received : List Bool) (packets : List (Option Packet))
    → lost_packets (min (start + 64) total - start) start received packets
        ++ lost_packets (total - (start + 64)) (start + 64) received packets
      ≡ lost_packets (total - start) start received packets
chunk_lem start total received packets = elim (ℕ_discrete (total - (start + 64)) 0) [
  | yes last ↦
      ap
        (λ k.
          lost_packets k start received packets
          ++ lost_packets (total - (start + 64)) (start + 64) received packets)
        {x = min (start + 64) total - start} {y = total - start} (omega arith)
      ∙ ap
          (λ k.
            lost_packets (total - start) start received packets
            ++ lost_packets k (start + 64) received packets)
          {x = total - (start + 64)} {y = 0} last
      ∙ unfold lost_packets in append-nil (lost_packets (total - start) start received packets)
  | no full ↦
      ap
        (λ k.
          lost_packets k start received packets
          ++ lost_packets (total - (start + 64)) (start + 64) received packets)
        {x = min (start + 64) total - start} {y = 64} (omega arith)
      ∙ sym (lost_packets-add 64 (total - (start + 64)) start received packets)
      ∙ ap (λ k. lost_packets k start received packets) {x = 64 + (total - (start + 64))}
          {y = total - start} (omega arith)
]

-- A chunk with an empty mask has nothing to bring.
none_lost :
    (count start : ℕ) (received : List Bool) (packets : List (Option Packet))
    → count ≤ 64
    → missing_mask count start start received 0 ≡ 0
    → [] ≡ lost_packets count start received packets
unfolding marked binary
none_lost count start received packets h m =
    let request : NackRequest = record {
      frame_index = 0;
      packet_index_start = start;
      total_packets = 0;
      missing_bitmask = 0;
    } in
    sym (retransmit_lem 64 0 request packets [] (λ j. mask_bit-binary [] (0 + j)) (omega arith))
    ∙ request_lem count start received request packets h refl (sym m)

-- A mask with a bit is of a chunk with a packet.
chunk_positive :
    (count start : ℕ) (received : List Bool)
    → (missing_mask count start start received 0 == 0) ≡ false
    → 0 < count
unfolding missing_mask
chunk_positive zero start received e = ground arith
chunk_positive (suc count) start received e = omega arith

is_zero : (n : ℕ) → (n == 0) ≡ true → n ≡ 0
is_zero n e = ground arith

-- A request that is left out where it brings nothing.
retransmit_all_if :
    (b : Bool) (request : NackRequest) (rest : List NackRequest) (packets : List (Option Packet))
    (first : List Packet)
    → (b ≡ true → [] ≡ first)
    → (b ≡ false → retransmit_loop 64 0 request packets ≡ first)
    → retransmit_all (if b then rest else request ∷ rest) packets
      ≡ first ++ retransmit_all rest packets
unfolding retransmit_all
retransmit_all_if true request rest packets first t f =
    ap (λ ps. ps ++ retransmit_all rest packets) (t refl)
retransmit_all_if false request rest packets first t f =
    ap (λ ps. ps ++ retransmit_all rest packets) (f refl)

pub nack_loop_lem :
    (rounds start frame_index total : ℕ) (received : List Bool) (packets : List (Option Packet))
    → total < 2 ^ 16
    → total - start ≤ 64 * rounds
    → retransmit_all (nack_loop rounds start frame_index total received) packets
      ≡ lost_packets (total - start) start received packets
unfolding retransmit_all nack_loop
nack_loop_lem zero start f total received packets t h =
    unfold lost_packets in
    ap (λ k. lost_packets k start received packets) {x = 0} {y = total - start} (omega arith)
nack_loop_lem (suc rounds) start f total received packets t h =
    let count = min (start + 64) total - start in
    let mask = missing_mask count start start received 0 in
    let rest = nack_loop rounds (start + 64) f total received in
    let request : NackRequest = record {
      frame_index = f;
      packet_index_start = u16 start;
      total_packets = u16 total;
      missing_bitmask = mask;
    } in
    retransmit_all_if (mask == 0) request rest packets (lost_packets count start received packets)
      (λ e. none_lost count start received packets (omega arith) (is_zero mask e))
      (λ e.
        request_lem count start received request packets (omega arith)
          (u16_small start (omega (arith, chunk_positive count start received e))) refl)
    ∙ ap (λ ps. lost_packets count start received packets ++ ps)
        (nack_loop_lem rounds (start + 64) f total received packets t (omega arith))
    ∙ chunk_lem start total received packets

-- ===== src/Stream/Nack/Bits.antt =====
-- The bit masks of `SendNack`, and the loop of `HandleNackRequest` over the bits.
use native.Mathlib.Nat.{div-div-eq-div-mul, pow-succ'}
use open_xr_osx.Base.{
  ℕ, zero, suc, ◌+◌, ◌-◌, ◌*◌, ◌/◌, ◌%◌, ◌^◌, ◌≤◌, ◌≡◌, refl, sym, ap, ◌∙◌, Bool, true, false,
  Bool-cases, not, Option, none, some, List, [], ◌∷◌, ◌++◌, append_assoc, inl, inr, arith, ◌==◌,
  if◌then◌else◌, get_or, get_elem?, length,
}
use open_xr_osx.Protocol.{Packet, NackRequest}
use open_xr_osx.Sender.{mask_bit, retransmit_loop}
use open_xr_osx.Receiver.{missing_mask}

-- The number that is written with these digits, the lowest first.
unfoldable pub binary : List Bool → ℕ
binary [] = 0
binary (b ∷ bs) = (if b then 1 else 0) + 2 * binary bs

-- What is missing from `i` on.
missing : (rounds i : ℕ) → List Bool → List Bool
missing zero i received = []
missing (suc rounds) i received = not (get_or received i false) ∷ missing rounds (i + 1) received

half_lem : (b : Bool) (v : ℕ) → ((if b then 1 else 0) + 2 * v) / 2 ≡ v
half_lem true v = omega arith
half_lem false v = omega arith

half_binary : (b : Bool) (v k : ℕ) → ((if b then 1 else 0) + 2 * v) / 2 ^ suc k ≡ v / 2 ^ k
half_binary b v k =
    ap (λ d. ((if b then 1 else 0) + 2 * v) / d) (pow-succ' 2 k)
    ∙ sym (div-div-eq-div-mul ((if b then 1 else 0) + 2 * v) 2 (2 ^ k))
    ∙ ap (λ n. n / 2 ^ k) (half_lem b v)

pub mask_bit-binary : (bs : List Bool) (k : ℕ) → mask_bit (binary bs) k ≡ get_or bs k false
unfolding mask_bit binary
mask_bit-binary [] zero = refl
mask_bit-binary [] (suc k) = ap (λ n. n % 2 == 1) (half_binary false 0 k) ∙ mask_bit-binary [] k
mask_bit-binary (b ∷ bs) zero = ground arith
mask_bit-binary (b ∷ bs) (suc k) =
    ap (λ n. n % 2 == 1) (half_binary b (binary bs) k) ∙ mask_bit-binary bs k

next_power : (i start : ℕ) → start ≤ i → 2 ^ (i + 1 - start) ≡ 2 * 2 ^ (i - start)
next_power i start h =
    ap (λ e. 2 ^ e) {x = i + 1 - start} {y = suc (i - start)} (omega arith)
    ∙ pow-succ' 2 (i - start)

shift_lem : (p v q acc : ℕ) → q ≡ 2 * p → acc + q * v ≡ acc + p * (0 + 2 * v)
shift_lem p v q acc e = ap (λ k. acc + k * v) e ∙ grind arith

add_lem : (p v q acc : ℕ) → q ≡ 2 * p → acc + p + q * v ≡ acc + p * (1 + 2 * v)
add_lem p v q acc e = ap (λ k. acc + p + k * v) e ∙ grind arith

missing_mask-binary :
    (rounds start i acc : ℕ) (received : List Bool)
    → start ≤ i
    → missing_mask rounds start i received acc
      ≡ acc + 2 ^ (i - start) * binary (missing rounds i received)
unfolding missing_mask missing binary
missing_mask-binary zero start i acc received h = omega arith
missing_mask-binary (suc rounds) start i acc received h =
    elim (Bool-cases (get_or received i false)) [
      | inl r ↦ rw r (
          missing_mask-binary rounds start (i + 1) acc received (omega arith)
          ∙ shift_lem (2 ^ (i - start)) (binary (missing rounds (i + 1) received))
              (2 ^ (i + 1 - start)) acc (next_power i start h))
      | inr r ↦ rw r (
          missing_mask-binary rounds start (i + 1) (acc + 2 ^ (i - start)) received (omega arith)
          ∙ add_lem (2 ^ (i - start)) (binary (missing rounds (i + 1) received))
              (2 ^ (i + 1 - start)) acc (next_power i start h))
    ]

missing_mask_lem :
    (rounds start : ℕ) (received : List Bool)
    → missing_mask rounds start start received 0 ≡ binary (missing rounds start received)
missing_mask_lem rounds start received =
    missing_mask-binary rounds start start 0 received (omega arith)
    ∙ ap (λ e. 0 + 2 ^ e * binary (missing rounds start received)) {x = start - start} {y = 0}
        (omega arith)
    ∙ omega arith

-- A packet of the cache, if it is there.
packet_in : Option (Option Packet) → List Packet
packet_in (some (some p)) = p ∷ []
packet_in (some none) = []
packet_in none = []

-- The packets that are marked, from `i` on.
unfoldable pub marked : List Bool → (i : ℕ) → List (Option Packet) → List Packet
unfolding packet_in
marked [] i packets = []
marked (b ∷ bs) i packets =
    (if b then packet_in (get_elem? packets i) else []) ++ marked bs (i + 1) packets

-- The cached packets that the receiver has not got, from `i` on.
unfoldable pub lost_packets : (rounds i : ℕ) → List Bool → List (Option Packet) → List Packet
unfolding packet_in
lost_packets zero i received packets = []
lost_packets (suc rounds) i received packets =
    (if get_or received i false then [] else packet_in (get_elem? packets i))
    ++ lost_packets rounds (i + 1) received packets

marked-missing :
    (rounds i : ℕ) (received : List Bool) (packets : List (Option Packet))
    → marked (missing rounds i received) i packets ≡ lost_packets rounds i received packets
unfolding marked missing lost_packets
marked-missing zero i received packets = refl
marked-missing (suc rounds) i received packets = elim (Bool-cases (get_or received i false)) [
  | inl r ↦ rw r (marked-missing rounds (i + 1) received packets)
  | inr r ↦ rw r (
      ap (λ ps. packet_in (get_elem? packets i) ++ ps)
        (marked-missing rounds (i + 1) received packets))
]

found_lem :
    (o : Option (Option Packet)) (rest : List Packet)
    → elim o as (λ x. List Packet) [ some (some packet) ↦ packet ∷ rest | _ ↦ rest ]
      ≡ packet_in o ++ rest
unfolding packet_in
found_lem none rest = refl
found_lem (some none) rest = refl
found_lem (some (some p)) rest = refl

-- One round of the loop over the bits.
retransmit_step :
    (rounds bit : ℕ) (request : NackRequest) (packets : List (Option Packet)) (b : Bool)
    → mask_bit request.missing_bitmask bit ≡ b
    → retransmit_loop (suc rounds) bit request packets
      ≡ (if b then packet_in (get_elem? packets (request.packet_index_start + bit)) else [])
        ++ retransmit_loop rounds (bit + 1) request packets
unfolding retransmit_loop packet_in
retransmit_step rounds bit request packets true e =
    rw e (found_lem (get_elem? packets (request.packet_index_start + bit)) _)
retransmit_step rounds bit request packets false e = rw e refl

pub retransmit_lem :
    (rounds bit : ℕ) (request : NackRequest) (packets : List (Option Packet)) (bs : List Bool)
    → ((j : ℕ) → mask_bit request.missing_bitmask (bit + j) ≡ get_or bs j false)
    → length bs ≤ rounds
    → retransmit_loop rounds bit request packets
      ≡ marked bs (request.packet_index_start + bit) packets
unfolding marked
retransmit_lem zero bit request packets [] h l = unfold retransmit_loop in refl
retransmit_lem zero bit request packets (b ∷ bs) h l = absurd (omega arith)
retransmit_lem (suc rounds) bit request packets [] h l =
    retransmit_step rounds bit request packets false
      (ap (mask_bit request.missing_bitmask) {x = bit} {y = bit + 0} (omega arith) ∙ h 0)
    ∙ retransmit_lem rounds (bit + 1) request packets []
        (λ j.
          ap (mask_bit request.missing_bitmask) {x = bit + 1 + j} {y = bit + suc j} (omega arith)
          ∙ h (suc j))
        (omega arith)
retransmit_lem (suc rounds) bit request packets (b ∷ bs) h l =
    retransmit_step rounds bit request packets b
      (ap (mask_bit request.missing_bitmask) {x = bit} {y = bit + 0} (omega arith) ∙ h 0)
    ∙ ap
        (λ ps.
          (if b then packet_in (get_elem? packets (request.packet_index_start + bit)) else [])
          ++ ps)
        (retransmit_lem rounds (bit + 1) request packets bs
            (λ j.
              ap (mask_bit request.missing_bitmask) {x = bit + 1 + j} {y = bit + suc j}
                (omega arith)
              ∙ h (suc j))
            (omega arith)
          ∙ ap (λ i. marked bs i packets) {x = request.packet_index_start + (bit + 1)}
              {y = request.packet_index_start + bit + 1} (omega arith))

length-missing : (rounds i : ℕ) (received : List Bool) → length (missing rounds i received) ≡ rounds
unfolding missing
length-missing zero i received = refl
length-missing (suc rounds) i received = ap suc (length-missing rounds (i + 1) received)

-- The first packet, if it is lost.
head_lost : ℕ → List Bool → List (Option Packet) → List Packet
unfolding packet_in
head_lost i received packets =
    if get_or received i false then [] else packet_in (get_elem? packets i)

lost_packets_step :
    (rounds i : ℕ) (received : List Bool) (packets : List (Option Packet))
    → lost_packets (suc rounds) i received packets
      ≡ head_lost i received packets ++ lost_packets rounds (i + 1) received packets
unfolding lost_packets head_lost
lost_packets_step rounds i received packets = refl

pub lost_packets-add :
    (m n i : ℕ) (received : List Bool) (packets : List (Option Packet))
    → lost_packets (m + n) i received packets
      ≡ lost_packets m i received packets ++ lost_packets n (i + m) received packets
lost_packets-add zero n i received packets =
    ap (λ k. lost_packets k i received packets) {x = 0 + n} {y = n} (omega arith)
    ∙ ap (λ k. lost_packets n k received packets) {x = i} {y = i + 0} (omega arith)
    ∙ unfold lost_packets in refl
lost_packets-add (suc m) n i received packets =
    ap (λ k. lost_packets k i received packets) {x = suc m + n} {y = suc (m + n)} (omega arith)
    ∙ lost_packets_step (m + n) i received packets
    ∙ ap (λ ps. head_lost i received packets ++ ps)
        (lost_packets-add m n (i + 1) received packets
          ∙ ap (λ k. lost_packets m (i + 1) received packets ++ lost_packets n k received packets)
              {x = i + 1 + m} {y = i + suc m} (omega arith))
    ∙ sym (
        append_assoc (head_lost i received packets) (lost_packets m (i + 1) received packets)
          (lost_packets n (i + suc m) received packets))
    ∙ ap (λ ps. ps ++ lost_packets n (i + suc m) received packets)
        (sym (lost_packets_step m i received packets))

-- What one request brings, for a chunk of at most 64 packets.
pub request_lem :
    (rounds start : ℕ) (received : List Bool) (request : NackRequest)
    (packets : List (Option Packet))
    → rounds ≤ 64
    → request.packet_index_start ≡ start
    → request.missing_bitmask ≡ missing_mask rounds start start received 0
    → retransmit_loop 64 0 request packets ≡ lost_packets rounds start received packets
request_lem rounds start received request packets h s m =
    retransmit_lem 64 0 request packets (missing rounds start received)
      (λ j.
        ap (mask_bit request.missing_bitmask) {x = 0 + j} {y = j} (omega arith)
        ∙ ap (λ mask. mask_bit mask j) (m ∙ missing_mask_lem rounds start received)
        ∙ mask_bit-binary (missing rounds start received) j)
      (omega (arith, length-missing rounds start received))
    ∙ ap (λ i. marked (missing rounds start received) i packets)
        {x = request.packet_index_start + 0} {y = start} (omega arith)
    ∙ marked-missing rounds start received packets

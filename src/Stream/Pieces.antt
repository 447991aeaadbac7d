-- ===== src/Stream/Pieces.antt =====
-- StreamingServer.cpp, `SendNalUnit`: the packets of a frame as a list over their numbers.
use open_xr_osx.Base.{
  ℕ, zero, suc, ◌+◌, ◌-◌, ◌*◌, ◌^◌, ◌≤◌, ◌<◌, ◌≡◌, refl, sym, ap, ap₂, ◌∙◌, List, [], ◌∷◌, ◌++◌,
  arith, length, min, take, drop, length-take, length-drop, take-append-drop, append-nil,
  if◌then◌else◌,
}
use open_xr_osx.Protocol.{max_packet_payload, Packet}
use open_xr_osx.Sender.{FrameInfo, send_loop, data_packet, parity_packet, ends_group, packet_count}

take_all {ℓ} : {A : Type ℓ} (xs ys : List A) → take (length xs) (xs ++ ys) ≡ xs
take_all [] ys = refl
take_all (x ∷ xs) ys = ap (λ r. x ∷ r) (take_all xs ys)

pub take_all_eq {ℓ} : {A : Type ℓ} (n : ℕ) (xs ys : List A) → n ≡ length xs → take n (xs ++ ys) ≡ xs
take_all_eq n xs ys h = ap (λ k. take k (xs ++ ys)) h ∙ take_all xs ys

drop_all {ℓ} : {A : Type ℓ} (xs ys : List A) → drop (length xs) (xs ++ ys) ≡ ys
drop_all [] ys = refl
drop_all (x ∷ xs) ys = drop_all xs ys

drop_all_eq {ℓ} : {A : Type ℓ} (n : ℕ) (xs ys : List A) → n ≡ length xs → drop n (xs ++ ys) ≡ ys
drop_all_eq n xs ys h = ap (λ k. drop k (xs ++ ys)) h ∙ drop_all xs ys

drop-nil {ℓ} : {A : Type ℓ} (n : ℕ) → drop {A = A} n [] ≡ []
drop-nil zero = refl
drop-nil (suc n) = refl

drop_over {ℓ} : {A : Type ℓ} (n : ℕ) (xs : List A) → length xs ≤ n → drop n xs ≡ []
drop_over n [] h = drop-nil n
drop_over zero (x ∷ xs) h = absurd (omega arith)
drop_over (suc n) (x ∷ xs) h = drop_over n xs (omega arith)

drop-drop {ℓ} : {A : Type ℓ} (m n k : ℕ) (xs : List A) → k ≡ m + n → drop n (drop m xs) ≡ drop k xs
drop-drop m n k [] h = ap (drop n) (drop-nil m) ∙ drop-nil n ∙ sym (drop-nil k)
drop-drop zero n k (x ∷ xs) h = ap (λ j. drop j (x ∷ xs)) (omega arith)
drop-drop (suc m) n zero (x ∷ xs) h = absurd (omega arith)
drop-drop (suc m) n (suc k) (x ∷ xs) h = drop-drop m n k xs (omega arith)

pub take_over {ℓ} : {A : Type ℓ} (n : ℕ) (xs : List A) → length xs ≤ n → take n xs ≡ xs
take_over zero [] h = refl
take_over (suc n) [] h = refl
take_over zero (x ∷ xs) h = absurd (omega arith)
take_over (suc n) (x ∷ xs) h = ap (λ r. x ∷ r) (take_over n xs (omega arith))

-- A full payload replaces all that a slot held.
pub write_full {ℓ} :
    {A : Type ℓ} (n : ℕ) (xs slot : List A)
    → length xs ≡ n
    → length slot ≤ n
    → take n xs ++ drop (length (take n xs)) slot ≡ xs
write_full n xs slot h short =
    ap (λ r. r ++ drop (length r) slot) (take_over n xs (omega arith))
    ∙ ap (λ r. xs ++ r) (drop_over (length xs) slot (omega arith))
    ∙ append-nil xs

-- The payload of packet `i`.
unfoldable pub piece : List ℕ → ℕ → List ℕ
piece bytes i = take max_packet_payload (drop (i * max_packet_payload) bytes)

-- The payloads of `count` packets from `i` on.
unfoldable pub pieces : List ℕ → ℕ → ℕ → List (List ℕ)
pieces bytes i zero = []
pieces bytes i (suc count) = piece bytes i ∷ pieces bytes (i + 1) count

pub length-pieces : (bytes : List ℕ) (i count : ℕ) → length (pieces bytes i count) ≡ count
unfolding pieces
length-pieces bytes i zero = refl
length-pieces bytes i (suc count) = ap suc (length-pieces bytes (i + 1) count)

pub pieces-add :
    (bytes : List ℕ) (i m n j : ℕ)
    → j ≡ i + m
    → pieces bytes i m ++ pieces bytes j n ≡ pieces bytes i (m + n)
unfolding pieces
pieces-add bytes i zero n j h = ap₂ (pieces bytes) (omega arith) (omega arith)
pieces-add bytes i (suc m) n j h =
    ap (λ r. piece bytes i ∷ r) (pieces-add bytes (i + 1) m n j (omega arith))
    ∙ ap (pieces bytes i) e
  where
    e : suc (m + n) ≡ suc m + n
    e = omega arith

-- A group within the payloads so far.
pub pieces_group :
    (bytes : List ℕ) (start count : ℕ)
    → start ≤ count
    → take (count - start) (drop start (pieces bytes 0 count)) ≡ pieces bytes start (count - start)
pieces_group bytes start count le =
    ap (λ ps. take (count - start) (drop start ps))
      (sym (pieces-add bytes 0 start (count - start) start (omega arith) ∙ ap (pieces bytes 0) e))
    ∙ ap (take (count - start)) (
        drop_all_eq start (pieces bytes 0 start) (pieces bytes start (count - start))
          (sym (length-pieces bytes 0 start)))
    ∙ take_over (count - start) (pieces bytes start (count - start))
        (omega (arith, length-pieces bytes start (count - start)))
  where
    e : start + (count - start) ≡ count
    e = omega arith

-- The payloads around one of them.
pub pieces_around :
    (bytes : List ℕ) (i count j : ℕ)
    → i ≤ j
    → j < i + count
    → pieces bytes i count
      ≡ pieces bytes i (j - i) ++ piece bytes j ∷ pieces bytes (j + 1) (i + count - j - 1)
pieces_around bytes i count j le lt =
    ap (pieces bytes i) e
    ∙ sym (pieces-add bytes i (j - i) (suc (i + count - j - 1)) j (omega arith))
    ∙ ap (λ r. pieces bytes i (j - i) ++ r) (unfold pieces in refl)
  where
    e : count ≡ j - i + suc (i + count - j - 1)
    e = omega arith

pub length-piece-le : (bytes : List ℕ) (i : ℕ) → length (piece bytes i) ≤ max_packet_payload
unfolding piece
length-piece-le bytes i =
    omega (arith, length-take max_packet_payload (drop (i * max_packet_payload) bytes))

pub length-piece :
    (bytes : List ℕ) (i : ℕ)
    → length (piece bytes i) ≡ min max_packet_payload (length bytes - i * max_packet_payload)
unfolding piece
length-piece bytes i = omega (
  arith,
  length-take max_packet_payload (drop (i * max_packet_payload) bytes),
  length-drop (i * max_packet_payload) bytes,
)

-- All but the last packet are full.
pub length-piece_full :
    (bytes : List ℕ) (i : ℕ)
    → (i + 1) * max_packet_payload ≤ length bytes
    → length (piece bytes i) ≡ max_packet_payload
unfolding piece
length-piece_full bytes i h = omega (
  arith,
  length-take max_packet_payload (drop (i * max_packet_payload) bytes),
  length-drop (i * max_packet_payload) bytes,
)

-- The payloads as one text.
unfoldable pub joined : List ℕ → ℕ → ℕ → List ℕ
joined bytes i zero = []
joined bytes i (suc count) = piece bytes i ++ joined bytes (i + 1) count

-- Together the payloads are the frame.
pub joined_from :
    (bytes : List ℕ) (i count : ℕ)
    → length bytes ≤ (i + count) * max_packet_payload
    → joined bytes i count ≡ drop (i * max_packet_payload) bytes
unfolding joined piece
joined_from bytes i zero h = sym (drop_over (i * max_packet_payload) bytes (omega arith))
joined_from bytes i (suc count) h =
    ap (λ r. piece bytes i ++ r) (joined_from bytes (i + 1) count (omega arith))
    ∙ ap (λ r. piece bytes i ++ r)
        (sym (
          drop-drop (i * max_packet_payload) max_packet_payload ((i + 1) * max_packet_payload) bytes
            (omega arith)))
    ∙ take-append-drop max_packet_payload (drop (i * max_packet_payload) bytes)

-- What is sent from packet `i` on.
unfoldable pub wire : ℕ → FrameInfo → List ℕ → ℕ → List Packet
wire zero info bytes i = []
wire (suc rounds) info bytes i =
    let rest = wire rounds info bytes (i + 1) in
    data_packet info i (piece bytes i)
    ∷ (if ends_group info i then parity_packet info i (pieces bytes 0 (i + 1)) ∷ rest else rest)

send_step :
    (info : FrameInfo) (bytes : List ℕ) (i : ℕ) {payloads payloads' : List (List ℕ)}
    {rest rest' : List Packet}
    → payloads ≡ payloads'
    → rest ≡ rest'
    → data_packet info i (piece bytes i)
        ∷ (if ends_group info i then parity_packet info i payloads ∷ rest else rest)
      ≡ data_packet info i (piece bytes i)
        ∷ (if ends_group info i then parity_packet info i payloads' ∷ rest' else rest')
send_step info bytes i p q =
    ap₂
      (λ ps rest.
        data_packet info i (piece bytes i)
        ∷ (if ends_group info i then parity_packet info i ps ∷ rest else rest))
      p q

pieces_last :
    (bytes : List ℕ) (i : ℕ) → pieces bytes 0 i ++ piece bytes i ∷ [] ≡ pieces bytes 0 (i + 1)
unfolding pieces
pieces_last bytes i = pieces-add bytes 0 i 1 i (omega arith)

pub send_loop-wire :
    (rounds : ℕ) (info : FrameInfo) (bytes : List ℕ) (i offset : ℕ) (payloads : List (List ℕ))
    → (i + rounds) * max_packet_payload < length bytes + max_packet_payload
    → offset ≡ i * max_packet_payload
    → payloads ≡ pieces bytes 0 i
    → (send_loop rounds info bytes i offset payloads).0 ≡ wire rounds info bytes i
unfolding send_loop wire piece
send_loop-wire zero info bytes i offset payloads h o p = refl
send_loop-wire (suc zero) info bytes i offset payloads h o p =
    rw (o, p) (send_step info bytes i (pieces_last bytes i) refl)
send_loop-wire (suc (suc rounds)) info bytes i offset payloads h o p =
    rw (o, p)
      (send_step info bytes i (pieces_last bytes i) (
        send_loop-wire (suc rounds) info bytes (i + 1) _ _ (omega arith)
          (omega (arith, length-piece_full bytes i (omega arith))) (pieces_last bytes i)))

-- The number of packets is exact, as long as it fits its uint16.
pub packet_count_bounds :
    (bytes : List ℕ)
    → length bytes ≤ (2 ^ 16 - 1) * max_packet_payload
    → (length bytes ≤ packet_count bytes * max_packet_payload)
      × (packet_count bytes * max_packet_payload < length bytes + max_packet_payload)
      × (packet_count bytes < 2 ^ 16)
unfolding packet_count
packet_count_bounds bytes h = omega arith

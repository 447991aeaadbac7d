-- ===== src/Fec/Recovery.antt =====
-- What the parity packet recovers.
use Prim.Native.Nat.{bit_xor}
use open_xr_osx.Base.{
  ℕ, zero, suc, ◌-◌, ◌≤◌, ◌≡◌, refl, ap, ap₂, sym, ◌∙◌, List, [], ◌∷◌, ◌++◌, arith, length,
  length-append, replicate, length-replicate,
}
use open_xr_osx.Bytes.{zero-bit_xor, bit_xor_self, bit_xor_comm, bit_xor_assoc}
use open_xr_osx.Protocol.{max_packet_payload}
use open_xr_osx.Fec.{xor_into, xor_all, encode, decode}

pub length-xor_into : (o p : List ℕ) → length (xor_into o p) ≡ length o
unfolding xor_into
length-xor_into [] p = refl
length-xor_into (o ∷ os) [] = refl
length-xor_into (o ∷ os) (b ∷ bs) = ap suc (length-xor_into os bs)

pub length-xor_all : (o : List ℕ) (ps : List (List ℕ)) → length (xor_all o ps) ≡ length o
unfolding xor_all
length-xor_all o [] = refl
length-xor_all o (p ∷ ps) = length-xor_all (xor_into o p) ps ∙ length-xor_into o p

pub length-encode : (ps : List (List ℕ)) → length (encode ps) ≡ max_packet_payload
unfolding encode
length-encode ps = length-xor_all _ ps ∙ length-replicate max_packet_payload 0

bit_xor_swap : (a b c : ℕ) → bit_xor (bit_xor a b) c ≡ bit_xor (bit_xor a c) b
bit_xor_swap a b c =
    bit_xor_assoc a b c ∙ ap (bit_xor a) (bit_xor_comm b c) ∙ sym (bit_xor_assoc a c b)

bit_xor_twice : (a b : ℕ) → bit_xor (bit_xor a b) b ≡ a
bit_xor_twice a b =
    bit_xor_assoc a b b ∙ ap (bit_xor a) (bit_xor_self b) ∙ bit_xor_comm a 0 ∙ zero-bit_xor a

xor_into_swap : (o p q : List ℕ) → xor_into (xor_into o p) q ≡ xor_into (xor_into o q) p
unfolding xor_into
xor_into_swap [] p q = refl
xor_into_swap (o ∷ os) [] [] = refl
xor_into_swap (o ∷ os) [] (c ∷ cs) = refl
xor_into_swap (o ∷ os) (b ∷ bs) [] = refl
xor_into_swap (o ∷ os) (b ∷ bs) (c ∷ cs) = ap₂ ◌∷◌ (bit_xor_swap o b c) (xor_into_swap os bs cs)

xor_into_twice : (o p : List ℕ) → xor_into (xor_into o p) p ≡ o
unfolding xor_into
xor_into_twice [] p = refl
xor_into_twice (o ∷ os) [] = refl
xor_into_twice (o ∷ os) (b ∷ bs) = ap₂ ◌∷◌ (bit_xor_twice o b) (xor_into_twice os bs)

-- A packet folded in early might as well come last.
xor_all-xor_into :
    (o p : List ℕ) (ps : List (List ℕ)) → xor_all (xor_into o p) ps ≡ xor_into (xor_all o ps) p
unfolding xor_all
xor_all-xor_into o p [] = refl
xor_all-xor_into o p (q ∷ ps) =
    ap (λ x. xor_all x ps) (xor_into_swap o p q) ∙ xor_all-xor_into (xor_into o q) p ps

xor_all-append :
    (o : List ℕ) (ps qs : List (List ℕ)) → xor_all o (ps ++ qs) ≡ xor_all (xor_all o ps) qs
unfolding xor_all
xor_all-append o [] qs = refl
xor_all-append o (p ∷ ps) qs = xor_all-append (xor_into o p) ps qs

xor_all_twice : (o : List ℕ) (ps : List (List ℕ)) → xor_all (xor_all o ps) ps ≡ o
unfolding xor_all
xor_all_twice o [] = refl
xor_all_twice o (p ∷ ps) =
    ap (λ x. xor_all (xor_into x p) ps) (xor_all-xor_into o p ps)
    ∙ ap (λ x. xor_all x ps) (xor_into_twice (xor_all o ps) p)
    ∙ xor_all_twice o ps

-- A packet in the middle of a group might as well come last.
xor_all_middle :
    (o lost : List ℕ) (before after : List (List ℕ))
    → xor_all o (before ++ lost ∷ after) ≡ xor_into (xor_all o (before ++ after)) lost
unfolding xor_all
xor_all_middle o lost before after =
    xor_all-append o before (lost ∷ after)
    ∙ xor_all-xor_into (xor_all o before) lost after
    ∙ ap (λ x. xor_into x lost) (sym (xor_all-append o before after))

-- What a slot of `n` bytes holds after a payload is copied into zeros.
unfoldable pub pad : ℕ → List ℕ → List ℕ
pad n p = p ++ replicate (n - length p) 0

pub length-pad : (n : ℕ) (p : List ℕ) → length p ≤ n → length (pad n p) ≡ n
unfolding pad
length-pad n p h =
    omega (
      arith,
      length-append p (replicate (n - length p) 0),
      length-replicate {A = ℕ} (n - length p) 0,
    )

xor_into-zeros : (n : ℕ) (p : List ℕ) → length p ≤ n → xor_into (replicate n 0) p ≡ pad n p
unfolding xor_into replicate pad
xor_into-zeros zero [] h = refl
xor_into-zeros zero (b ∷ bs) h = absurd (omega arith)
xor_into-zeros (suc n) [] h = let e : suc n ≡ suc n - 0 = omega arith in ap (λ k. replicate k 0) e
xor_into-zeros (suc n) (b ∷ bs) h =
    ap₂ ◌∷◌ (zero-bit_xor b) (xor_into-zeros n bs (omega arith))
    ∙ ap (λ k. b ∷ (bs ++ replicate k 0)) e
  where
    e : n - length bs ≡ suc n - suc (length bs)
    e = omega arith

-- If one packet of a group is lost, `Decode` on the others and the parity gives back its bytes,
-- followed by zeros up to the maximum payload, wherever it stood in the group.
pub decode-encode :
    (before after : List (List ℕ)) (lost : List ℕ)
    → length lost ≤ max_packet_payload
    → decode (before ++ after) (encode (before ++ lost ∷ after)) ≡ pad max_packet_payload lost
unfolding decode encode
decode-encode before after lost h =
    ap (λ x. xor_all x (before ++ after))
      (xor_all_middle (replicate max_packet_payload 0) lost before after)
    ∙ xor_all-xor_into _ lost (before ++ after)
    ∙ ap (λ x. xor_into x lost) (xor_all_twice _ (before ++ after))
    ∙ xor_into-zeros max_packet_payload lost h

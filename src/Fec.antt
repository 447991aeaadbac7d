-- ===== src/Fec.antt =====
-- clients/common/src/FecCodec.h: exclusive-or parity over groups of ten packets.
pub mod Recovery
pub mod Groups
use Prim.Native.Nat.{bit_xor}
use open_xr_osx.Base.{ℕ, ◌+◌, ◌-◌, ◌*◌, ◌/◌, List, [], ◌∷◌, min, replicate}
use open_xr_osx.Protocol.{u32, fec_group_size, max_packet_payload}

-- `for (j = 0; j < payloadSizes[i]; j++) out[j] ^= payloads[i][j]`. Where a payload is longer than
-- the buffer the source writes out of bounds, and here the rest is ignored; no payload is.
unfoldable pub xor_into : List ℕ → List ℕ → List ℕ
xor_into [] p = []
xor_into (o ∷ os) [] = o ∷ os
xor_into (o ∷ os) (b ∷ bs) = bit_xor o b ∷ xor_into os bs

-- The loop over the packets.
unfoldable pub xor_all : List ℕ → List (List ℕ) → List ℕ
xor_all out [] = out
xor_all out (p ∷ ps) = xor_all (xor_into out p) ps

unfoldable pub encode : List (List ℕ) → List ℕ
encode payloads = xor_all (replicate max_packet_payload 0) payloads

-- The recovered bytes; the size that the source returns beside them is always the maximum.
unfoldable pub decode : List (List ℕ) → List ℕ → List ℕ
decode present fec_payload = xor_all fec_payload present

unfoldable pub group_count : ℕ → ℕ
group_count total_data_packets = u32 (total_data_packets + fec_group_size - 1) / fec_group_size

-- `[outStart, outEnd)`
unfoldable pub group_range : ℕ → ℕ → ℕ × ℕ
group_range group_index total_data_packets =
    let start = u32 (group_index * fec_group_size) in
    (start, min (u32 (start + fec_group_size)) total_data_packets)

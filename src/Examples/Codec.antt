-- ===== src/Examples/Codec.antt =====
-- FecCodec.h at concrete inputs.
use open_xr_osx.Base.{ℕ, ◌/◌, ◌≤◌, ◌<◌, ◌≡◌, ◌↔◌, List, [], ◌∷◌, ◌++◌, arith}
use open_xr_osx.Protocol.{fec_group_size, max_packet_payload}
use open_xr_osx.Fec.{encode, decode, group_count, group_range}
use open_xr_osx.Fec.Recovery.{pad, decode-encode}
use open_xr_osx.Fec.Groups.{group_range_iff}

abbrev first : List ℕ
first = 1 ∷ 2 ∷ []

abbrev second : List ℕ
second = 7 ∷ []

decode-encode_example :
    decode ((first ∷ []) ++ []) (encode ((first ∷ []) ++ second ∷ []))
    ≡ pad max_packet_payload second
decode-encode_example = decode-encode (first ∷ []) [] second (omega arith)

two_groups : 1 < group_count 13
unfolding group_count
two_groups = omega arith

group_range_iff_example :
    (12 / fec_group_size < group_count 13)
    × (((group_range 1 13).0 ≤ 12) × (12 < (group_range 1 13).1) ↔ (1 ≡ 12 / fec_group_size))
group_range_iff_example = group_range_iff 13 12 1 (omega arith) (omega arith) two_groups

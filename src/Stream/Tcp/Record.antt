-- ===== src/Stream/Tcp/Record.antt =====
-- clients/common/src/Protocol.h, the struct TcpRecordHeader; `SendTcpRecord` of
-- runtime/src/StreamingServer.cpp and `ReadTcpRecord` of NetworkReceiver.cpp (and of
-- StreamingServer.cpp, which has the same). Both ends are little-endian.
use native.Mathlib.Nat.{pow-succ'}
use open_xr_osx.Base.{
  ℕ, zero, suc, ◌+◌, ◌*◌, ◌/◌, ◌%◌, ◌^◌, ◌≤◌, ◌<◌, ◌≡◌, refl, sym, ap, ◌∙◌, Bool, true, false, ◌&&◌,
  arith, Option, none, some, List, [], ◌∷◌, ◌++◌, append_assoc, append-nil, length, length-append,
  take, drop, ltb, leb, ◌==◌, if◌then◌else◌,
}
use open_xr_osx.Protocol.{u32, tcp_record_magic, tcp_record_version, tcp_max_record_payload}
use open_xr_osx.Stream.Tcp.Socket.{
  Wakeup, Read, complete, broken, waits, read_all, Written, returns, blocks, send_all, Serves,
  Receives, read_all_lem, Sends, send_all_lem,
}

-- The bytes of an unsigned integer of that many bytes.
unfoldable pub le : ℕ → ℕ → List ℕ
le zero n = []
le (suc width) n = n % 256 ∷ le width (n / 256)

unfoldable pub from_le : List ℕ → ℕ
from_le [] = 0
from_le (b ∷ bs) = b + 256 * from_le bs

-- `TcpRecordType::VideoNal` and `TcpRecordType::RenderPose`
abbrev pub record_video_nal : ℕ
record_video_nal = 3

abbrev pub record_render_pose : ℕ
record_render_pose = 4

abbrev pub sizeof_tcp_record_header : ℕ
sizeof_tcp_record_header = 12

unfoldable pub record_header : (type payload_size : ℕ) → List ℕ
unfolding le
record_header type payload_size =
    le 4 tcp_record_magic ++ le 2 tcp_record_version ++ le 2 type ++ le 4 (u32 payload_size)

-- The second part, after the header was written.
unfoldable pub send_payload : List ℕ × Written → List ℕ → List ℕ × Written
unfolding send_all
send_payload (out, blocks) payload = (out, blocks)
send_payload (out, returns false cs) payload = (out, returns false cs)
send_payload (out, returns true cs) payload =
    let (out', end) = send_all cs payload in
    if length payload == 0 then (out, returns true cs) else (out ++ out', end)

-- What is written, and what the call returns.
unfoldable pub send_tcp_record : Option ℕ → (type : ℕ) → List ℕ → List Wakeup → List ℕ × Written
unfolding record_header send_payload
send_tcp_record none type payload cs = ([], returns false cs)
send_tcp_record (some fd) type payload cs =
    if ltb tcp_max_record_payload (length payload)
    then ([], returns false cs)
    else send_payload (send_all cs (record_header type (length payload))) payload

-- A record, `false`, or a call that has not returned.
pub data ReadRecord : Type 0 where
  got : (type : ℕ) → (payload : List ℕ) → (calls : List Wakeup) → (incoming : List ℕ) → ReadRecord
  no_record : ReadRecord
  no_return : ReadRecord

unfoldable pub with_payload : ℕ → Read → ReadRecord
with_payload type (complete payload cs incoming) = got type payload cs incoming
with_payload type broken = no_record
with_payload type waits = no_return

-- A payload of no bytes takes no call.
unfoldable pub with_header : Read → ReadRecord
unfolding read_all with_payload from_le
with_header broken = no_record
with_header waits = no_return
with_header (complete header cs incoming) =
    let size = from_le (drop 8 header) in
    if (from_le (take 4 header) == tcp_record_magic)
      && ((from_le (take 2 (drop 4 header)) == tcp_record_version)
          && leb size tcp_max_record_payload)
    then with_payload (from_le (take 2 (drop 6 header))) (read_all size [] cs incoming)
    else no_record

unfoldable pub read_tcp_record : List Wakeup → List ℕ → ReadRecord
unfolding read_all with_header
read_tcp_record cs incoming = with_header (read_all sizeof_tcp_record_header [] cs incoming)

pub from_le-le : (width n : ℕ) → n < 256 ^ width → from_le (le width n) ≡ n
unfolding le from_le
from_le-le zero n h = omega arith
from_le-le (suc width) n h =
    let power : 256 ^ suc width ≡ 256 * 256 ^ width = pow-succ' 256 width in
    let rest = from_le-le width (n / 256) (omega (arith, power)) in omega (arith, rest)

abbrev pub record_bytes : (type : ℕ) → List ℕ → List ℕ
record_bytes type payload = record_header type (length payload) ++ payload

-- The record is read whole, and the calls that are left serve what comes after it.
unfoldable pub Gets : ReadRecord → (type : ℕ) (payload rest : List ℕ) (more : ℕ) → Type 0
Gets r type payload rest more = (cs : List Wakeup) × (r ≡ got type payload cs rest) × Serves cs more

within : (n : ℕ) → n ≤ tcp_max_record_payload → leb n tcp_max_record_payload ≡ true
within n h = ground arith

small : (n : ℕ) → n ≤ tcp_max_record_payload → ltb tcp_max_record_payload n ≡ false
small n h = ground arith

sent_whole : (b : Bool) (x y : List ℕ × Written) → b ≡ false → (if b then x else y) ≡ y
sent_whole b x y e = rw e refl

length-record_header : (type size : ℕ) → length (record_header type size) ≡ sizeof_tcp_record_header
unfolding record_header
length-record_header type size = refl

send_payload_lem :
    (cs : List Wakeup) (header payload : List ℕ) (more : ℕ)
    → Serves cs (length payload + more)
    → Sends (send_payload (header, returns true cs) payload) (header ++ payload) more
unfolding send_payload Sends
send_payload_lem cs header [] more s = (
  cs,
  ap (λ bs. (bs, returns true cs)) (sym (append-nil header)),
  record { no_error = s.no_error; enough = omega (arith, s.enough) },
)
send_payload_lem cs header (b ∷ bs) more s =
    let sent = send_all_lem cs (b ∷ bs) more s in
    (
      sent.0,
      sent_whole (suc (length bs) == 0) _ _ (ground arith) ∙ ap (λ w. (header ++ w.0, w.1)) sent.1,
      sent.2,
    )

with_header_lem :
    (type : ℕ) (payload : List ℕ) (cs : List Wakeup) (incoming : List ℕ)
    → type < 2 ^ 16
    → length payload ≤ tcp_max_record_payload
    → with_header (complete (record_header type (length payload)) cs incoming)
      ≡ with_payload type (read_all (length payload) [] cs incoming)
unfolding with_header record_header le
with_header_lem type payload cs incoming t l =
    let size : from_le (le 4 (u32 (length payload))) ≡ length payload =
      from_le-le 4 (u32 (length payload)) (omega arith) ∙ omega arith in
    let kind : from_le (le 2 type) ≡ type = from_le-le 2 type (omega arith) in
    rw (size, kind, within (length payload) l) refl

pub read_tcp_record_lem :
    (cs : List Wakeup) (type : ℕ) (payload rest : List ℕ) (more : ℕ)
    → type < 2 ^ 16
    → length payload ≤ tcp_max_record_payload
    → Serves cs (length (record_bytes type payload) + more)
    → Gets (read_tcp_record cs (record_bytes type payload ++ rest)) type payload rest more
unfolding read_tcp_record Gets Receives
read_tcp_record_lem cs type payload rest more t l s =
    let header = record_header type (length payload) in
    let first =
      read_all_lem cs sizeof_tcp_record_header [] header (payload ++ rest) (length payload + more)
        (omega (arith, length-record_header type (length payload)))
        (record {
          no_error = s.no_error;
          enough = omega (arith, s.enough, length-append {0} header payload);
        }) in
    let second = read_all_lem first.0 (length payload) [] payload rest more (omega arith) first.2 in
    (
      second.0,
      ap (λ bs. with_header (read_all sizeof_tcp_record_header [] cs bs))
            (append_assoc header payload rest)
          ∙ ap with_header first.1
          ∙ with_header_lem type payload first.0 (payload ++ rest) t l
          ∙ ap (with_payload type) second.1,
      second.2,
    )

pub send_tcp_record_lem :
    (cs : List Wakeup) (fd type : ℕ) (payload : List ℕ) (more : ℕ)
    → length payload ≤ tcp_max_record_payload
    → Serves cs (length (record_bytes type payload) + more)
    → Sends (send_tcp_record (some fd) type payload cs) (record_bytes type payload) more
unfolding send_tcp_record Sends
send_tcp_record_lem cs fd type payload more l s =
    let header = record_header type (length payload) in
    let first = send_all_lem cs header (length payload + more) (record {
      no_error = s.no_error;
      enough = omega (arith, s.enough, length-append {0} header payload);
    }) in
    let second = send_payload_lem first.0 header payload more first.2 in
    (
      second.0,
      sent_whole _ _ _ (small _ l) ∙ ap (λ w. send_payload w payload) first.1 ∙ second.1,
      second.2,
    )

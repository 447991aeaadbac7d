-- ===== src/Stream/Tcp/Socket.antt =====
-- `SendAll` of runtime/src/StreamingServer.cpp and `ReadAll` of NetworkReceiver.cpp (the two files
-- have the same `ReadAll`).
use open_xr_osx.Base.{
  ℕ, zero, suc, ◌+◌, ◌-◌, ◌≤◌, ◌≡◌, refl, sym, ap, ◌∙◌, Bool, true, false, arith, List, [], ◌∷◌,
  ◌++◌, append_assoc, append-nil, length, length-append, length-take, length-drop, take, drop,
  take-append-drop, min, lt→ltb, ltb, ◌==◌, ◌<◌, if◌then◌else◌,
}

-- What a call of `send` or `recv` returns: -1 with EINTR, -1 with another error or 0, or that up to
-- that many bytes and one more were taken or are there.
pub data Wakeup : Type 0 where
  interrupted : Wakeup
  failed : Wakeup
  ready : ℕ → Wakeup

-- `waits`: the last call has not returned.
pub data Read : Type 0 where
  complete : (bytes : List ℕ) → (calls : List Wakeup) → (incoming : List ℕ) → Read
  broken : Read
  waits : Read

-- `incoming` are the bytes that the other end writes before it closes the connection.
unfoldable pub read_all : ℕ → List ℕ → List Wakeup → List ℕ → Read
read_all size received [] incoming =
    if ltb (length received) size then waits else complete received [] incoming
read_all size received (interrupted ∷ cs) incoming =
    let again = read_all size received cs incoming in
    if ltb (length received) size then again else complete received (interrupted ∷ cs) incoming
read_all size received (failed ∷ cs) incoming =
    if ltb (length received) size then broken else complete received (failed ∷ cs) incoming
read_all size received (ready k ∷ cs) incoming =
    let n = min (suc k) (size - length received) in
    let more = read_all size (received ++ take n incoming) cs (drop n incoming) in
    let closed = length incoming == 0 in
    if ltb (length received) size
    then if closed then broken else more
    else complete received (ready k ∷ cs) incoming

-- `true` or `false` with what was written, or still in a call.
pub data Written : Type 0 where
  returns : Bool → (calls : List Wakeup) → Written
  blocks : Written

-- What is written, and how the call ends; the list is what is left to send.
unfoldable pub send_all : List Wakeup → List ℕ → List ℕ × Written
send_all cs [] = ([], returns true cs)
send_all [] (b ∷ bs) = ([], blocks)
send_all (interrupted ∷ cs) (b ∷ bs) = send_all cs (b ∷ bs)
send_all (failed ∷ cs) (b ∷ bs) = ([], returns false cs)
send_all (ready k ∷ cs) (b ∷ bs) =
    let (out, end) = send_all cs (drop (suc k) (b ∷ bs)) in (take (suc k) (b ∷ bs) ++ out, end)

-- How many calls bring something.
unfoldable pub progress : List Wakeup → ℕ
progress [] = 0
progress (interrupted ∷ cs) = progress cs
progress (failed ∷ cs) = progress cs
progress (ready k ∷ cs) = suc (progress cs)

-- No call fails.
unfoldable pub NoError : List Wakeup → Type 0
NoError [] = Unit {0}
NoError (interrupted ∷ cs) = NoError cs
NoError (failed ∷ cs) = ⊥
NoError (ready k ∷ cs) = NoError cs

-- The calls `cs` are enough for `n` bytes.
pub record Serves (cs : List Wakeup) (n : ℕ) : Type 0 where
  pub no_error : NoError cs
  pub enough : n ≤ progress cs

take-append_le : (n : ℕ) (xs ys : List ℕ) → n ≤ length xs → take n (xs ++ ys) ≡ take n xs
take-append_le zero xs ys h = refl
take-append_le (suc n) [] ys h = absurd (omega arith)
take-append_le (suc n) (x ∷ xs) ys h = ap (λ zs. x ∷ zs) (take-append_le n xs ys (omega arith))

drop-append_le : (n : ℕ) (xs ys : List ℕ) → n ≤ length xs → drop n (xs ++ ys) ≡ drop n xs ++ ys
drop-append_le zero xs ys h = refl
drop-append_le (suc n) [] ys h = absurd (omega arith)
drop-append_le (suc n) (x ∷ xs) ys h = drop-append_le n xs ys (omega arith)

-- The call returns with the bytes, and with calls that serve what comes after them.
unfoldable pub Receives : Read → (bytes rest : List ℕ) (more : ℕ) → Type 0
Receives r bytes rest more = (cs : List Wakeup) × (r ≡ complete bytes cs rest) × Serves cs more

nonzero : (n : ℕ) → 0 < n → (n == 0) ≡ false
nonzero n h = ground arith

-- Nothing is missing any more.
read_all_full :
    (size : ℕ) (received : List ℕ) (cs : List Wakeup) (rest : List ℕ)
    → size ≡ length received
    → read_all size received cs rest ≡ complete received cs rest
unfolding read_all
read_all_full size received [] rest e = ground arith
read_all_full size received (interrupted ∷ cs) rest e = ground arith
read_all_full size received (failed ∷ cs) rest e = ground arith
read_all_full size received (ready k ∷ cs) rest e = ground arith

read_all-ready :
    (k n size : ℕ) (received : List ℕ) (cs : List Wakeup) (incoming : List ℕ)
    → length received < size
    → 0 < length incoming
    → n ≡ min (suc k) (size - length received)
    → read_all size received (ready k ∷ cs) incoming
      ≡ read_all size (received ++ take n incoming) cs (drop n incoming)
unfolding read_all
read_all-ready k n size received cs incoming short some_bytes e =
    rw (lt→ltb _ _ short, nonzero _ some_bytes)
      (ap (λ m. read_all size (received ++ take m incoming) cs (drop m incoming)) (sym e))

read_all_again :
    (size : ℕ) (received : List ℕ) (cs : List Wakeup) (incoming : List ℕ)
    → length received < size
    → read_all size received (interrupted ∷ cs) incoming ≡ read_all size received cs incoming
unfolding read_all
read_all_again size received cs incoming short = rw (lt→ltb _ _ short) refl

-- However many bytes the calls of `recv` bring at a time, and however often they are interrupted,
-- ReadAll returns `true` with exactly the bytes that are missing and leaves the rest in the socket,
-- if no call fails and there are at least as many calls as bytes; the calls that are left serve
-- `more` bytes.
pub read_all_lem :
    (cs : List Wakeup) (size : ℕ) (received bytes rest : List ℕ) (more : ℕ)
    → size ≡ length received + length bytes
    → Serves cs (length bytes + more)
    → Receives (read_all size received cs (bytes ++ rest)) (received ++ bytes) rest more
unfolding Receives
read_all_lem cs size received [] rest more e s = (
  cs,
  read_all_full size received cs rest (omega arith)
      ∙ ap (λ bs. complete bs cs rest) (sym (append-nil received)),
  record { no_error = s.no_error; enough = omega (arith, s.enough) },
)
read_all_lem [] size received (b ∷ bs) rest more e s =
    let none_left : suc (length bs) + more ≤ 0 = unfold progress in s.enough in
    absurd (omega (arith, none_left))
read_all_lem (interrupted ∷ cs) size received (b ∷ bs) rest more e s =
    let found =
      read_all_lem cs size received (b ∷ bs) rest more e (record {
        no_error = unfold NoError in s.no_error;
        enough = unfold progress in s.enough;
      }) in
    (found.0, read_all_again size received cs ((b ∷ bs) ++ rest) (omega arith) ∙ found.1, found.2)
read_all_lem (failed ∷ cs) size received (b ∷ bs) rest more e s =
    absurd (unfold NoError in s.no_error)
read_all_lem (ready k ∷ cs) size received (b ∷ bs) rest more e s =
    let n = min (suc k) (size - length received) in
    let bytes = b ∷ bs in
    let left : suc (length bs) + more ≤ suc (progress cs) = unfold progress in s.enough in
    let found =
      read_all_lem cs size (received ++ take n bytes) (drop n bytes) rest more
        (omega (
          arith,
          length-append {0} received (take n bytes),
          length-take {0} n bytes,
          length-drop {0} n bytes,
        ))
        (record {
          no_error = unfold NoError in s.no_error;
          enough = omega (arith, length-drop {0} n bytes, left);
        }) in
    (
      found.0,
      read_all-ready k n size received cs (bytes ++ rest) (omega arith) (omega arith) refl
          ∙ ap (λ bs'. read_all size (received ++ bs') cs (drop n (bytes ++ rest)))
              (take-append_le n bytes rest (omega arith))
          ∙ ap (read_all size (received ++ take n bytes) cs)
              (drop-append_le n bytes rest (omega arith))
          ∙ found.1
          ∙ ap (λ bs'. complete bs' found.0 rest)
              (append_assoc received (take n bytes) (drop n bytes)
                ∙ ap (λ bs'. received ++ bs') (take-append-drop n bytes)),
      found.2,
    )

-- All bytes are written, and the calls that are left serve as many more.
unfoldable pub Sends : List ℕ × Written → List ℕ → ℕ → Type 0
Sends w bytes more = (cs : List Wakeup) × (w ≡ (bytes, returns true cs)) × Serves cs more

pub send_all_lem :
    (cs : List Wakeup) (bytes : List ℕ) (more : ℕ)
    → Serves cs (length bytes + more)
    → Sends (send_all cs bytes) bytes more
unfolding send_all Sends
send_all_lem [] [] more s =
    ([], refl, record { no_error = s.no_error; enough = omega (arith, s.enough) })
send_all_lem (c ∷ cs) [] more s =
    (c ∷ cs, refl, record { no_error = s.no_error; enough = omega (arith, s.enough) })
send_all_lem [] (b ∷ bs) more s =
    let none_left : suc (length bs) + more ≤ 0 = unfold progress in s.enough in
    absurd (omega (arith, none_left))
send_all_lem (interrupted ∷ cs) (b ∷ bs) more s =
    send_all_lem cs (b ∷ bs) more
      (record { no_error = unfold NoError in s.no_error; enough = unfold progress in s.enough })
send_all_lem (failed ∷ cs) (b ∷ bs) more s = absurd (unfold NoError in s.no_error)
send_all_lem (ready k ∷ cs) (b ∷ bs) more s =
    let left : suc (length bs) + more ≤ suc (progress cs) = unfold progress in s.enough in
    let found = send_all_lem cs (drop k bs) more (record {
      no_error = unfold NoError in s.no_error;
      enough = omega (arith, length-drop {0} k bs, left);
    }) in
    (
      found.0,
      ap (λ w. ((b ∷ take k bs) ++ w.0, w.1)) found.1
          ∙ ap (λ bs'. (b ∷ bs', returns true found.0)) (take-append-drop k bs),
      found.2,
    )

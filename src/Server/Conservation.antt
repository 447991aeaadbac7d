-- ===== src/Server/Conservation.antt =====
-- StreamingServer.cpp: every texture view that is given to `SendFrame` is released once, or waits
-- for the encoder, or is with it.
use open_xr_osx.Base.{
  ℕ, ◌+◌, ◌≡◌, refl, ◌∙◌, Bool, not, Option, none, some, List, [], ◌∷◌, ◌++◌, arith, if-elim,
}
use open_xr_osx.Layers.{Texture, TextureOp, release_texture}
use open_xr_osx.Layers.Balance.{given_up, given_up-append, held_eye, given_up-release_texture}
use open_xr_osx.Server.{
  QueuedFrame, FrameQueue, release_pending_frame, enqueue, send_frame, take_frame, finish_frame,
  drop_pending,
}

-- What happens to the frames: the application submits one, the encoder's thread takes the pending
-- one when it is through with the one before, or the pending one is dropped.
pub data Event : Type 0 where
  sends : Option Texture → Option Texture → Bool → ℕ → Option ℕ → Event
  encodes : Event
  drops : Event

-- The thread finishes a frame before it takes the next one.
unfoldable pub next_frame : FrameQueue → FrameQueue × List TextureOp
next_frame q = let (q', ops) = finish_frame q in (take_frame q', ops)

unfoldable pub step : Event → FrameQueue → FrameQueue × List TextureOp
step (sends left right is_ready now pose) q = send_frame left right is_ready now pose q
step encodes q = next_frame q
step drops q = drop_pending q

unfoldable pub run : List Event → FrameQueue → FrameQueue × List TextureOp
run [] q = (q, [])
run (e ∷ es) q = let (q', ops) = step e q in let (q'', later) = run es q' in (q'', ops ++ later)

module _ (p : Texture → Bool) where
  -- The texture views of some kind that are given to `SendFrame`.
  unfoldable pub sent : List Event → ℕ
  sent [] = 0
  sent (sends left right is_ready now pose ∷ es) = held_eye p left + held_eye p right + sent es
  sent (encodes ∷ es) = sent es
  sent (drops ∷ es) = sent es

  -- Those of a frame.
  abbrev pub in_frame : Option QueuedFrame → ℕ
  in_frame none = 0
  in_frame (some f) = held_eye p (some f.left_texture) + held_eye p (some f.right_texture)

  abbrev pub in_queue : FrameQueue → ℕ
  in_queue q = in_frame q.pending + in_frame q.encoding

  given_up_both :
      (l r : Option Texture)
      → given_up p (release_texture l ++ release_texture r) ≡ held_eye p l + held_eye p r
  given_up_both l r =
      given_up-append p (release_texture l) (release_texture r)
      ∙ omega (arith, given_up-release_texture p l, given_up-release_texture p r)

  released_frame : (f : Option QueuedFrame) → given_up p (release_pending_frame f) ≡ in_frame f
  unfolding release_pending_frame given_up
  released_frame none = refl
  released_frame (some f) = given_up_both (some f.left_texture) (some f.right_texture)

  -- After a step the views are with the queue or released.
  abbrev Kept : ℕ → FrameQueue → FrameQueue × List TextureOp → Type 0
  Kept n q r = in_queue r.0 + given_up p r.1 ≡ in_queue q + n

  send_frame-Kept :
      (left right : Option Texture) (is_ready : Bool) (now : ℕ) (pose : Option ℕ) (q : FrameQueue)
      → Kept (held_eye p left + held_eye p right) q (send_frame left right is_ready now pose q)
  unfolding send_frame enqueue
  send_frame-Kept none right is_ready now pose q = omega (arith, given_up_both none right)
  send_frame-Kept (some l) none is_ready now pose q = omega (arith, given_up_both (some l) none)
  send_frame-Kept (some l) (some r) is_ready now pose q =
      if-elim (Kept (held_eye p (some l) + held_eye p (some r)) q) (not is_ready)
        (λ e. omega (arith, given_up_both (some l) (some r)))
        (λ e. omega (arith, released_frame q.pending))

  next_frame-Kept : (q : FrameQueue) → Kept 0 q (next_frame q)
  unfolding next_frame finish_frame take_frame
  next_frame-Kept q = omega (arith, released_frame q.encoding)

  drop_pending-Kept : (q : FrameQueue) → Kept 0 q (drop_pending q)
  unfolding drop_pending
  drop_pending-Kept q = omega (arith, released_frame q.pending)

  -- Over any sequence of these, every texture view that is given to `SendFrame` is released exactly
  -- once, unless it is still pending or with the encoder (`p` picks out any texture views).
  pub run-conserves :
      (es : List Event) (q : FrameQueue)
      → in_queue (run es q).0 + given_up p (run es q).1 ≡ in_queue q + sent es
  unfolding run step sent given_up
  run-conserves [] q = omega arith
  run-conserves (sends left right is_ready now pose ∷ es) q = omega (
    arith,
    send_frame-Kept left right is_ready now pose q,
    run-conserves es (send_frame left right is_ready now pose q).0,
    given_up-append p (send_frame left right is_ready now pose q).1
        (run es (send_frame left right is_ready now pose q).0).1,
  )
  run-conserves (encodes ∷ es) q = omega (
    arith,
    next_frame-Kept q,
    run-conserves es (next_frame q).0,
    given_up-append p (next_frame q).1 (run es (next_frame q).0).1,
  )
  run-conserves (drops ∷ es) q = omega (
    arith,
    drop_pending-Kept q,
    run-conserves es (drop_pending q).0,
    given_up-append p (drop_pending q).1 (run es (drop_pending q).0).1,
  )

-- ===== src/Session/Textures.antt =====
-- Session.cpp, `EndFrame`: who releases the texture views of a frame.
use open_xr_osx.Base.{
  ℕ, ◌+◌, ◌≤◌, ◌≡◌, refl, ◌∙◌, Bool, not, ◌&&◌, Option, none, some, List, [], arith, if◌then◌else◌,
  if-elim, ltb, take,
}
use open_xr_osx.Xr.{Result, is_success}
use open_xr_osx.Layers.{Layer, Texture, TextureOp, Owned, Eyes, no_eyes, Checked, validate_layers}
use open_xr_osx.Layers.Balance.{
  retained, given_up, held, held_eye, retained-append, given_up-append, release_eyes-balance,
  projections, null_layers, validate_layers-Balanced,
}
use open_xr_osx.Session.{
  Session, is_frame_loop_running, FrameEndInfo, check_end_info, check_streaming_connection,
  hand_over_texture, submit_frame, end_frame_layers, end_frame_given, end_frame_info, end_frame,
}

-- The layers that are looked at.
unfoldable pub given : ℕ → Option (List (Option Layer)) → List (Option Layer)
given layer_count none = []
given layer_count (some layers) = take layer_count layers

unfoldable pub submitted : Option FrameEndInfo → List (Option Layer)
submitted none = []
submitted (some info) = given info.layer_count info.layers

module _ (p : Texture → Bool) where
  hand_over_texture-balance :
      (t : Option Texture)
      → (retained p (hand_over_texture t) ≡ 0) × (given_up p (hand_over_texture t) ≡ held_eye p t)
  unfolding retained given_up hand_over_texture
  hand_over_texture-balance none = (refl, refl)
  hand_over_texture-balance (some t) = (refl, omega arith)

  abbrev SameCount : List TextureOp → Type 0
  SameCount ops = retained p ops ≡ given_up p ops

  abbrev Gives : Eyes → List TextureOp → Type 0
  Gives e ops = (retained p ops ≡ 0) × (given_up p ops ≡ held p e)

  submit_frame-Gives :
      (connected : Bool) (e : Eyes) (s : Session) → Gives e (submit_frame connected e s).1
  unfolding submit_frame
  submit_frame-Gives connected e s =
      if-elim (Gives e) ((check_streaming_connection connected s).streaming_server && connected)
        (λ sent. (
          retained-append p (hand_over_texture e.left) (hand_over_texture e.right)
              ∙ omega (
                arith,
                (hand_over_texture-balance e.left).0,
                (hand_over_texture-balance e.right).0,
              ),
          given_up-append p (hand_over_texture e.left) (hand_over_texture e.right)
              ∙ omega (
                arith,
                (hand_over_texture-balance e.left).1,
                (hand_over_texture-balance e.right).1,
              ),
        ))
        (λ kept. release_eyes-balance p e)

  nothing : SameCount []
  unfolding retained given_up
  nothing = refl

  abbrev After : Session × Result × List TextureOp → Type 0
  After r = SameCount r.2

  module _ (has_slice : ℕ → ℕ → Bool) (connected : Bool) (s : Session) where
    layers_even :
        (layers : List (Option Layer))
        → projections layers ≤ 1
        → null_layers layers ≡ 0
        → After (end_frame_layers has_slice connected layers s)
    unfolding end_frame_layers
    layers_even layers few filled =
        if-elim After (is_success c.result)
          (λ ok. ground (
            arith,
            ok,
            balance,
            retained-append p c.ops ops,
            given_up-append p c.ops ops,
            (submit_frame-Gives connected c.eyes s).0,
            (submit_frame-Gives connected c.eyes s).1,
          ))
          (λ bad. ground (arith, bad, balance))
      where
        owned : Owned
        owned = record { swapchains = s.swapchains; spaces = s.spaces; has_slice = has_slice }

        c : Checked
        c = validate_layers owned layers no_eyes

        ops : List TextureOp
        ops = (submit_frame connected c.eyes s).1

        balance :
            retained p c.ops + held p no_eyes
            ≡ given_up p c.ops + (if is_success c.result then held p c.eyes else 0)
        balance = validate_layers-Balanced p owned layers few filled

    given_even :
        (layer_count : ℕ) (layers : Option (List (Option Layer)))
        → projections (given layer_count layers) ≤ 1
        → null_layers (given layer_count layers) ≡ 0
        → After (end_frame_given has_slice connected layer_count layers s)
    unfolding end_frame_given given
    given_even layer_count none few filled =
        if-elim After (ltb 0 layer_count) (λ e. nothing) (λ e. layers_even [] few filled)
    given_even layer_count (some layers) few filled =
        layers_even (take layer_count layers) few filled

    info_even :
        (max_layers : ℕ) (info : Option FrameEndInfo)
        → projections (submitted info) ≤ 1
        → null_layers (submitted info) ≡ 0
        → After (end_frame_info max_layers has_slice connected info s)
    unfolding end_frame_info submitted
    info_even max_layers none few filled = nothing
    info_even max_layers (some info) few filled =
        if-elim After (not (is_success (check_end_info max_layers info))) (λ e. nothing)
          (λ e. given_even info.layer_count info.layers few filled)

-- If at most one layer of the frame is a projection layer and no layer pointer is null, then on
-- every branch of `EndFrame`, errors included, each texture view that is retained is released or
-- handed over to the streaming server exactly as often (`p` picks out any texture views).
pub end_frame-balance :
    (p : Texture → Bool) (max_layers : ℕ) (has_slice : ℕ → ℕ → Bool) (connected : Bool)
    (info : Option FrameEndInfo) (s : Session)
    → projections (submitted info) ≤ 1
    → null_layers (submitted info) ≡ 0
    → retained p (end_frame max_layers has_slice connected info s).2
      ≡ given_up p (end_frame max_layers has_slice connected info s).2
unfolding end_frame
end_frame-balance p max_layers has_slice connected info s few filled =
    if-elim (After p) (not (is_frame_loop_running s)) (λ e. nothing p)
      (λ e.
        if-elim (After p) (not s.frame_begun) (λ e. nothing p)
          (λ e. info_even p has_slice connected s max_layers info few filled))

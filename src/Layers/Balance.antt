-- ===== src/Layers/Balance.antt =====
-- Session.cpp, `EndFrame`: the texture views that the checks of the layers retain are released
-- again, or kept for both eyes.
use open_xr_osx.Base.{
  ℕ, suc, ◌+◌, ◌≤◌, ◌≡◌, refl, sym, ◌∙◌, Bool, false, Option, none, some, List, [], ◌∷◌, ◌++◌,
  arith, if◌then◌else◌, Bool-cases, inl, inr, length, ◌==◌, subst,
}
use open_xr_osx.Xr.{Result, success, is_success, validation_failure, handle_invalid, layer_invalid}
use open_xr_osx.Layers.{
  Layer, projection, quad, other_layer, ProjectionView, Texture, TextureOp, retain, release,
  hand_over, Owned, Eyes, no_eyes, Checked, release_texture, release_eyes, retain_texture, set_eye,
  last_released_slice, validate_view, validate_views, validate_projection_views,
  validate_projection_layer, validate_layer, validate_layers, owns_space, validate_quad_layer,
}

-- The operations on textures of some kind: how many are retained, and how many are given up.
unfoldable pub retained : (Texture → Bool) → List TextureOp → ℕ
retained p [] = 0
retained p (retain t ∷ ops) = (if p t then 1 else 0) + retained p ops
retained p (release t ∷ ops) = retained p ops
retained p (hand_over t ∷ ops) = retained p ops

unfoldable pub given_up : (Texture → Bool) → List TextureOp → ℕ
given_up p [] = 0
given_up p (retain t ∷ ops) = given_up p ops
given_up p (release t ∷ ops) = (if p t then 1 else 0) + given_up p ops
given_up p (hand_over t ∷ ops) = (if p t then 1 else 0) + given_up p ops

abbrev pub held_eye : (Texture → Bool) → Option Texture → ℕ
held_eye p none = 0
held_eye p (some t) = if p t then 1 else 0

abbrev pub held : (Texture → Bool) → Eyes → ℕ
held p e = held_eye p e.left + held_eye p e.right

module _ (p : Texture → Bool) where
  pub retained-append :
      (xs ys : List TextureOp) → retained p (xs ++ ys) ≡ retained p xs + retained p ys
  unfolding retained
  retained-append [] ys = omega arith
  retained-append (retain t ∷ xs) ys = omega (arith, retained-append xs ys)
  retained-append (release t ∷ xs) ys = retained-append xs ys
  retained-append (hand_over t ∷ xs) ys = retained-append xs ys

  pub given_up-append :
      (xs ys : List TextureOp) → given_up p (xs ++ ys) ≡ given_up p xs + given_up p ys
  unfolding given_up
  given_up-append [] ys = omega arith
  given_up-append (retain t ∷ xs) ys = given_up-append xs ys
  given_up-append (release t ∷ xs) ys = omega (arith, given_up-append xs ys)
  given_up-append (hand_over t ∷ xs) ys = omega (arith, given_up-append xs ys)

  retained-retain_texture : (t : Option Texture) → retained p (retain_texture t) ≡ held_eye p t
  unfolding retained retain_texture
  retained-retain_texture none = refl
  retained-retain_texture (some t) = omega arith

  given_up-retain_texture : (t : Option Texture) → given_up p (retain_texture t) ≡ 0
  unfolding given_up retain_texture
  given_up-retain_texture none = refl
  given_up-retain_texture (some t) = refl

  retained-release_texture : (t : Option Texture) → retained p (release_texture t) ≡ 0
  unfolding retained release_texture
  retained-release_texture none = refl
  retained-release_texture (some t) = refl

  pub given_up-release_texture :
      (t : Option Texture) → given_up p (release_texture t) ≡ held_eye p t
  unfolding given_up release_texture
  given_up-release_texture none = refl
  given_up-release_texture (some t) = omega arith

  pub release_eyes-balance :
      (e : Eyes) → (retained p (release_eyes e) ≡ 0) × (given_up p (release_eyes e) ≡ held p e)
  unfolding release_eyes
  release_eyes-balance e = (
    retained-append (release_texture e.left) (release_texture e.right)
        ∙ omega (arith, retained-release_texture e.left, retained-release_texture e.right),
    given_up-append (release_texture e.left) (release_texture e.right)
        ∙ omega (arith, given_up-release_texture e.left, given_up-release_texture e.right),
  )

-- The number of projection layers, and of null pointers.
unfoldable pub projections : List (Option Layer) → ℕ
projections [] = 0
projections (some (projection space views) ∷ layers) = suc (projections layers)
projections (some (quad space valid_pose valid_size image) ∷ layers) = projections layers
projections (some other_layer ∷ layers) = projections layers
projections (none ∷ layers) = projections layers

unfoldable pub null_layers : List (Option Layer) → ℕ
null_layers [] = 0
null_layers (none ∷ layers) = suc (null_layers layers)
null_layers (some layer ∷ layers) = null_layers layers

module _ (p : Texture → Bool) where
  -- What was held before and what is retained is given up or still held.
  abbrev Settled : Eyes → Checked → Type 0
  Settled e c = retained p c.ops + held p e ≡ given_up p c.ops + held p c.eyes

  -- The same for all layers, where nothing is held after an error.
  abbrev pub Balanced : Eyes → Checked → Type 0
  Balanced e c =
      retained p c.ops + held p e
      ≡ given_up p c.ops + (if is_success c.result then held p c.eyes else 0)

  nothing_done : (r : Result) (e : Eyes) → Settled e (record { result = r; eyes = e; ops = [] })
  unfolding retained given_up
  nothing_done r e = refl

  second_view :
      (o : Owned) (view : ProjectionView) (t : Option Texture)
      → Settled
          (record { left = t; right = none })
          (validate_views o (view ∷ []) 1 (record { left = t; right = none }))
  unfolding validate_views set_eye
  second_view o view t = elim (Bool-cases (is_success (validate_view o view))) [
    | inl e ↦ rw e (
        omega (
          arith,
          retained-append p (retain_texture (last_released_slice o view.sub_image)) [],
          given_up-append p (retain_texture (last_released_slice o view.sub_image)) [],
          retained-retain_texture p (last_released_slice o view.sub_image),
          given_up-retain_texture p (last_released_slice o view.sub_image),
          nothing_done success no_eyes,
        ))
    | inr e ↦ rw e (nothing_done (validate_view o view) (record { left = t; right = none }))
  ]

  both_views :
      (o : Owned) (first second : ProjectionView)
      → Settled no_eyes (validate_views o (first ∷ second ∷ []) 0 no_eyes)
  unfolding validate_views set_eye
  both_views o first second = elim (Bool-cases (is_success (validate_view o first))) [
    | inl e ↦ rw e (
        omega (
          arith,
          retained-append p (retain_texture (last_released_slice o first.sub_image))
              (validate_views o (second ∷ []) 1
                (record { left = last_released_slice o first.sub_image; right = none })).ops,
          given_up-append p (retain_texture (last_released_slice o first.sub_image))
              (validate_views o (second ∷ []) 1
                (record { left = last_released_slice o first.sub_image; right = none })).ops,
          retained-retain_texture p (last_released_slice o first.sub_image),
          given_up-retain_texture p (last_released_slice o first.sub_image),
          second_view o second (last_released_slice o first.sub_image),
        ))
    | inr e ↦ rw e (nothing_done (validate_view o first) no_eyes)
  ]

  views_even :
      (o : Owned) (views : Option (List ProjectionView))
      → Settled no_eyes (validate_projection_views o views no_eyes)
  unfolding validate_projection_views
  views_even o none = nothing_done validation_failure no_eyes
  views_even o (some []) = nothing_done validation_failure no_eyes
  views_even o (some (v ∷ [])) = nothing_done validation_failure no_eyes
  views_even o (some (v ∷ w ∷ [])) = both_views o v w
  views_even o (some (v ∷ w ∷ x ∷ views)) = rw three (nothing_done validation_failure no_eyes)
    where
      three : (length (v ∷ w ∷ x ∷ views) == 2) ≡ false
      three = ground arith

  projection_even :
      (o : Owned) (space : ℕ) (views : Option (List ProjectionView))
      → Settled no_eyes (validate_projection_layer o space views no_eyes)
  unfolding validate_projection_layer
  projection_even o space views = elim (Bool-cases (owns_space space o.spaces)) [
    | inl e ↦ rw e (views_even o views)
    | inr e ↦ rw e (nothing_done handle_invalid no_eyes)
  ]

  projection_layer_even :
      (o : Owned) (space : ℕ) (views : Option (List ProjectionView))
      → Settled no_eyes (validate_layer o (projection space views) no_eyes)
  unfolding validate_layer
  projection_layer_even o space views = projection_even o space views

  -- Without a projection layer the eyes stay as they are.
  layer_even :
      (o : Owned) (layer : Layer) (e : Eyes)
      → projections (some layer ∷ []) ≡ 0
      → (Settled e (validate_layer o layer e)) × ((validate_layer o layer e).eyes ≡ e)
  unfolding validate_layer projections
  layer_even o (projection space views) e h = absurd (omega arith)
  layer_even o (quad space valid_pose valid_size image) e h =
      (nothing_done (validate_quad_layer o space valid_pose valid_size image) e, refl)
  layer_even o other_layer e h = (nothing_done layer_invalid e, refl)

  -- One layer, and those behind it.
  layers_step :
      (o : Owned) (layer : Layer) (layers : List (Option Layer)) (e : Eyes)
      → Settled e (validate_layer o layer e)
      → Balanced
          (validate_layer o layer e).eyes
          (validate_layers o layers (validate_layer o layer e).eyes)
      → Balanced e (validate_layers o (some layer ∷ layers) e)
  unfolding validate_layers
  layers_step o layer layers e even rest =
      elim (Bool-cases (is_success (validate_layer o layer e).result)) [
        | inl ok ↦ rw ok (
            omega (
              arith,
              even,
              rest,
              retained-append p c.ops (validate_layers o layers c.eyes).ops,
              given_up-append p c.ops (validate_layers o layers c.eyes).ops,
            ))
        | inr bad ↦ rw bad (
            ground (
              arith,
              even,
              bad,
              retained-append p c.ops (release_eyes c.eyes),
              given_up-append p c.ops (release_eyes c.eyes),
              (release_eyes-balance p c.eyes).0,
              (release_eyes-balance p c.eyes).1,
            ))
      ]
    where
      c : Checked
      c = validate_layer o layer e

  layers_nothing : (o : Owned) (e : Eyes) → Balanced e (validate_layers o [] e)
  unfolding validate_layers retained given_up
  layers_nothing o e = refl

  -- Behind the projection layer.
  without_projection :
      (o : Owned) (layers : List (Option Layer)) (e : Eyes)
      → projections layers ≡ 0
      → null_layers layers ≡ 0
      → Balanced e (validate_layers o layers e)
  unfolding projections null_layers
  without_projection o [] e h n = layers_nothing o e
  without_projection o (none ∷ layers) e h n = absurd (omega arith)
  without_projection o (some (projection space views) ∷ layers) e h n = absurd (omega arith)
  without_projection o (some (quad space valid_pose valid_size image) ∷ layers) e h n =
      layers_step o (quad space valid_pose valid_size image) layers e
        (layer_even o (quad space valid_pose valid_size image) e refl).0
        (without_projection o layers _ h n)
  without_projection o (some other_layer ∷ layers) e h n =
      layers_step o other_layer layers e (layer_even o other_layer e refl).0
        (without_projection o layers _ h n)

  pub validate_layers-Balanced :
      (o : Owned) (layers : List (Option Layer))
      → projections layers ≤ 1
      → null_layers layers ≡ 0
      → Balanced no_eyes (validate_layers o layers no_eyes)
  unfolding projections null_layers
  validate_layers-Balanced o [] h n = layers_nothing o no_eyes
  validate_layers-Balanced o (none ∷ layers) h n = absurd (omega arith)
  validate_layers-Balanced o (some (projection space views) ∷ layers) h n =
      layers_step o (projection space views) layers no_eyes (projection_layer_even o space views)
        (without_projection o layers _ (omega arith) n)
  validate_layers-Balanced o (some (quad space valid_pose valid_size image) ∷ layers) h n =
      layers_step o (quad space valid_pose valid_size image) layers no_eyes
        (layer_even o (quad space valid_pose valid_size image) no_eyes refl).0
        (subst (λ e. Balanced e (validate_layers o layers e))
          (sym (layer_even o (quad space valid_pose valid_size image) no_eyes refl).1)
          (validate_layers-Balanced o layers h n))
  validate_layers-Balanced o (some other_layer ∷ layers) h n =
      layers_step o other_layer layers no_eyes (layer_even o other_layer no_eyes refl).0 (
        subst (λ e. Balanced e (validate_layers o layers e))
          (sym (layer_even o other_layer no_eyes refl).1) (validate_layers-Balanced o layers h n))

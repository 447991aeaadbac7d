-- ===== src/Layers.antt =====
-- runtime/src/Session.cpp: the checks of the composition layers of a frame
-- (`ValidateSwapchainSubImage`, `ValidateProjectionLayer`, `ValidateQuadLayer`) and the textures
-- they take from the swapchains (Swapchain.mm, `GetLastReleasedTextureSlice` and
-- `ReleaseTextureSlice`). A handle is a number. The tests on floating-point numbers (`IsValidPose`,
-- `IsFiniteFov`, the size of a quad) stand in the layers as their results.
pub mod Bounds
pub mod Balance
use open_xr_osx.Base.{
  ℕ, zero, suc, ◌+◌, Bool, true, false, not, ◌&&◌, ◌||◌, Option, none, some, List, [], ◌∷◌, ◌++◌,
  ltb, leb, ◌==◌, if◌then◌else◌, length, ℤ, is_negative, is_nonpositive, magnitude,
}
use open_xr_osx.Xr.{
  Result, success, validation_failure, handle_invalid, layer_invalid, swapchain_rect_invalid,
  pose_invalid, is_success,
}
use open_xr_osx.Swapchain.{Swapchain, is_image_released}

pub record SubImage : Type 0 where
  pub swapchain : ℕ
  pub offset_x : ℤ  -- int32
  pub offset_y : ℤ  -- int32
  pub width : ℤ  -- int32
  pub height : ℤ  -- int32
  pub image_array_index : ℕ

pub record ProjectionView : Type 0 where
  pub valid_pose : Bool
  pub finite_fov : Bool
  pub sub_image : SubImage

-- A layer by its `type`; `views` is `none` where the pointer is null, and as long as `viewCount`.
pub data Layer : Type 0 where
  projection : ℕ → Option (List ProjectionView) → Layer
  quad : ℕ → Bool → Bool → SubImage → Layer
  other_layer : Layer

-- A texture view, by its swapchain and array index.
pub record Texture : Type 0 where
  pub swapchain : ℕ
  pub array_index : ℕ

-- What happens to texture views: `hand_over` is that the streaming server owns them from then on.
pub data TextureOp : Type 0 where
  retain : Texture → TextureOp
  release : Texture → TextureOp
  hand_over : Texture → TextureOp

-- What the session owns, and which slices of its textures Metal has a view of.
pub record Owned : Type 0 where
  pub swapchains : List (ℕ × Swapchain)
  pub spaces : List ℕ
  pub has_slice : ℕ → ℕ → Bool

-- `FromHandle<Swapchain>` and `OwnsSwapchain`
unfoldable pub find_swapchain : ℕ → List (ℕ × Swapchain) → Option Swapchain
find_swapchain h [] = none
find_swapchain h ((h', s) ∷ ss) = if h' == h then some s else find_swapchain h ss

-- `FromHandle<Space>` and `space->GetSession() == this`
unfoldable pub owns_space : ℕ → List ℕ → Bool
owns_space h [] = false
owns_space h (h' ∷ hs) = (h' == h) || owns_space h hs

-- `offset + extent > size`, in int64, where both are not negative.
abbrev pub exceeds : ℤ → ℤ → ℕ → Bool
exceeds offset extent size = ltb size (magnitude offset + magnitude extent)

unfoldable pub validate_rect : SubImage → Swapchain → Result
validate_rect image s =
    if not (is_image_released s)
    then layer_invalid
    else if is_negative image.offset_x || is_negative image.offset_y
    then swapchain_rect_invalid
    else if is_nonpositive image.width || is_nonpositive image.height
    then swapchain_rect_invalid
    else if exceeds image.offset_x image.width s.width
        || exceeds image.offset_y image.height s.height
    then swapchain_rect_invalid
    else if leb s.array_size image.image_array_index
    then validation_failure
    else success

unfoldable pub validate_sub_image : Owned → SubImage → Result
validate_sub_image o image = elim (find_swapchain image.swapchain o.swapchains) [
  | none ↦ handle_invalid
  | some s ↦ validate_rect image s
]

-- `leftTex` and `rightTex`
pub record Eyes : Type 0 where
  pub left : Option Texture
  pub right : Option Texture

abbrev pub no_eyes : Eyes
no_eyes = record { left = none; right = none }

unfoldable pub release_texture : Option Texture → List TextureOp
release_texture none = []
release_texture (some t) = release t ∷ []

unfoldable pub release_eyes : Eyes → List TextureOp
unfolding release_texture
release_eyes e = release_texture e.left ++ release_texture e.right

-- What a step of the checks leaves.
pub record Checked : Type 0 where
  pub result : Result
  pub eyes : Eyes
  pub ops : List TextureOp

unfoldable pub last_released_slice : Owned → SubImage → Option Texture
last_released_slice o image =
    if o.has_slice image.swapchain image.image_array_index
    then some (record { swapchain = image.swapchain; array_index = image.image_array_index })
    else none

unfoldable pub retain_texture : Option Texture → List TextureOp
retain_texture none = []
retain_texture (some t) = retain t ∷ []

-- `if (viewIndex == 0) leftTex = textureSlice; else rightTex = textureSlice;`
unfoldable pub set_eye : ℕ → Option Texture → Eyes → Eyes
set_eye zero t e = record e { left = t }
set_eye (suc i) t e = record e { right = t }

-- The checks of one view.
unfoldable pub validate_view : Owned → ProjectionView → Result
unfolding validate_sub_image
validate_view o view =
    if not view.valid_pose
    then pose_invalid
    else if not view.finite_fov
    then validation_failure
    else validate_sub_image o view.sub_image

-- The loop over the views from `viewIndex` on.
unfoldable pub validate_views : Owned → List ProjectionView → ℕ → Eyes → Checked
validate_views o [] i e = record { result = success; eyes = e; ops = [] }
validate_views o (view ∷ views) i e =
    let slice = last_released_slice o view.sub_image in
    let rest = validate_views o views (i + 1) (set_eye i slice e) in
    if is_success (validate_view o view)
    then record { result = rest.result; eyes = rest.eyes; ops = retain_texture slice ++ rest.ops }
    else record { result = validate_view o view; eyes = e; ops = [] }

unfoldable pub validate_projection_views : Owned → Option (List ProjectionView) → Eyes → Checked
validate_projection_views o none e = record { result = validation_failure; eyes = e; ops = [] }
validate_projection_views o (some views) e =
    if not (length views == 2)
    then record { result = validation_failure; eyes = e; ops = [] }
    else validate_views o views 0 e

unfoldable pub validate_projection_layer : Owned → ℕ → Option (List ProjectionView) → Eyes → Checked
unfolding validate_projection_views
validate_projection_layer o space views e =
    if not (owns_space space o.spaces)
    then record { result = handle_invalid; eyes = e; ops = [] }
    else validate_projection_views o views e

unfoldable pub validate_quad_layer : Owned → ℕ → Bool → Bool → SubImage → Result
unfolding validate_sub_image
validate_quad_layer o space valid_pose valid_size image =
    if not (owns_space space o.spaces)
    then handle_invalid
    else if not valid_pose
    then pose_invalid
    else if not valid_size
    then validation_failure
    else validate_sub_image o image

-- `switch (layer->type)`, without the releases.
unfoldable pub validate_layer : Owned → Layer → Eyes → Checked
validate_layer o (projection space views) e = validate_projection_layer o space views e
validate_layer o (quad space valid_pose valid_size image) e = record {
  result = validate_quad_layer o space valid_pose valid_size image;
  eyes = e;
  ops = [];
}
validate_layer o other_layer e = record { result = layer_invalid; eyes = e; ops = [] }

-- The loop over the layers. An error releases the textures of both eyes, but for a layer that is
-- null.
unfoldable pub validate_layers : Owned → List (Option Layer) → Eyes → Checked
validate_layers o [] e = record { result = success; eyes = e; ops = [] }
validate_layers o (none ∷ layers) e = record { result = layer_invalid; eyes = e; ops = [] }
validate_layers o (some layer ∷ layers) e =
    let c = validate_layer o layer e in
    let rest = validate_layers o layers c.eyes in
    if is_success c.result
    then record { result = rest.result; eyes = rest.eyes; ops = c.ops ++ rest.ops }
    else record { result = c.result; eyes = c.eyes; ops = c.ops ++ release_eyes c.eyes }

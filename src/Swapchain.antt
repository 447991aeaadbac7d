-- ===== src/Swapchain.antt =====
-- runtime/src/Swapchain.h and Swapchain.mm: the images of a swapchain, which are acquired, waited
-- for and released in order. The textures behind the images belong to Metal and are not modelled. A
-- pointer argument is `none` where it is null, and else the `type` field behind it.
pub mod Order
pub mod Invariant
pub mod Calls
pub mod Queue
use open_xr_osx.Base.{
  ℕ, zero, suc, ◌+◌, ◌%◌, Bool, true, false, not, ◌&&◌, Option, none, some, List, [], ◌∷◌, ◌++◌,
  leb, ◌==◌, if◌then◌else◌, length, get_or, set, replicate,
}
use open_xr_osx.Xr.{
  Result, success, validation_failure, call_order_invalid, StructureType,
  swapchain_image_acquire_info, swapchain_image_wait_info, swapchain_image_release_info,
}

pub data ImageState : Type 0 where
  available : ImageState
  acquired : ImageState
  waited : ImageState

pub record Swapchain : Type 0 where
  pub width : ℕ
  pub height : ℕ
  pub array_size : ℕ
  pub image_count : ℕ
  pub next_acquire_index : ℕ
  pub last_released_index : ℕ
  pub static_image_acquired : Bool
  pub has_released_image : Bool
  pub image_states : List ImageState
  pub acquired_image_order : List ℕ

abbrev pub swapchain_image_count : ℕ
swapchain_image_count = 3

-- `InitMetal`, without the textures.
unfoldable pub init : (width height array_size : ℕ) (static_image : Bool) → Swapchain
init width height array_size static_image =
    let image_count = if static_image then 1 else swapchain_image_count in
    record {
      width = width;
      height = height;
      array_size = if array_size == 0 then 1 else array_size;
      image_count = image_count;
      next_acquire_index = 0;
      last_released_index = 0;
      static_image_acquired = false;
      has_released_image = false;
      image_states = replicate image_count available;
      acquired_image_order = [];
    }

abbrev pub is_available : ImageState → Bool
is_available available = true
is_available acquired = false
is_available waited = false

abbrev pub is_acquired : ImageState → Bool
is_acquired available = false
is_acquired acquired = true
is_acquired waited = false

abbrev pub is_waited : ImageState → Bool
is_waited available = false
is_waited acquired = false
is_waited waited = true

-- `image_states[i]`; the index is in range (`Invariant.Inv`).
abbrev pub state_at : Swapchain → ℕ → ImageState
state_at s i = get_or s.image_states i waited

-- The loop over the candidates, with the rounds that are left; `none` is `acquiredIndex ==
-- imageCount_`.
unfoldable pub find_available : ℕ → ℕ → Swapchain → Option ℕ
find_available zero i s = none
find_available (suc rounds) i s =
    let candidate = (s.next_acquire_index + i) % s.image_count in
    let rest = find_available rounds (i + 1) s in
    if is_available (state_at s candidate) then some candidate else rest

-- `info != nullptr && info->type != expected`
abbrev pub is_wrong : (StructureType → Bool) → Option StructureType → Bool
is_wrong expected none = false
is_wrong expected (some t) = not (expected t)

abbrev pub is_acquire_info : StructureType → Bool
is_acquire_info swapchain_image_acquire_info = true
is_acquire_info t = false

abbrev pub is_wait_info : StructureType → Bool
is_wait_info swapchain_image_wait_info = true
is_wait_info t = false

abbrev pub is_release_info : StructureType → Bool
is_release_info swapchain_image_release_info = true
is_release_info t = false

-- The image `i` goes to the application.
unfoldable pub take_image : Swapchain → ℕ → Swapchain
take_image s i = record s {
  image_states = set s.image_states i acquired;
  acquired_image_order = s.acquired_image_order ++ i ∷ [];
  next_acquire_index = (i + 1) % s.image_count;
  static_image_acquired = s.image_count == 1;
}

-- From `if (acquiredIndex == imageCount_)` on.
unfoldable pub acquire_candidate : Swapchain → Option ℕ → Swapchain × Result × Option ℕ
acquire_candidate s none = (s, call_order_invalid, none)
acquire_candidate s (some i) = (take_image s i, success, some i)

-- The result comes with the index that is written, if any. `has_index` is that the pointer to write
-- it to is not null.
unfoldable pub acquire_image :
    Option StructureType → Bool → Swapchain → Swapchain × Result × Option ℕ
acquire_image info has_index s =
    if is_wrong is_acquire_info info
    then (s, validation_failure, none)
    else if not has_index
    then (s, validation_failure, none)
    else if s.static_image_acquired
    then (s, call_order_invalid, none)
    else if leb s.image_count (length s.acquired_image_order)
    then (s, call_order_invalid, none)
    else acquire_candidate s (find_available s.image_count 0 s)

unfoldable pub wait_oldest : Swapchain → List ℕ → Swapchain × Result
wait_oldest s [] = (s, call_order_invalid)
wait_oldest s (i ∷ is) =
    if is_acquired (state_at s i)
    then (record s { image_states = set s.image_states i waited }, success)
    else (s, call_order_invalid)

-- `waitInfo == nullptr || waitInfo->type != XR_TYPE_SWAPCHAIN_IMAGE_WAIT_INFO`
unfoldable pub wait_image : Option StructureType → Swapchain → Swapchain × Result
wait_image none s = (s, validation_failure)
wait_image (some t) s =
    if not (is_wait_info t) then (s, validation_failure) else wait_oldest s s.acquired_image_order

unfoldable pub release_oldest : Swapchain → List ℕ → Swapchain × Result
release_oldest s [] = (s, call_order_invalid)
release_oldest s (i ∷ is) =
    if is_waited (state_at s i)
    then (
      record s {
        last_released_index = i;
        image_states = set s.image_states i available;
        has_released_image = true;
        acquired_image_order = is;
      },
      success,
    )
    else (s, call_order_invalid)

unfoldable pub release_image : Option StructureType → Swapchain → Swapchain × Result
release_image info s =
    if is_wrong is_release_info info
    then (s, validation_failure)
    else release_oldest s s.acquired_image_order

unfoldable pub is_image_released : Swapchain → Bool
is_image_released s = s.has_released_image && is_available (state_at s s.last_released_index)

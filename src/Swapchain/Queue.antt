-- ===== src/Swapchain/Queue.antt =====
-- Swapchain.mm: what the application sees of the images, a queue whose oldest image may be waited
-- for.
use open_xr_osx.Base.{
  ℕ, ◌<◌, ◌≡◌, refl, ap, ◌∙◌, Bool, true, false, not, Option, some, List, [], ◌∷◌, ◌++◌, arith, set,
  Bool-cases, ℕ_discrete, All, inl, inr,
}
use open_xr_osx.Xr.{Result, success, call_order_invalid, StructureType}
use open_xr_osx.Swapchain.{
  ImageState, available, acquired, waited, Swapchain, is_available, is_acquired, is_waited,
  state_at, take_image, is_wrong, is_wait_info, is_release_info, acquire_image, wait_oldest,
  wait_image, release_oldest, release_image,
}
use open_xr_osx.Swapchain.Invariant.{Inv, state_at-set, oldest, others_kept}
use open_xr_osx.Swapchain.Order.{elem}
use open_xr_osx.Swapchain.Calls.{refuses_acquire, acquire_image_found}

-- The images in the order of their acquisition, and whether the oldest one has been waited for.
abbrev pub Queue : Type 0
Queue = List ℕ × Bool

abbrev pub front_waited : Swapchain → List ℕ → Bool
front_waited s [] = false
front_waited s (i ∷ is) = is_waited (state_at s i)

abbrev pub view : Swapchain → Queue
view s = (s.acquired_image_order, front_waited s s.acquired_image_order)

-- Waiting marks the oldest image, once.
unfoldable pub wait_front : Queue → Queue × Result
wait_front ([], marked) = (([], marked), call_order_invalid)
wait_front (i ∷ is, true) = ((i ∷ is, true), call_order_invalid)
wait_front (i ∷ is, false) = ((i ∷ is, true), success)

-- Releasing takes the oldest image away, if it is marked.
unfoldable pub release_front : Queue → Queue × Result
release_front ([], marked) = (([], marked), call_order_invalid)
release_front (i ∷ is, true) = ((is, false), success)
release_front (i ∷ is, false) = ((i ∷ is, false), call_order_invalid)

acquired_unmarked : (x : ImageState) → is_acquired x ≡ true → is_waited x ≡ false
acquired_unmarked available a = refl
acquired_unmarked acquired a = refl
acquired_unmarked waited a = ground (arith, a)

busy_cases : (x : ImageState) → is_available x ≡ false → is_acquired x ≡ not (is_waited x)
busy_cases available b = ground (arith, b)
busy_cases acquired b = refl
busy_cases waited b = refl

front_acquired :
    (s : Swapchain) (is : List ℕ)
    → All (λ j. is_acquired (state_at s j) ≡ true) is
    → front_waited s is ≡ false
front_acquired s [] all = refl
front_acquired s (i ∷ is) all = acquired_unmarked (state_at s i) all.0

view_at :
    (s : Swapchain) (is : List ℕ) → s.acquired_image_order ≡ is → view s ≡ (is, front_waited s is)
view_at s is e = ap (λ xs. (xs, front_waited s xs)) e

with_result : {q q' : Queue} (r : Result) → q ≡ q' → ◌≡◌ {A = Queue × Result} (q, r) (q', r)
with_result r e = ap (λ q. (q, r)) e

module _ {s : Swapchain} (h : Inv s) where
  front_busy :
      (i : ℕ) (is : List ℕ) → s.acquired_image_order ≡ i ∷ is → is_available (state_at s i) ≡ false
  unfolding elem
  front_busy i is e = h.order i (oldest h i is e) ∙ ap (λ xs. not (elem i xs)) e ∙ ground arith

  wait_oldest-front :
      (is : List ℕ)
      → s.acquired_image_order ≡ is
      → (view (wait_oldest s is).0, (wait_oldest s is).1) ≡ wait_front (is, front_waited s is)
  unfolding wait_oldest wait_front
  wait_oldest-front [] e = with_result _ (view_at s [] e)
  wait_oldest-front (i ∷ is) e = elim (Bool-cases (is_waited (state_at s i))) [
    | inl w ↦
        rw (busy_cases (state_at s i) (front_busy i is e) ∙ ap not w, w)
          (with_result _ (view_at s (i ∷ is) e ∙ ap (λ b. (i ∷ is, b)) w))
    | inr w ↦
        rw (busy_cases (state_at s i) (front_busy i is e) ∙ ap not w, w)
          (with_result _ (
            view_at (record s { image_states = set s.image_states i waited }) (i ∷ is) e
            ∙ ap (λ b. (i ∷ is, b))
                (ap is_waited (state_at-set h i i waited (oldest h i is e)) ∙ ground arith)))
  ]

  release_oldest-front :
      (is : List ℕ)
      → s.acquired_image_order ≡ is
      → (view (release_oldest s is).0, (release_oldest s is).1)
        ≡ release_front (is, front_waited s is)
  unfolding release_oldest release_front
  release_oldest-front [] e = with_result _ (view_at s [] e)
  release_oldest-front (i ∷ is) e = elim (Bool-cases (is_waited (state_at s i))) [
    | inl w ↦ rw w (
        with_result _ (
          ap (λ b. (is, b))
            (front_acquired (record s { image_states = set s.image_states i available }) is
              (others_kept h i is e available))))
    | inr w ↦ rw w (with_result _ (view_at s (i ∷ is) e ∙ ap (λ b. (i ∷ is, b)) w))
  ]

  -- A new image goes behind the others.
  take_image-front :
      (i : ℕ)
      → i < s.image_count
      → is_available (state_at s i) ≡ true
      → view (take_image s i)
        ≡ (s.acquired_image_order ++ i ∷ [], front_waited s s.acquired_image_order)
  unfolding take_image
  take_image-front i lt free =
      ap (λ b. (s.acquired_image_order ++ i ∷ [], b)) (kept s.acquired_image_order refl)
    where
      kept :
          (is : List ℕ)
          → s.acquired_image_order ≡ is
          → front_waited (take_image s i) (is ++ i ∷ []) ≡ front_waited s is
      kept [] e = ap is_waited (state_at-set h i i acquired lt) ∙ ground arith
      kept (j ∷ js) e = ap is_waited (state_at-set h i j acquired lt) ∙ elim (ℕ_discrete i j) [
        | yes same ↦
            absurd
              (ground (arith, free, front_busy j js e, ap (λ k. is_available (state_at s k)) same))
        | no ne ↦ ground arith
      ]

wait_image-oldest :
    (s : Swapchain) (t : StructureType)
    → is_wait_info t ≡ true
    → wait_image (some t) s ≡ wait_oldest s s.acquired_image_order
unfolding wait_image
wait_image-oldest s t e = ground (arith, e)

release_image-oldest :
    (s : Swapchain) (info : Option StructureType)
    → is_wrong is_release_info info ≡ false
    → release_image info s ≡ release_oldest s s.acquired_image_order
unfolding release_image
release_image-oldest s info e = ground (arith, e)

-- Between two calls of the application, `AcquireImage` with valid arguments succeeds unless the
-- static image was acquired before or all images are taken: the index is that of an image that is
-- not in the queue, and it goes behind the others. The last error return of the source is not
-- reached.
pub acquire_image-view :
    (s : Swapchain) (info : Option StructureType) (has_index : Bool)
    → Inv s
    → refuses_acquire info has_index s ≡ false
    → (i : ℕ) × (acquire_image info has_index s ≡ (take_image s i, success, some i))
      × (elem i s.acquired_image_order ≡ false)
      × (view (take_image s i) ≡ ((view s).0 ++ i ∷ [], (view s).1))
acquire_image-view s info has_index h e =
    let (i, shape, lt, free) = acquire_image_found h info has_index e in
    (i, shape, ground (arith, h.order i lt, free), take_image-front h i lt free)

-- `WaitImage` with valid arguments does to the queue what `wait_front` does, with its result.
pub wait_image-view :
    (s : Swapchain) (t : StructureType)
    → Inv s
    → is_wait_info t ≡ true
    → ◌≡◌ {A = Queue × Result}
        (view (wait_image (some t) s).0, (wait_image (some t) s).1)
        (wait_front (view s))
wait_image-view s t h e =
    ap (λ r. (view r.0, r.1)) (wait_image-oldest s t e)
    ∙ wait_oldest-front h s.acquired_image_order refl

-- `ReleaseImage` with valid arguments does to the queue what `release_front` does, with its result:
-- the images are released in the order of their acquisition, each after it was waited for.
pub release_image-view :
    (s : Swapchain) (info : Option StructureType)
    → Inv s
    → is_wrong is_release_info info ≡ false
    → ◌≡◌ {A = Queue × Result}
        (view (release_image info s).0, (release_image info s).1)
        (release_front (view s))
release_image-view s info h e =
    ap (λ r. (view r.0, r.1)) (release_image-oldest s info e)
    ∙ release_oldest-front h s.acquired_image_order refl

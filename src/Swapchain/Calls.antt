-- ===== src/Swapchain/Calls.antt =====
-- Swapchain.mm: any sequence of calls by the application, and the queue that it sees.
use open_xr_osx.Base.{
  ℕ, ◌<◌, ◌≡◌, inl, inr, refl, sym, ◌∙◌, Bool, true, false, not, ◌||◌, Option, none, some, List, [],
  ◌∷◌, arith, leb, length, Bool-cases, subst,
}
use open_xr_osx.Xr.{Result, success, StructureType}
use open_xr_osx.Swapchain.{
  Swapchain, init, is_available, is_acquired, is_waited, state_at, find_available, take_image,
  is_wrong, is_acquire_info, is_wait_info, is_release_info, acquire_image, acquire_candidate,
  wait_oldest, wait_image, release_oldest, release_image,
}
use open_xr_osx.Swapchain.Invariant.{
  Inv, find_available-some, init-Inv, take_image-Inv, waited-Inv, released-Inv,
}

-- A call of the application, with its arguments.
pub data Call : Type 0 where
  acquire : Option StructureType → Bool → Call
  wait : Option StructureType → Call
  release : Option StructureType → Call

-- The state after a call, and its result.
unfoldable pub call : Call → Swapchain → Swapchain × Result
call (acquire info has_index) s =
    let (s', result, index) = acquire_image info has_index s in (s', result)
call (wait info) s = wait_image info s
call (release info) s = release_image info s

unfoldable pub run : List Call → Swapchain → Swapchain
run [] s = s
run (c ∷ cs) s = run cs (call c s).0

-- The conditions under which `AcquireImage` returns an error.
unfoldable pub refuses_acquire : Option StructureType → Bool → Swapchain → Bool
refuses_acquire info has_index s =
    is_wrong is_acquire_info info
    || (not has_index
        || (s.static_image_acquired || leb s.image_count (length s.acquired_image_order)))

pub acquire_image_refused :
    (info : Option StructureType) (has_index : Bool) (s : Swapchain)
    → refuses_acquire info has_index s ≡ true
    → (acquire_image info has_index s).0 ≡ s
unfolding acquire_image refuses_acquire
acquire_image_refused info has_index s e = ground (arith, e)

module _ {s : Swapchain} (h : Inv s) where
  pub acquire_image_found :
      (info : Option StructureType) (has_index : Bool)
      → refuses_acquire info has_index s ≡ false
      → (i : ℕ) × (acquire_image info has_index s ≡ (take_image s i, success, some i))
        × (i < s.image_count)
        × (is_available (state_at s i) ≡ true)
  unfolding acquire_image refuses_acquire acquire_candidate
  acquire_image_found info has_index e =
      let (i, found, lt, free) = find_available-some h (ground (arith, e)) in
      (i, goes_on ∙ rw found refl, lt, free)
    where
      goes_on :
          acquire_image info has_index s ≡ acquire_candidate s (find_available s.image_count 0 s)
      goes_on = ground (arith, e)

  acquire_image-Inv :
      (info : Option StructureType) (has_index : Bool) → Inv (acquire_image info has_index s).0
  acquire_image-Inv info has_index = elim (Bool-cases (refuses_acquire info has_index s)) [
    | inl e ↦ subst Inv (sym (acquire_image_refused info has_index s e)) h
    | inr e ↦
        let (i, shape, lt, free) = acquire_image_found info has_index e in
        subst (λ r. Inv r.0) (sym shape) (take_image-Inv h i lt free)
  ]

  wait_oldest-Inv : (is : List ℕ) → s.acquired_image_order ≡ is → Inv (wait_oldest s is).0
  unfolding wait_oldest
  wait_oldest-Inv [] e = h
  wait_oldest-Inv (i ∷ is) e = elim (Bool-cases (is_acquired (state_at s i))) [
    | inl a ↦ rw a (waited-Inv h i is e a)
    | inr a ↦ rw a h
  ]

  release_oldest-Inv : (is : List ℕ) → s.acquired_image_order ≡ is → Inv (release_oldest s is).0
  unfolding release_oldest
  release_oldest-Inv [] e = h
  release_oldest-Inv (i ∷ is) e = elim (Bool-cases (is_waited (state_at s i))) [
    | inl w ↦ rw w (released-Inv h i is e w)
    | inr w ↦ rw w h
  ]

  call-Inv : (c : Call) → Inv (call c s).0
  unfolding call wait_image release_image
  call-Inv (acquire info has_index) = acquire_image-Inv info has_index
  call-Inv (wait none) = h
  call-Inv (wait (some t)) = elim (Bool-cases (is_wait_info t)) [
    | inl e ↦ rw e (wait_oldest-Inv s.acquired_image_order refl)
    | inr e ↦ rw e h
  ]
  call-Inv (release info) = elim (Bool-cases (is_wrong is_release_info info)) [
    | inl e ↦ rw e h
    | inr e ↦ rw e (release_oldest-Inv s.acquired_image_order refl)
  ]

run-Inv : (cs : List Call) (s : Swapchain) → Inv s → Inv (run cs s)
unfolding run
run-Inv [] s h = h
run-Inv (c ∷ cs) s h = run-Inv cs (call c s).0 (call-Inv h c)

-- `Inv` holds after any sequence of calls on a new swapchain: an image is available if and only if
-- it is not in the queue of acquired images, the queue has no image twice, all indices are in
-- range, and only the oldest image can have been waited for.
pub run-init-Inv :
    (cs : List Call) (width height array_size : ℕ) (static_image : Bool)
    → Inv (run cs (init width height array_size static_image))
run-init-Inv cs width height array_size static_image =
    run-Inv cs (init width height array_size static_image)
      (init-Inv width height array_size static_image)

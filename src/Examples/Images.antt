-- ===== src/Examples/Images.antt =====
-- A swapchain of three images at work.
use open_xr_osx.Base.{ℕ, ◌≡◌, refl, true, false, none, some, List, [], ◌∷◌, ◌++◌, replicate}
use open_xr_osx.Xr.{Result, success, swapchain_image_wait_info}
use open_xr_osx.Swapchain.{
  Swapchain, init, take_image, find_available, acquire_image, acquire_candidate, wait_oldest,
  wait_image, release_image,
}
use open_xr_osx.Swapchain.Invariant.{Inv}
use open_xr_osx.Swapchain.Order.{elem}
use open_xr_osx.Swapchain.Calls.{Call, acquire, wait, call, run, refuses_acquire, run-init-Inv}
use open_xr_osx.Swapchain.Queue.{
  Queue, view, wait_front, release_front, acquire_image-view, wait_image-view, release_image-view,
}

abbrev calls : List Call
calls = acquire none true ∷ acquire none true ∷ wait (some swapchain_image_wait_info) ∷ []

run-init-Inv_example : Inv (run calls (init 100 200 2 false))
run-init-Inv_example = run-init-Inv calls 100 200 2 false

abbrev images : Swapchain
images = run calls (init 100 200 2 false)

can_acquire : refuses_acquire none true images ≡ false
unfolding refuses_acquire run call acquire_image wait_image wait_oldest acquire_candidate
    find_available take_image init replicate
can_acquire = refl

acquire_image-view_example :
    (i : ℕ) × (acquire_image none true images ≡ (take_image images i, success, some i))
    × (elem i images.acquired_image_order ≡ false)
    × (view (take_image images i) ≡ ((view images).0 ++ i ∷ [], (view images).1))
acquire_image-view_example = acquire_image-view images none true run-init-Inv_example can_acquire

wait_image-view_example :
    ◌≡◌ {A = Queue × Result}
      (
        view (wait_image (some swapchain_image_wait_info) images).0,
        (wait_image (some swapchain_image_wait_info) images).1,
      )
      (wait_front (view images))
wait_image-view_example = wait_image-view images swapchain_image_wait_info run-init-Inv_example refl

release_image-view_example :
    ◌≡◌ {A = Queue × Result}
      (view (release_image none images).0, (release_image none images).1)
      (release_front (view images))
release_image-view_example = release_image-view images none run-init-Inv_example refl

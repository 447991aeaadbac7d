-- ===== src/Layers/Bounds.antt =====
-- Session.cpp, `ValidateSwapchainSubImage`: which parts of an image pass.
use open_xr_osx.Base.{
  zero, suc, ◌+◌, ◌≤◌, ◌<◌, ◌≡◌, ◌↔◌, refl, sym, ap, ◌∙◌, Bool, true, false, not, ◌&&◌, ◌||◌, none,
  some, arith, leb, ℤ, pos, negsuc, is_negative, is_nonpositive, magnitude, inl, inr, Option-cases,
}
use open_xr_osx.Xr.{Result, success, handle_invalid, is_success}
use open_xr_osx.Swapchain.{Swapchain, is_image_released}
use open_xr_osx.Layers.{SubImage, Owned, find_swapchain, exceeds, validate_rect, validate_sub_image}

-- The part is a rectangle within the image, of a slice that the swapchain has.
pub record Inside (image : SubImage) (s : Swapchain) : Type 0 where
  pub released : is_image_released s ≡ true
  pub right_of : is_negative image.offset_x ≡ false
  pub below : is_negative image.offset_y ≡ false
  pub wide : 0 < magnitude image.width
  pub high : 0 < magnitude image.height
  pub fits_x : magnitude image.offset_x + magnitude image.width ≤ s.width
  pub fits_y : magnitude image.offset_y + magnitude image.height ≤ s.height
  pub slice : image.image_array_index < s.array_size

positive : (z : ℤ) → is_nonpositive z ≡ false → 0 < magnitude z
positive (pos zero) h = ground (arith, h)
positive (pos (suc n)) h = omega arith
positive (negsuc n) h = ground (arith, h)

positive_rev : (z : ℤ) → 0 < magnitude z → is_nonpositive z ≡ false
positive_rev (pos zero) h = absurd (omega arith)
positive_rev (pos (suc n)) h = refl
positive_rev (negsuc n) h = absurd (omega arith)

-- All guards of the source at once.
passes : SubImage → Swapchain → Bool
passes image s =
    is_image_released s
    && (not (is_negative image.offset_x || is_negative image.offset_y)
        && (not (is_nonpositive image.width || is_nonpositive image.height)
            && (not (
                  exceeds image.offset_x image.width s.width
                  || exceeds image.offset_y image.height s.height)
                && not (leb s.array_size image.image_array_index))))

success_only : (r : Result) → is_success r ≡ true → r ≡ success
success_only success h = refl
success_only r h = absurd (ground (arith, h))

passes_iff :
    (image : SubImage) (s : Swapchain) → is_success (validate_rect image s) ≡ passes image s
unfolding validate_rect passes
passes_iff image s = ground arith

Inside-passes : (image : SubImage) (s : Swapchain) → Inside image s → passes image s ≡ true
unfolding passes
Inside-passes image s h = ground (
  arith,
  h.released,
  h.right_of,
  h.below,
  positive_rev image.width h.wide,
  positive_rev image.height h.high,
  h.fits_x,
  h.fits_y,
  h.slice,
)

passes-Inside : (image : SubImage) (s : Swapchain) → passes image s ≡ true → Inside image s
unfolding passes
passes-Inside image s h = record {
  released = ground (arith, h);
  right_of = ground (arith, h);
  below = ground (arith, h);
  wide = positive image.width (ground (arith, h));
  high = positive image.height (ground (arith, h));
  fits_x = ground (arith, h);
  fits_y = ground (arith, h);
  slice = ground (arith, h);
}

validate_some :
    (o : Owned) (image : SubImage) (s : Swapchain)
    → find_swapchain image.swapchain o.swapchains ≡ some s
    → validate_sub_image o image ≡ validate_rect image s
unfolding validate_sub_image
validate_some o image s e = rw (e, validate_sub_image) refl

validate_none :
    (o : Owned) (image : SubImage)
    → find_swapchain image.swapchain o.swapchains ≡ none
    → validate_sub_image o image ≡ handle_invalid
unfolding validate_sub_image
validate_none o image e = rw (e, validate_sub_image) refl

-- A sub-image passes if and only if its swapchain belongs to the session and has a released image,
-- and the rectangle is not empty and lies within the image, and the array index is one of its
-- slices.
pub validate_sub_image-Inside :
    (o : Owned) (image : SubImage)
    → (validate_sub_image o image ≡ success)
      ↔ ((s : Swapchain) × (find_swapchain image.swapchain o.swapchains ≡ some s) × Inside image s)
validate_sub_image-Inside o image = (there, back)
  where
    there :
        validate_sub_image o image ≡ success
        → (s : Swapchain) × (find_swapchain image.swapchain o.swapchains ≡ some s) × Inside image s
    there e = elim (Option-cases (find_swapchain image.swapchain o.swapchains)) [
      | inl missing ↦
          absurd (ground (arith, ap is_success e, ap is_success (validate_none o image missing)))
      | inr (s, found) ↦ (
        s,
        found,
        passes-Inside image s (
            sym (passes_iff image s)
            ∙ sym (ap is_success (validate_some o image s found))
            ∙ ap is_success e),
      )
    ]

    back :
        (s : Swapchain) × (find_swapchain image.swapchain o.swapchains ≡ some s) × Inside image s
        → validate_sub_image o image ≡ success
    back (s, found, inside) =
        validate_some o image s found
        ∙ success_only (validate_rect image s) (passes_iff image s ∙ Inside-passes image s inside)

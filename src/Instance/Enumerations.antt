-- ===== src/Instance/Enumerations.antt =====
-- Instance.cpp: the calls that fill an array of the application.
use open_xr_osx.Base.{
  ℕ, ◌≤◌, ◌≡◌, refl, Bool, false, not, ◌&&◌, Option, some, arith, if◌then◌else◌, if-elim, ltb, ◌==◌,
}
use open_xr_osx.Xr.{Result, is_success}
use open_xr_osx.Instance.{
  Filled, fill, enumerate_view_configurations, enumerate_for, enumerate_view_configuration_views,
  enumerate_environment_blend_modes,
}

-- The array is not overrun, and a success with room in the array fills in as many as were counted.
pub record Sound (count capacity : ℕ) (f : Filled) : Type 0 where
  pub within : f.written ≤ capacity
  pub complete :
      (if is_success f.result then f.written else 0)
      ≡ (if is_success f.result && ltb 0 capacity then count else 0)
  pub counted : (if is_success f.result then f.count else some count) ≡ some count

module _ (count capacity : ℕ) where
  failed :
      (r : Result) (c : Option ℕ)
      → is_success r ≡ false
      → Sound count capacity (record { result = r; count = c; written = 0 })
  failed r c bad = record {
    within = omega arith;
    complete = ground (arith, bad);
    counted = rw bad refl;
  }

  fill-Sound : Sound count capacity (fill count capacity)
  unfolding fill
  fill-Sound =
      if-elim (Sound count capacity) (capacity == 0)
        (λ e. record { within = omega arith; complete = ground (arith, e); counted = refl })
        (λ e.
          if-elim (Sound count capacity) (ltb capacity count) (λ l. failed _ _ refl)
            (λ l. record {
              within = ground (arith, l);
              complete = ground (arith, e);
              counted = refl;
            }))

  enumerate_for-Sound :
      (system_id : ℕ) (stereo : Bool)
      → Sound count capacity (enumerate_for count system_id stereo capacity)
  unfolding enumerate_for
  enumerate_for-Sound system_id stereo =
      if-elim (Sound count capacity) (not (system_id == 1)) (λ e. failed _ _ refl)
        (λ e. if-elim (Sound count capacity) (not stereo) (λ s. failed _ _ refl) (λ s. fill-Sound))

-- None of the three enumerations writes past the capacity that it is given, and where it succeeds it
-- writes the count, and the whole array if there is any room.
pub enumerations-Sound :
    (system_id capacity : ℕ) (stereo : Bool)
    → Sound 1 capacity (enumerate_view_configurations system_id capacity)
      × Sound 2 capacity (enumerate_view_configuration_views system_id stereo capacity)
      × Sound 1 capacity (enumerate_environment_blend_modes system_id stereo capacity)
unfolding enumerate_view_configurations enumerate_view_configuration_views
    enumerate_environment_blend_modes
enumerations-Sound system_id capacity stereo = (
  if-elim (Sound 1 capacity) (not (system_id == 1)) (λ e. failed 1 capacity _ _ refl)
      (λ e. fill-Sound 1 capacity),
  enumerate_for-Sound 2 capacity system_id stereo,
  enumerate_for-Sound 1 capacity system_id stereo,
)

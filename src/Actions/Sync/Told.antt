-- ===== src/Actions/Sync/Told.antt =====
-- ActionSet.cpp, ApplySyncState: what a synchronisation makes of the data at a path, told without
-- its code.
use open_xr_osx.Base.{
  ℕ, ◌≡◌, ◌↔◌, refl, sym, ap, inl, inr, Bool, true, false, Bool-cases, not, ◌||◌, arith, ◌==◌,
  if◌then◌else◌,
}
use open_xr_osx.Actions.State.{Scalars, SubactionData}
use open_xr_osx.Actions.Aggregation.{AggregatedActionState}
use open_xr_osx.Actions.Sync.{changes, synced_data}

module _ (F : Scalars) where
  open F use {differs}

  changes_iff : (a b : Bool) → (changes F a b ≡ false) ↔ (a ≡ b)
  changes_iff true true = (λ e. refl, λ e. refl)
  changes_iff true false = (λ e. e, λ e. e)
  changes_iff false true = (λ e. sym e, λ e. sym e)
  changes_iff false false = (λ e. refl, λ e. refl)

  -- The values of both data are the same, floats as far as `differs` sees.
  pub record Unchanged (old new : SubactionData F) : Type 0 where
    pub same_bool : new.bool_value ≡ old.bool_value
    pub same_float : differs new.float_value old.float_value ≡ false
    pub same_x : differs new.vector2f_value.x old.vector2f_value.x ≡ false
    pub same_y : differs new.vector2f_value.y old.vector2f_value.y ≡ false
    pub same_pose : new.pose_active ≡ old.pose_active
    pub same_source : new.pose_source_path ≡ old.pose_source_path

  -- A synchronisation at `time` makes `new` of `old`, where `s` is what is bound.
  pub record Synced (s : AggregatedActionState F) (time : ℕ) (old new : SubactionData F)
      : Type 0 where
    pub active : new.is_active ≡ s.is_active
    pub bool_is : new.bool_value ≡ s.bool_value
    pub float_is : new.float_value ≡ s.float_value
    pub vector2f_is : new.vector2f_value ≡ s.vector2f_value
    pub pose_is : new.pose_active ≡ s.pose_active
    pub source_is : new.pose_source_path ≡ s.pose_source_path
    pub sources_are : new.bound_sources ≡ s.bound_sources
    pub bool_told : (new.bool_changed ≡ false) ↔ (new.bool_value ≡ old.bool_value)
    pub float_told : new.float_changed ≡ differs new.float_value old.float_value
    pub vector2f_told : (new.vector2f_changed ≡ false) ↔ (
        (differs new.vector2f_value.x old.vector2f_value.x ≡ false)
        × (differs new.vector2f_value.y old.vector2f_value.y ≡ false))
    pub time_kept : Unchanged old new → new.last_change_time ≡ old.last_change_time
    pub time_set : (Unchanged old new → ⊥) → new.last_change_time ≡ time

  or_iff : (a b : Bool) → ((a || b) ≡ false) ↔ ((a ≡ false) × (b ≡ false))
  or_iff true b = (λ e. absurd (ground (arith, e)), λ e. e.0)
  or_iff false b = (λ e. (refl, e), λ e. e.1)

  same_iff : (a b : ℕ) → (not (a == b) ≡ false) ↔ (a ≡ b)
  same_iff a b = (λ e. ground (arith, e), λ e. ground (arith, e))

  -- Whether the code sees a change.
  abbrev sees : AggregatedActionState F → SubactionData F → Bool
  sees s old =
      changes F s.bool_value old.bool_value
      || (differs s.float_value old.float_value
          || ((differs s.vector2f_value.x old.vector2f_value.x
                || differs s.vector2f_value.y old.vector2f_value.y)
              || (changes F s.pose_active old.pose_active
                  || not (s.pose_source_path == old.pose_source_path))))

  module _ (s : AggregatedActionState F) (time : ℕ) (old : SubactionData F) where
    sees-Unchanged : sees s old ≡ false → Unchanged old (synced_data F s time old)
    unfolding synced_data
    sees-Unchanged e =
        let (bool_same, e1) = (or_iff (changes F s.bool_value old.bool_value) _).0 e in
        let (float_same, e2) = (or_iff (differs s.float_value old.float_value) _).0 e1 in
        let (vector_same, e3) = (or_iff _ _).0 e2 in
        let (x_same, y_same) = (or_iff _ _).0 vector_same in
        let (pose_same, source_same) = (or_iff _ _).0 e3 in
        record {
          same_bool = (changes_iff s.bool_value old.bool_value).0 bool_same;
          same_float = float_same;
          same_x = x_same;
          same_y = y_same;
          same_pose = (changes_iff s.pose_active old.pose_active).0 pose_same;
          same_source = (same_iff s.pose_source_path old.pose_source_path).0 source_same;
        }

    Unchanged-sees : Unchanged old (synced_data F s time old) → sees s old ≡ false
    unfolding synced_data
    Unchanged-sees u = (or_iff _ _).1 (
      (changes_iff s.bool_value old.bool_value).1 u.same_bool,
      (or_iff _ _).1 (
        u.same_float,
        (or_iff _ _).1 (
          (or_iff _ _).1 (u.same_x, u.same_y),
          (or_iff _ _).1 (
            (changes_iff s.pose_active old.pose_active).1 u.same_pose,
            (same_iff s.pose_source_path old.pose_source_path).1 u.same_source,
          ),
        ),
      ),
    )

    time_if :
        (b : Bool)
        → sees s old ≡ b
        → (synced_data F s time old).last_change_time ≡ (if b then time else old.last_change_time)
    unfolding synced_data
    time_if b e = ap (λ (c : Bool). if c then time else old.last_change_time) e

    pub synced_data-Synced : Synced s time old (synced_data F s time old)
    unfolding synced_data
    synced_data-Synced = record {
      active = refl;
      bool_is = refl;
      float_is = refl;
      vector2f_is = refl;
      pose_is = refl;
      source_is = refl;
      sources_are = refl;
      bool_told = changes_iff s.bool_value old.bool_value;
      float_told = refl;
      vector2f_told = or_iff _ _;
      time_kept = λ u. time_if false (Unchanged-sees u);
      time_set = λ changed. elim (Bool-cases (sees s old)) [
        | inl e ↦ time_if true e
        | inr e ↦ absurd (changed (sees-Unchanged e))
      ];
    }

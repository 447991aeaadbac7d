-- ===== src/Swapchain/Invariant.antt =====
-- Swapchain.mm: what holds of the images between any two calls.
use open_xr_osx.Base.{
  ℕ, zero, suc, ◌+◌, ◌-◌, ◌%◌, ◌≤◌, ◌<◌, ◌≡◌, ◌⊎◌, inl, inr, refl, sym, ap, ◌∙◌, Bool, true, false,
  not, some, List, [], ◌∷◌, arith, ◌==◌, if◌then◌else◌, length, get_or, set, replicate, All,
  All-append, get_or-set, length-set, length-append, Bool-cases, subst, ℕ_discrete,
}
use open_xr_osx.Swapchain.{
  ImageState, available, acquired, waited, Swapchain, init, is_available, is_acquired, is_waited,
  state_at, find_available, take_image,
}
use open_xr_osx.Swapchain.Order.{
  elem, Distinct, busy, tail, busy-set, busy_free, elem-append, Distinct-append, All-elem, All-tail,
  All-tail_append, get_or-replicate_available,
}

pub record Inv (s : Swapchain) : Type 0 where
  pub count : (s.image_count ≡ 1) ⊎ (s.image_count ≡ 3)
  pub states : length s.image_states ≡ s.image_count
  pub next : s.next_acquire_index < s.image_count
  pub last : s.last_released_index < s.image_count
  pub order :
      (i : ℕ)
      → i < s.image_count
      → is_available (state_at s i) ≡ not (elem i s.acquired_image_order)
  pub distinct : Distinct s.acquired_image_order
  pub in_range : All (λ i. i < s.image_count) s.acquired_image_order
  pub number : busy s.image_states ≡ length s.acquired_image_order
  pub behind : All (λ i. is_acquired (state_at s i) ≡ true) (tail s.acquired_image_order)

module _ {s : Swapchain} (h : Inv s) where
  candidate-lt : (k : ℕ) → (s.next_acquire_index + k) % s.image_count < s.image_count
  candidate-lt k = elim h.count [ inl e ↦ rw e (omega arith) | inr e ↦ rw e (omega arith) ]

  find_available-cases :
      (rounds i : ℕ)
      → ((j : ℕ) × (find_available rounds i s ≡ some j)
          × (j < s.image_count)
          × (is_available (state_at s j) ≡ true))
        ⊎ ((k : ℕ)
            → i ≤ k
            → k < i + rounds
            → is_available (state_at s ((s.next_acquire_index + k) % s.image_count)) ≡ false)
  unfolding find_available
  find_available-cases zero i = inr (λ k le lt. absurd (omega arith))
  find_available-cases (suc rounds) i =
      elim (Bool-cases (is_available (state_at s ((s.next_acquire_index + i) % s.image_count)))) [
        | inl e ↦ inl ((s.next_acquire_index + i) % s.image_count, rw e refl, candidate-lt i, e)
        | inr e ↦ elim (find_available-cases rounds (i + 1)) [
          | inl (j, found, lt, free) ↦ inl (j, rw e found, lt, free)
          | inr none_later ↦ inr (λ k le lt. elim (ℕ_discrete i k) [
            | yes same ↦
                subst
                  (λ k.
                    is_available (state_at s ((s.next_acquire_index + k) % s.image_count)) ≡ false)
                  same e
            | no ne ↦ none_later k (omega arith) (omega arith)
          ])
        ]
      ]

  turn :
      (j : ℕ)
      → j < s.image_count
      → (k : ℕ) × (k < s.image_count) × ((s.next_acquire_index + k) % s.image_count ≡ j)
  turn j lt = elim h.count [
    | inl e ↦ (0, omega arith, rw e (omega (arith, h.next)))
    | inr e ↦ ((j + 3 - s.next_acquire_index) % 3, omega arith, rw e (omega (arith, h.next)))
  ]

  -- While the application does not have all images, the search finds one.
  pub find_available-some :
      length s.acquired_image_order < s.image_count
      → (j : ℕ) × (find_available s.image_count 0 s ≡ some j)
        × (j < s.image_count)
        × (is_available (state_at s j) ≡ true)
  find_available-some more =
      let (j, lt, free) = busy_free s.image_states (omega (arith, h.number, h.states)) in
      let (k, klt, e) = turn j (omega (arith, h.states)) in
      elim (find_available-cases s.image_count 0) [
        | inl found ↦ found
        | inr never ↦ absurd (
            ground (
              arith,
              free,
              subst (λ i. is_available (state_at s i) ≡ false) e
                  (never k (omega arith) (omega arith)),
            ))
      ]

pub init-Inv :
    (width height array_size : ℕ) (static_image : Bool)
    → Inv (init width height array_size static_image)
unfolding init replicate elem busy
init-Inv width height array_size true = record {
  count = inl refl;
  states = refl;
  next = omega arith;
  last = omega arith;
  order = λ i lt. get_or-replicate_available 1 i lt;
  distinct = tt;
  in_range = tt;
  number = refl;
  behind = tt;
}
init-Inv width height array_size false = record {
  count = inr refl;
  states = refl;
  next = omega arith;
  last = omega arith;
  order = λ i lt. get_or-replicate_available 3 i lt;
  distinct = tt;
  in_range = tt;
  number = refl;
  behind = tt;
}

module _ {s : Swapchain} (h : Inv s) where
  pub state_at-set :
      (i j : ℕ) (v : ImageState)
      → i < s.image_count
      → get_or (set s.image_states i v) j waited ≡ (if i == j then v else state_at s j)
  state_at-set i j v lt = get_or-set s.image_states i j v waited (omega (arith, h.states))

  pub take_image-Inv :
      (i : ℕ) → i < s.image_count → is_available (state_at s i) ≡ true → Inv (take_image s i)
  unfolding take_image elem
  take_image-Inv i lt free = record {
    count = h.count;
    states = length-set s.image_states i acquired ∙ h.states;
    next = elim h.count [ inl e ↦ rw e (omega arith) | inr e ↦ rw e (omega arith) ];
    last = h.last;
    order = λ j jlt.
        ap is_available (state_at-set i j acquired lt)
        ∙ ground (arith, h.order j jlt, elem-append j s.acquired_image_order (i ∷ []));
    distinct =
        Distinct-append s.acquired_image_order i h.distinct (ground (arith, h.order i lt, free));
    in_range = All-append _ s.acquired_image_order (i ∷ []) h.in_range (lt, tt);
    number = more ∙ sym (length-append s.acquired_image_order (i ∷ []));
    behind =
        All-tail_append _ s.acquired_image_order i
          (All-elem (tail s.acquired_image_order)
            (λ j e a. ap is_acquired (state_at-set i j acquired lt) ∙ ground (arith, a)) h.behind)
          (ap is_acquired (state_at-set i i acquired lt) ∙ ground arith);
  }
    where
      more :
          busy (set s.image_states i acquired)
          ≡ length s.acquired_image_order + length {A = ℕ} (i ∷ [])
      more =
          ground
            (arith, busy-set s.image_states i acquired (omega (arith, h.states)), free, h.number)

  acquired_busy : (x : ImageState) → is_acquired x ≡ true → is_available x ≡ false
  acquired_busy available a = ground (arith, a)
  acquired_busy acquired a = refl
  acquired_busy waited a = refl

  waited_busy : (x : ImageState) → is_waited x ≡ true → is_available x ≡ false
  waited_busy available w = ground (arith, w)
  waited_busy acquired w = refl
  waited_busy waited w = refl

  module _ (i : ℕ) (is : List ℕ) (e : s.acquired_image_order ≡ i ∷ is) where
    pub oldest : i < s.image_count
    oldest = (subst (All (λ i. i < s.image_count)) e h.in_range).0

    only_once : elem i is ≡ false
    only_once = (subst Distinct e h.distinct).0

    others : All (λ j. is_acquired (state_at s j) ≡ true) is
    others = subst (λ xs. All (λ j. is_acquired (state_at s j) ≡ true) (tail xs)) e h.behind

    pub others_kept :
        (v : ImageState)
        → All (λ j. is_acquired (get_or (set s.image_states i v) j waited) ≡ true) is
    others_kept v =
        All-elem is
          (λ j there a.
            ap is_acquired (state_at-set i j v oldest) ∙ ground (arith, a, there, only_once))
          others

    pub waited-Inv :
        is_acquired (state_at s i) ≡ true
        → Inv (record s { image_states = set s.image_states i waited })
    waited-Inv a = record {
      count = h.count;
      states = length-set s.image_states i waited ∙ h.states;
      next = h.next;
      last = h.last;
      order = λ j jlt. ap is_available (state_at-set i j waited oldest) ∙ elim (ℕ_discrete i j) [
        | yes same ↦ ground (
          arith,
          subst (λ j. is_available (state_at s j) ≡ not (elem j s.acquired_image_order)) (sym same)
              (h.order j jlt),
          same,
          ap (λ j. elem j s.acquired_image_order) same,
          acquired_busy (state_at s i) a,
        )
        | no ne ↦ ground (arith, h.order j jlt)
      ];
      distinct = h.distinct;
      in_range = h.in_range;
      number = ground (
        arith,
        busy-set s.image_states i waited (omega (arith, oldest, h.states)),
        acquired_busy (state_at s i) a,
        h.number,
      );
      behind =
          subst
            (λ xs.
              All (λ j. is_acquired (get_or (set s.image_states i waited) j waited) ≡ true)
                (tail xs))
            (sym e) (others_kept waited);
    }

    pub released-Inv :
        is_waited (state_at s i) ≡ true
        → Inv (record s {
          last_released_index = i;
          image_states = set s.image_states i available;
          has_released_image = true;
          acquired_image_order = is;
        })
    unfolding elem
    released-Inv w = record {
      count = h.count;
      states = length-set s.image_states i available ∙ h.states;
      next = h.next;
      last = oldest;
      order = λ j jlt. ap is_available (state_at-set i j available oldest) ∙ elim (ℕ_discrete i j) [
        | yes same ↦ ground (arith, same, only_once, ap (λ j. elem j is) same)
        | no ne ↦
            ground
              (arith, subst (λ xs. is_available (state_at s j) ≡ not (elem j xs)) e (h.order j jlt))
      ];
      distinct = (subst Distinct e h.distinct).1;
      in_range = (subst (All (λ i. i < s.image_count)) e h.in_range).1;
      number = ground (
        arith,
        busy-set s.image_states i available (omega (arith, oldest, h.states)),
        waited_busy (state_at s i) w,
        h.number,
        ap length e,
      );
      behind = All-tail _ is (others_kept available);
    }

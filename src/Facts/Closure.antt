-- ===== src/Facts/Closure.antt =====
-- The loop of `mutate_subject` ends with the least set that holds the implicated facts and all that
-- rests on them.
use mathlib.Core.Path.{subst, sym}
use strongwiz.Base.{
  ℕ, zero, suc, ◌≤◌, ◌≡◌, inl, inr, refl, arith, String, Bool, true, false, List, [], ◌∷◌, ◌++◌,
  ◌==◌, any, contains, contains-append, difference, length, string_eq, Bool-cases,
}
use strongwiz.Facts.Mutate.{sweep, close}
use strongwiz.Facts.Subsets.{Below, contains-difference, any-contains, shrinks, no_element}

module _ (deps : String → List String) where
  sweep_yes :
      (x : String) (xs c : List String) (b : Bool)
      → any (contains c) (deps x) ≡ true
      → sweep deps (x ∷ xs) c b ≡ sweep deps xs (c ++ x ∷ []) true
  unfolding sweep
  sweep_yes x xs c b h = rw (sweep, h) refl

  sweep_no :
      (x : String) (xs c : List String) (b : Bool)
      → any (contains c) (deps x) ≡ false
      → sweep deps (x ∷ xs) c b ≡ sweep deps xs c b
  unfolding sweep
  sweep_no x xs c b h = rw (sweep, h) refl

  sweep-Below : (xs c : List String) (b : Bool) → Below c (sweep deps xs c b).0
  unfolding sweep
  sweep-Below [] c b r h = h
  sweep-Below (x ∷ xs) c b r h = elim (Bool-cases (any (contains c) (deps x))) [
    | inl rests ↦
        rw (sweep_yes x xs c b rests)
          (sweep-Below xs (c ++ x ∷ []) true r (ground (arith, h, contains-append c (x ∷ []) r)))
    | inr free ↦ rw (sweep_no x xs c b free) (sweep-Below xs c b r h)
  ]

  sweep_flag : (xs c : List String) → (sweep deps xs c true).1 ≡ true
  unfolding sweep
  sweep_flag [] c = refl
  sweep_flag (x ∷ xs) c = elim (Bool-cases (any (contains c) (deps x))) [
    | inl rests ↦ rw (sweep_yes x xs c true rests) (sweep_flag xs (c ++ x ∷ []))
    | inr free ↦ rw (sweep_no x xs c true free) (sweep_flag xs c)
  ]

  -- a sweep that changed nothing found nothing to add
  sweep_still :
      (xs c : List String)
      → (sweep deps xs c false).1 ≡ false
      → ((sweep deps xs c false).0 ≡ c)
        × ((r : String) → contains xs r ≡ true → any (contains c) (deps r) ≡ false)
  unfolding sweep
  sweep_still [] c h = (refl, λ r m. cc)
  sweep_still (x ∷ xs) c h = elim (Bool-cases (any (contains c) (deps x))) [
    | inl rests ↦
        absurd
          (ground (arith, (rw (sweep_yes x xs c false rests) at h), sweep_flag xs (c ++ x ∷ [])))
    | inr free ↦
        let (same, none_rests) = sweep_still xs c (rw (sweep_no x xs c false free) at h) in
        (
          rw (sweep_no x xs c false free) same,
          λ r m. elim (Bool-cases (r == x)) [
            | inl it ↦ ground (arith, it, free)
            | inr other ↦ none_rests r (ground (arith, m, other))
          ],
        )
  ]

  -- a sweep that changed something added an element
  sweep_moved :
      (xs c : List String)
      → (sweep deps xs c false).1 ≡ true
      → (r : String) × (contains xs r ≡ true) × (contains (sweep deps xs c false).0 r ≡ true)
  unfolding sweep
  sweep_moved [] c h = cc
  sweep_moved (x ∷ xs) c h = elim (Bool-cases (any (contains c) (deps x))) [
    | inl rests ↦ (
      x,
      ground arith,
      rw (sweep_yes x xs c false rests)
          (sweep-Below xs (c ++ x ∷ []) true x (ground (arith, contains-append c (x ∷ []) x))),
    )
    | inr free ↦
        let (r, m, there) = sweep_moved xs c (rw (sweep_no x xs c false free) at h) in
        (r, ground (arith, m), rw (sweep_no x xs c false free) there)
  ]

  close_moved :
      (active c : List String) (fuel : ℕ)
      → (sweep deps (difference active c) c false).1 ≡ true
      → close deps active (suc fuel) c
        ≡ close deps active fuel (sweep deps (difference active c) c false).0
  unfolding close
  close_moved active c fuel h = rw (close, h) refl

  close_still :
      (active c : List String) (fuel : ℕ)
      → (sweep deps (difference active c) c false).1 ≡ false
      → close deps active (suc fuel) c ≡ (sweep deps (difference active c) c false).0
  unfolding close
  close_still active c fuel h = rw (close, h) refl

  module _ (P : String → Type 0) (active : List String)
      (step : (r x : String)
        → contains active r ≡ true
        → contains (deps r) x ≡ true
        → P x
        → P r) where
    -- what a sweep adds has every property that dependencies hand on
    sweep_sound :
        (xs c : List String) (b : Bool)
        → Below xs active
        → ((r : String) → contains c r ≡ true → P r)
        → (r : String) → contains (sweep deps xs c b).0 r ≡ true
        → P r
    unfolding sweep
    sweep_sound [] c b below held r m = held r m
    sweep_sound (x ∷ xs) c b below held r m =
        let further : Below xs active = λ y k. below y (ground (arith, k)) in
        elim (Bool-cases (any (contains c) (deps x))) [
          | inl rests ↦
              let (y, needed, there) = any-contains (deps x) c rests in
              let first : P x = step x y (below x (ground arith)) needed (held y there) in
              sweep_sound xs (c ++ x ∷ []) true further
                (λ z k. elim (Bool-cases (z == x)) [
                  | inl same ↦ (let it : z ≡ x = ground (arith, same) in subst P (sym it) first)
                  | inr other ↦ held z (ground (arith, k, other, contains-append c (x ∷ []) z))
                ])
                r (rw (sweep_yes x xs c b rests) at m)
          | inr free ↦ sweep_sound xs c b further held r (rw (sweep_no x xs c b free) at m)
        ]

    pub close_sound :
        (fuel : ℕ) (c : List String)
        → ((r : String) → contains c r ≡ true → P r)
        → (r : String) → contains (close deps active fuel c) r ≡ true
        → P r
    unfolding close
    close_sound zero c held r m = held r m
    close_sound (suc fuel) c held r m =
        let next = sweep deps (difference active c) c false in
        let within : Below (difference active c) active =
          λ x k. ground (arith, k, contains-difference active c x) in
        let sound = sweep_sound (difference active c) c false within held in
        elim (Bool-cases next.1) [
          | inl moved ↦ close_sound fuel next.0 sound r (rw (close_moved active c fuel moved) at m)
          | inr still ↦ sound r (rw (close_still active c fuel still) at m)
        ]

  pub close-Below : (active c : List String) (fuel : ℕ) → Below c (close deps active fuel c)
  unfolding close
  close-Below active c zero r m = m
  close-Below active c (suc fuel) r m =
      let next = sweep deps (difference active c) c false in
      let more = sweep-Below (difference active c) c false r m in
      elim (Bool-cases next.1) [
        | inl moved ↦ rw (close_moved active c fuel moved) (close-Below active next.0 fuel r more)
        | inr still ↦ rw (close_still active c fuel still) more
      ]

  -- nothing else rests on the set
  abbrev pub Closed : List String → List String → Type 0
  Closed active c =
      (r : String)
      → contains active r ≡ true
      → any (contains c) (deps r) ≡ true
      → contains c r ≡ true

  -- a set is closed when no element outside rests on it
  Closed-outside :
      (active c : List String)
      → ((r : String) → contains (difference active c) r ≡ true → any (contains c) (deps r) ≡ false)
      → Closed active c
  Closed-outside active c free r m rests = elim (Bool-cases (contains c r)) [
    | inl inside ↦ inside
    | inr outside ↦
        absurd (
          ground
            (arith, rests, free r (ground (arith, m, outside, contains-difference active c r))))
  ]

  -- with as much fuel as there are elements outside, the loop ends closed
  pub close-Closed :
      (active c : List String) (fuel : ℕ)
      → length (difference active c) ≤ fuel
      → Closed active (close deps active fuel c)
  unfolding close
  close-Closed active c zero enough =
      Closed-outside active c (λ r m. absurd (no_element (difference active c) r enough m))
  close-Closed active c (suc fuel) enough =
      let next = sweep deps (difference active c) c false in
      elim (Bool-cases next.1) [
        | inl moved ↦
            let (x, free, there) = sweep_moved (difference active c) c moved in
            let outside = contains-difference active c x in
            let less =
              shrinks active c next.0 x (sweep-Below (difference active c) c false)
                (ground (arith, free, outside)) (ground (arith, free, outside)) there in
            rw (close_moved active c fuel moved)
              (close-Closed active next.0 fuel (omega (arith, less, enough)))
        | inr still ↦
            let (same, none_rests) = sweep_still (difference active c) c still in
            rw (close_still active c fuel still, same) (Closed-outside active c none_rests)
      ]

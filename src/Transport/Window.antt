-- ===== src/Transport/Window.antt =====
-- What a `ReplayGuard` remembers: the entries that it accepted last, no two of them alike.
use mathlib.Core.Path.{subst}
use strongwiz.Base.{
  ℕ, suc, ◌-◌, ◌<◌, ◌≤◌, ◌≡◌, refl, sym, ap, ◌∙◌, ◌⊎◌, inl, inr, arith, String, Bool, true, false,
  ◌&&◌, Option, none, some, List, [], ◌∷◌, ◌++◌, ◌==◌, string_eq, nat_eq, option_eq, ltb, length,
  length-append, drop, if◌then◌else◌, has_text, is_digest, Bool-cases, Option-cases,
}
use strongwiz.Base.Map.{insert}
use strongwiz.Base.Result.{ok, err}
use strongwiz.Transport.Frame.{TransportError, duplicate_frame, identity_reuse, payload_replay}
use strongwiz.Transport.Replay.{Message, ReplayGuard, digest_of, expire, evict, remember, check_new}

-- the first entry with a digest
unfoldable pub owner : List Message → String → Option String
owner [] digest = none
owner ((i, d) ∷ rest) digest = if digest == d then some i else owner rest digest

-- no two entries share their identity or their digest
abbrev pub Apart : List Message → Type 0
Apart [] = Unit {0}
Apart ((i, d) ∷ rest) = (digest_of rest i ≡ none) × (owner rest d ≡ none) × Apart rest

-- the last `n` entries
abbrev pub keep_last : ℕ → List Message → List Message
keep_last n xs = drop (length xs - n) xs

-- what a sound guard holds: `by_digest` is the inverse of `by_identity`
pub record IsSound (g : ReplayGuard) : Type 0 where
  pub capacity_pos : 0 < g.capacity
  pub bounded : length g.by_identity ≤ g.capacity
  pub apart : Apart g.by_identity
  pub inverse : (digest : String) → g.by_digest digest ≡ owner g.by_identity digest

-- the abstract guard: a message is admitted when neither part of it is in the window
unfoldable pub admits : List Message → String → String → Bool
admits window identity digest =
    has_text identity
    && is_digest digest
    && (digest_of window identity == none)
    && (owner window digest == none)

digest_of-append :
    (xs : List Message) (i d j : String)
    → digest_of xs j ≡ none
    → digest_of (xs ++ (i, d) ∷ []) j ≡ (if j == i then some d else none)
unfolding digest_of
digest_of-append [] i d j h = refl
digest_of-append ((k, e) ∷ rest) i d j h = ground (arith, h, digest_of-append rest i d j)

owner-append :
    (xs : List Message) (i d j : String)
    → owner xs d ≡ none
    → owner (xs ++ (i, d) ∷ []) j ≡ (if j == d then some i else owner xs j)
unfolding owner
owner-append [] i d j h = refl
owner-append ((k, e) ∷ rest) i d j h = ground (arith, h, owner-append rest i d j)

Apart-append :
    (xs : List Message) (i d : String)
    → Apart xs
    → digest_of xs i ≡ none
    → owner xs d ≡ none
    → Apart (xs ++ (i, d) ∷ [])
unfolding digest_of owner
Apart-append [] i d apart h k = (refl, refl, tt)
Apart-append ((j, e) ∷ rest) i d (first, second, apart) h k =
    let other : digest_of rest i ≡ none = ground (arith, h) in
    let another : owner rest d ≡ none = ground (arith, k) in
    (
      digest_of-append rest i d j first ∙ ground (arith, h),
      owner-append rest i d e another ∙ ground (arith, k, second),
      Apart-append rest i d apart other another,
    )

-- the tests of the guard are those of the window
pub check_new-admits :
    (g : ReplayGuard) (i d : String)
    → IsSound g
    → ((check_new i d g ≡ ok tt)
        × (digest_of g.by_identity i ≡ none)
        × (owner g.by_identity d ≡ none)
        × (admits g.by_identity i d ≡ (has_text i && is_digest d)))
      ⊎ ((e : TransportError) × (check_new i d g ≡ err e) × (admits g.by_identity i d ≡ false))
unfolding check_new admits
check_new-admits g i d sound =
    let same = sound.inverse d in
    elim (Option-cases (digest_of g.by_identity i)) [
      | inr (prior, e) ↦ inr (
        if prior == d then duplicate_frame else identity_reuse,
        rw (check_new, e) refl,
        rw (e) ground arith,
      )
      | inl e ↦ elim (Option-cases (owner g.by_identity d)) [
        | inr (prior, f) ↦
            inr (payload_replay, rw (check_new, e, same, f) refl, rw (e, f) ground arith)
        | inl f ↦ inl (rw (check_new, e, same, f) refl, e, f, rw (e, f) ground arith)
      ]
    ]

-- a guard with at most one entry too many
record IsLoose (g : ReplayGuard) : Type 0 where
  loose_pos : 0 < g.capacity
  loose_bound : length g.by_identity ≤ suc g.capacity
  loose_apart : Apart g.by_identity
  loose_inverse : (digest : String) → g.by_digest digest ≡ owner g.by_identity digest

-- `h` holds the last entries of `g`
abbrev Trimmed : ReplayGuard → ReplayGuard → Type 0
Trimmed g h =
    IsSound h × (h.capacity ≡ g.capacity) × (h.by_identity ≡ keep_last g.capacity g.by_identity)

pub keep_all : (n : ℕ) (xs : List Message) → length xs ≤ n → keep_last n xs ≡ xs
unfolding drop
keep_all n xs h = let none_over : length xs - n ≡ 0 = omega arith in rw (none_over) refl

first_owner : (i d : String) (rest : List Message) → owner ((i, d) ∷ rest) d ≡ some i
unfolding owner
first_owner i d rest = ground arith

later_owner :
    (i d j : String) (rest : List Message)
    → owner rest d ≡ none
    → (if j == d then none else owner ((i, d) ∷ rest) j) ≡ owner rest j
unfolding owner
later_owner i d j rest h = ground (arith, h)

all-Trimmed : (g : ReplayGuard) → IsLoose g → length g.by_identity ≤ g.capacity → Trimmed g g
all-Trimmed g loose fits = (
  record {
    capacity_pos = loose.loose_pos;
    bounded = fits;
    apart = loose.loose_apart;
    inverse = loose.loose_inverse;
  },
  refl,
  sym (keep_all g.capacity g.by_identity fits),
)

expire-Trimmed :
    (g : ReplayGuard) (i d : String) (rest : List Message)
    → g.by_identity ≡ (i, d) ∷ rest
    → IsLoose g
    → g.capacity < length g.by_identity
    → Trimmed g (expire (i, d) rest g)
unfolding expire drop
expire-Trimmed g i d rest same loose over =
    let size : length g.by_identity ≡ suc (length rest) =
      ap (λ (xs : List Message). length xs) same in
    let apart : Apart ((i, d) ∷ rest) = subst Apart same loose.loose_apart in
    let held : (j : String) → g.by_digest j ≡ owner ((i, d) ∷ rest) j =
      λ j. loose.loose_inverse j ∙ ap (λ xs. owner xs j) same in
    let one : length g.by_identity - g.capacity ≡ 1 = omega (arith, over, loose.loose_bound) in
    let owned : (g.by_digest d == some i) ≡ true = ground (arith, held d, first_owner i d rest) in
    (
      record {
        capacity_pos = loose.loose_pos;
        bounded = omega (arith, size, loose.loose_bound);
        apart = apart.2;
        inverse = λ j. rw (owned, held j) (later_owner i d j rest apart.1);
      },
      refl,
      rw (one, same) refl,
    )

evict-Trimmed :
    (g : ReplayGuard) (entries : List Message)
    → g.by_identity ≡ entries
    → IsLoose g
    → Trimmed g (evict entries g)
unfolding evict
evict-Trimmed g [] same loose = all-Trimmed g loose (rw (same) omega arith)
evict-Trimmed g ((i, d) ∷ rest) same loose =
    elim (Bool-cases (ltb g.capacity (length g.by_identity))) [
      | inr fits ↦ rw (fits) (all-Trimmed g loose (ground (arith, fits)))
      | inl over ↦ rw (over) (expire-Trimmed g i d rest same loose (ground (arith, over)))
    ]

pub remember_lem :
    (g : ReplayGuard) (i d : String)
    → IsSound g
    → digest_of g.by_identity i ≡ none
    → owner g.by_identity d ≡ none
    → IsSound (remember i d g)
      × ((remember i d g).capacity ≡ g.capacity)
      × ((remember i d g).by_identity ≡ keep_last g.capacity (g.by_identity ++ (i, d) ∷ []))
unfolding remember
remember_lem g i d sound fresh unowned =
    let entries = g.by_identity ++ (i, d) ∷ [] in
    let next = record g { by_identity = entries; by_digest = insert d i g.by_digest } in
    evict-Trimmed next entries refl (record {
      loose_pos = sound.capacity_pos;
      loose_bound = omega (arith, length-append g.by_identity ((i, d) ∷ []), sound.bounded);
      loose_apart = Apart-append g.by_identity i d sound.apart fresh unowned;
      loose_inverse = λ j. rw (sound.inverse j) (sym (owner-append g.by_identity i d j unowned));
    })

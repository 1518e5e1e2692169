-- ===== src/Facts/Lookup.antt =====
-- What `lookup` serves.
use mathlib.Core.Path.{subst}
use strongwiz.Base.{
  ◌≡◌, ◌⊎◌, inl, inr, refl, sym, ap, arith, String, true, false, Option, none, some, List, [], ◌∷◌,
  keep, all, contains, string_eq, Option-cases, ◌++◌, Bool-cases, is_present,
}
use strongwiz.Base.Map.{has_key, get_or}
use strongwiz.Base.Result.{Result, ok, err}
use strongwiz.Base.Exec.{>>=-ok}
use strongwiz.Contracts.{CostVector, no_costs}
use strongwiz.Facts.Records.{
  FactError, hit, DerivedFact, FactUseReceipt, miss, no_fact, invalid, invalidated,
}
use strongwiz.Facts.Store.{
  FactStore, SubjectKey, one_validation, key_of, refs_at, latest, find, use_of, serve, lookup,
  missed, record_use, is_stale_version,
}
use strongwiz.Facts.Grounded.{Active, IsGrounded, refs_at-Of}
use strongwiz.Facts.Withdrawn.{contains-keep}

-- the receipt answers this query, and is the one thing that the lookup adds besides its counts
abbrev pub Recorded : FactStore → FactStore → String → SubjectKey → FactUseReceipt → Type 0
Recorded s t query key receipt =
    (receipt.query_ref ≡ query)
    × (receipt.subject_ref ≡ key.subject)
    × (receipt.subject_version ≡ key.version)
    × (receipt.predicate ≡ key.about)
    × (t.uses ≡ s.uses ++ receipt ∷ [])
    × (t.facts ≡ s.facts)
    × (t.active ≡ s.active)
    × (t.versions ≡ s.versions)

-- an active fact with the key is served, and where there is none nothing is; the receipt is recorded
-- and nothing becomes active or inactive
pub Served :
    (DerivedFact → String)
    → FactStore
    → String
    → SubjectKey
    → Result FactError (Option DerivedFact × FactUseReceipt) × FactStore
    → Type 0
Served fact_ref s query key (ok (some fact, receipt), t) =
    Active s (fact_ref fact) fact
    × (key_of fact ≡ key)
    × (receipt.fact_ref ≡ some (fact_ref fact))
    × (receipt.kind ≡ hit)
    × Recorded s t query key receipt
Served fact_ref s query key (ok (none, receipt), t) =
    ((r : String) (f : DerivedFact) → Active s r f → key_of f ≡ key → ⊥)
    × (receipt.fact_ref ≡ none)
    × (((receipt.kind ≡ miss) × (receipt.reason ≡ no_fact))
        ⊎ ((receipt.kind ≡ invalid) × (receipt.reason ≡ invalidated)))
    × Recorded s t query key receipt
Served fact_ref s query key (err e, t) = ⊥

contains-latest : (xs : List String) (x : String) → latest xs ≡ some x → contains xs x ≡ true
unfolding latest
contains-latest [] x h = cc
contains-latest (y ∷ xs) x h = elim (Option-cases (latest xs)) [
  | inl last ↦ ground (arith, h, last)
  | inr (z, later) ↦ ground (arith, contains-latest xs z later, h, later)
]

latest_none : (xs : List String) → latest xs ≡ none → xs ≡ []
unfolding latest
latest_none [] h = refl
latest_none (y ∷ xs) h = elim (Option-cases (latest xs)) [
  | inl last ↦ absurd (ground (arith, h, last))
  | inr (z, later) ↦ absurd (ground (arith, h, later))
]

module _ (fact_ref : DerivedFact → String) (s : FactStore) (key : SubjectKey)
    (was : IsGrounded fact_ref s) where
  candidates : List String
  candidates = keep (contains s.active) (refs_at s.by_key key)

  known_keep :
      (refs : List String)
      → ((r : String) → contains refs r ≡ true → contains (refs_at s.by_key key) r ≡ true)
      → all (has_key s.facts) (keep (contains s.active) refs) ≡ true
  known_keep [] below = refl
  known_keep (x ∷ refs) below =
      let (f, held, _) = refs_at-Of s.facts s.by_key key x was.filed (below x (ground arith)) in
      ground (arith, held, known_keep refs (λ r m. below r (ground (arith, m))))

  find_cases :
      ((find s key ≡ ok none) × (candidates ≡ []))
      ⊎ ((r : String) × (f : DerivedFact) × (find s key ≡ ok (some f))
          × Active s r f
          × (key_of f ≡ key))
  unfolding find candidates
  find_cases =
      let known : all (has_key s.facts) candidates ≡ true =
        known_keep (refs_at s.by_key key) (λ r m. m) in
      elim (Option-cases (latest candidates)) [
        | inl last ↦ inl (rw (find, known, last) refl, latest_none candidates last)
        | inr (r, last) ↦
            let there = contains-latest candidates r last in
            let (f, held, named) =
              refs_at-Of s.facts s.by_key key r was.filed
                (ground (arith, there, contains-keep s.active (refs_at s.by_key key) r)) in
            inr (
              r,
              f,
              rw (find, known, last, held) refl,
              (ground (arith, there, contains-keep s.active (refs_at s.by_key key) r), held),
              named,
            )
      ]

  no_candidate :
      (r : String) (f : DerivedFact) → Active s r f → key_of f ≡ key → candidates ≡ [] → ⊥
  unfolding candidates
  no_candidate r f active same empty =
      let here : contains (refs_at s.by_key key) r ≡ true =
        subst (λ k. contains (refs_at s.by_key k) r ≡ true) same (was.listed r f active) in
      let one : contains candidates r ≡ true =
        ground (arith, here, active.0, contains-keep s.active (refs_at s.by_key key) r) in
      let none_there : contains candidates r ≡ false =
        ap (λ (xs : List String). contains xs r) empty in
      cc

  missed_current :
      s.versions key.subject ≡ some key.version
      → (((missed s key).0 ≡ miss) × ((missed s key).1 ≡ no_fact))
        ⊎ (((missed s key).0 ≡ invalid) × ((missed s key).1 ≡ invalidated))
  unfolding missed is_stale_version
  missed_current current = elim (Bool-cases (is_present (refs_at s.by_key key))) [
    | inl listed ↦ inr (ground (arith, current), ground (arith, current))
    | inr new ↦ inl (ground (arith, current), ground (arith, current))
  ]

  -- For the current version of a subject, `lookup` on a sound store returns. What it serves is an
  -- active fact that has exactly the subject, version and predicate asked for, under its reference
  -- and as a hit; and it serves nothing, and reports a miss or an invalidated fact, only where there
  -- is no such active fact.
  -- Either way the receipt repeats the query and is appended to the uses, and the facts, the active
  -- ones and the versions stay.
  pub lookup-Served :
      (query : String) (cost avoided : Option CostVector)
      → s.versions key.subject ≡ some key.version
      → Served fact_ref s query key (lookup fact_ref query key cost avoided s)
  unfolding lookup serve use_of record_use Served candidates
  lookup-Served query cost avoided current =
      let answer =
        serve fact_ref query key (get_or cost one_validation) (get_or avoided no_costs) in
      elim find_cases [
        | inl (nothing, empty) ↦
            subst (Served fact_ref s query key)
              (sym (>>=-ok (λ t. (find t key, t)) answer (ap (λ r. (r, s)) nothing)))
              (
                λ r f active same. no_candidate r f active same empty,
                refl,
                missed_current current,
                (refl, refl, refl, refl, refl, refl, refl, refl),
              )
        | inr (r, f, found, active, named) ↦
            subst (Served fact_ref s query key)
              (sym (>>=-ok (λ t. (find t key, t)) answer (ap (λ r. (r, s)) found)))
              (
                subst (λ x. Active s x f) (sym (was.named r f active.1)) active,
                named,
                refl,
                refl,
                (refl, refl, refl, refl, refl, refl, refl, refl),
              )
      ]

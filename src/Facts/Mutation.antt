-- ===== src/Facts/Mutation.antt =====
-- `mutate_subject` on every branch.
use mathlib.Core.Path.{subst}
use strongwiz.Base.{
  ℕ, ◌≤◌, ◌<◌, ◌≡◌, ◌↔◌, ◌⊎◌, inl, inr, refl, sym, ap, ◌∙◌, arith, String, Bool, true, false, ◌&&◌,
  Option, some, List, ◌==◌, contains, difference, leb, string_eq, is_nonempty, is_present,
  sorted_set, contains-sorted_set, Bool-cases,
}
use strongwiz.Base.Map.{get_or}
use strongwiz.Base.Result.{Result, ok, err}
use strongwiz.Base.Exec.{>>=-ok}
use strongwiz.Contracts.{CostVector}
use strongwiz.Facts.Records.{
  FactError, DerivedFact, FactInvalidation, validate_invalidation, stalled_version,
  incomplete_invalidation,
}
use strongwiz.Facts.Store.{FactStore}
use strongwiz.Facts.Mutate.{candidates_of, withdraw, invalidate, mutate_subject, dependencies}
use strongwiz.Facts.Subsets.{contains-difference, contains-any}
use strongwiz.Facts.Grounded.{IsGrounded}
use strongwiz.Facts.Withdrawn.{
  Tainted, candidates, candidates-Tainted, candidates-Closed, Tainted-candidates, candidates_of_lem,
}

-- the version of a subject, 0 at first
abbrev pub version_of : FactStore → String → ℕ
version_of s subject = get_or (s.versions subject) 0

abbrev pub is_explained : String → String → List String → Bool
is_explained event_kind reason evidence_refs =
    is_nonempty event_kind && (is_nonempty reason && is_present evidence_refs)

-- after a mutation the active facts are those that were and are not implicated; without an explanation
-- or a later version there is none
pub Withdrawn :
    FactStore → String → ℕ → Bool → Result FactError FactInvalidation × FactStore → Type 0
Withdrawn s subject new_version explained (ok receipt, t) =
    ((r : String)
      → (contains t.active r ≡ true) ↔ ((contains s.active r ≡ true) × (Tainted s subject r → ⊥)))
    × ((r : String) → (contains receipt.invalidated_fact_refs r ≡ true) ↔ Tainted s subject r)
    × (t.versions subject ≡ some new_version)
    × (version_of s subject < new_version)
    × (explained ≡ true)
Withdrawn s subject new_version explained (err e, t) =
    (t ≡ s) × ((new_version ≤ version_of s subject) ⊎ (explained ≡ false))

module _ (fact_ref : DerivedFact → String) (s : FactStore) (subject : String)
    (was : IsGrounded fact_ref s) where
  left_lem :
      (r : String)
      → (contains (difference s.active (candidates fact_ref s subject was)) r ≡ true)
        ↔ ((contains s.active r ≡ true) × (Tainted s subject r → ⊥))
  left_lem r =
      let split = contains-difference s.active (candidates fact_ref s subject was) r in
      (
        λ m. (
          ground (arith, m, split),
          λ tainted. ground (arith, m, split, Tainted-candidates fact_ref s subject was r tainted),
        ),
        λ (m, clean). elim (Bool-cases (contains (candidates fact_ref s subject was) r)) [
          | inl inside ↦ absurd (clean (candidates-Tainted fact_ref s subject was r inside))
          | inr outside ↦ ground (arith, m, outside, split)
        ],
      )

  receipt_lem :
      (r : String)
      → (contains (sorted_set (candidates fact_ref s subject was)) r ≡ true) ↔ Tainted s subject r
  receipt_lem r =
      let same = contains-sorted_set (candidates fact_ref s subject was) r in
      (
        λ m. candidates-Tainted fact_ref s subject was r (ground (arith, m, same)),
        λ tainted. ground (arith, same, Tainted-candidates fact_ref s subject was r tainted),
      )

  module _ (new_version : ℕ) (event_kind reason : String) (evidence_refs : List String)
      (cost : Option CostVector) where
    pub receipt : FactInvalidation
    receipt = record {
      schema_id = "strongwiz.fact-invalidation.v1";
      subject_ref = subject;
      old_version = version_of s subject;
      new_version = new_version;
      event_kind = event_kind;
      reason = reason;
      evidence_refs = evidence_refs;
      invalidated_fact_refs = sorted_set (candidates fact_ref s subject was);
    }

    validated_low :
        leb new_version (version_of s subject) ≡ true
        → validate_invalidation receipt ≡ err stalled_version
    unfolding validate_invalidation receipt
    validated_low low = ground (arith, low)

    validated_blank :
        leb new_version (version_of s subject) ≡ false
        → is_explained event_kind reason evidence_refs ≡ false
        → validate_invalidation receipt ≡ err incomplete_invalidation
    unfolding validate_invalidation receipt
    validated_blank high blank = ground (arith, high, blank)

    validated_full :
        leb new_version (version_of s subject) ≡ false
        → is_explained event_kind reason evidence_refs ≡ true
        → validate_invalidation receipt ≡ ok receipt
    unfolding validate_invalidation receipt
    validated_full high full = ground (arith, high, full)

    pub mutate_cases :
        ((version_of s subject < new_version)
          × (is_explained event_kind reason evidence_refs ≡ true)
          × (mutate_subject subject new_version event_kind reason evidence_refs cost s ≡ (
            ok receipt,
            withdraw subject new_version (candidates fact_ref s subject was) cost s,
          )))
        ⊎ (((new_version ≤ version_of s subject)
              ⊎ (is_explained event_kind reason evidence_refs ≡ false))
            × ((e : FactError) × (mutate_subject subject new_version event_kind reason evidence_refs
                    cost s
                  ≡ (err e, s))))
    unfolding mutate_subject invalidate receipt
    mutate_cases =
        let found =
          >>=-ok (λ t. (candidates_of t subject, t))
            (invalidate subject new_version event_kind reason evidence_refs cost)
            (ap (λ r. (r, s)) (candidates_of_lem fact_ref s subject was)) in
        elim (Bool-cases (leb new_version (version_of s subject))) [
          | inl low ↦ inr (
            inl (ground (arith, low)),
            (stalled_version, found ∙ (rw (invalidate, validated_low low) refl)),
          )
          | inr high ↦ elim (Bool-cases (is_explained event_kind reason evidence_refs)) [
            | inr blank ↦ inr (
              inr blank,
              (incomplete_invalidation, found ∙ (rw (invalidate, validated_blank high blank) refl)),
            )
            | inl full ↦ inl (
              ground (arith, high),
              full,
              found ∙ (rw (invalidate, validated_full high full) refl),
            )
          ]
        ]

    -- `mutate_subject` of a sound store returns exactly when the version is later and the change is
    -- explained by an event, a reason and evidence. Then the active facts are those that were active
    -- and do not rest, however far, on an active fact of the subject; the receipt lists the others,
    -- and the subject has the new version. Otherwise it raises and changes nothing.
    pub mutate_subject-Withdrawn :
        Withdrawn s subject new_version
          (is_explained event_kind reason evidence_refs)
          (mutate_subject subject new_version event_kind reason evidence_refs cost s)
    unfolding Withdrawn withdraw receipt
    mutate_subject-Withdrawn = elim mutate_cases [
      | inl (later, explained, run) ↦
          subst (Withdrawn s subject new_version (is_explained event_kind reason evidence_refs))
            (sym run) (left_lem, receipt_lem, ground arith, later, explained)
      | inr (why, (e, run)) ↦
          subst (Withdrawn s subject new_version (is_explained event_kind reason evidence_refs))
            (sym run) (refl, why)
    ]

    pub withdraw-IsGrounded :
        version_of s subject < new_version
        → IsGrounded fact_ref
            (withdraw subject new_version (candidates fact_ref s subject was) cost s)
    unfolding withdraw dependencies
    withdraw-IsGrounded later =
        let gone = candidates fact_ref s subject was in
        let before : (r : String)
            → contains (difference s.active gone) r ≡ true
            → contains s.active r ≡ true =
          λ r m. ground (arith, m, contains-difference s.active gone r) in
        record {
          stored = λ r m. was.stored r (before r m);
          named = was.named;
          listed = λ r f a. was.listed r f (before r a.0, a.1);
          filed = was.filed;
          resting = λ r f a x m. elim (Bool-cases (contains gone x)) [
            | inl inside ↦
                let rests =
                  contains-any (dependencies s.facts r) gone x (rw (dependencies, a.1) m) inside in
                absurd (
                  ground (
                    arith,
                    a.0,
                    contains-difference s.active gone r,
                    candidates-Closed fact_ref s subject was r (before r a.0) rests,
                  ))
            | inr outside ↦ ground (
              arith,
              outside,
              was.resting r f (before r a.0, a.1) x m,
              contains-difference s.active gone x,
            )
          ];
          current = λ r f a.
              let (v, known, fits) = was.current r f (before r a.0, a.1) in
              elim (Bool-cases (f.subject_ref == subject)) [
                | inl same ↦
                    let old : s.versions subject ≡ some v = ground (arith, same, known) in
                    (new_version, ground (arith, same), ground (arith, old, later, fits))
                | inr other ↦ (v, ground (arith, other, known), fits)
              ];
        }

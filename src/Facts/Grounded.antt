-- ===== src/Facts/Grounded.antt =====
-- What a `FactStore` keeps: active facts are stored, listed under their key, current, and rest on
-- active facts.
use mathlib.Core.Path.{subst}
use strongwiz.Base.{
  ℕ, ◌≤◌, ◌≡◌, ◌⊎◌, inl, inr, refl, sym, ap, ◌∙◌, arith, String, true, false, ◌&&◌, ◌||◌, some,
  List, [], ◌∷◌, ◌==◌, all, contains, contains-append, ltb, string_eq, nat_eq, if◌then◌else◌,
  Bool-cases,
}
use strongwiz.Base.Map.{Map, insert, get_or}
use strongwiz.Base.Result.{ok}
use strongwiz.Facts.Records.{DerivedFact, same_fact}
use strongwiz.Facts.Store.{
  FactStore, KeyIndex, SubjectKey, subject_key_eq, add, key_of, refs_at, enlist, check_issue,
  store_fact,
}
use strongwiz.Facts.Subsets.{Below}

-- the reference is that of a stored fact with this key
abbrev pub Of : Map String DerivedFact → SubjectKey → String → Type 0
Of facts k r = (f : DerivedFact) × (facts r ≡ some f) × (key_of f ≡ k)

abbrev pub Filed : Map String DerivedFact → KeyIndex → Type 0
Filed facts [] = Unit {0}
Filed facts ((k, refs) ∷ rest) =
    ((r : String) → contains refs r ≡ true → Of facts k r) × Filed facts rest

-- an active fact under its reference
abbrev pub Active : FactStore → String → DerivedFact → Type 0
Active s r f = (contains s.active r ≡ true) × (s.facts r ≡ some f)

pub record IsGrounded (fact_ref : DerivedFact → String) (s : FactStore) : Type 0 where
  pub stored : (r : String) → contains s.active r ≡ true → (f : DerivedFact) × (s.facts r ≡ some f)
  pub named : (r : String) (f : DerivedFact) → s.facts r ≡ some f → fact_ref f ≡ r
  pub listed :
      (r : String) (f : DerivedFact)
      → Active s r f
      → contains (refs_at s.by_key (key_of f)) r ≡ true
  pub filed : Filed s.facts s.by_key
  pub resting :
      (r : String) (f : DerivedFact) → Active s r f → Below f.dependency_fact_refs s.active
  pub current :
      (r : String) (f : DerivedFact)
      → Active s r f
      → (v : ℕ) × (s.versions f.subject_ref ≡ some v) × (f.subject_version ≤ v)

pub contains-add :
    (x : String) (xs : List String) (r : String) → contains (add x xs) r ≡ (r == x || contains xs r)
contains-add x xs r = ground (arith, contains-append xs (x ∷ []) r)

refs_at-enlist :
    (key : SubjectKey) (ref : String) (by : KeyIndex) (k : SubjectKey) (r : String)
    → contains (refs_at (enlist key ref by) k) r
      ≡ (contains (refs_at by k) r || (k == key && r == ref))
unfolding refs_at enlist
refs_at-enlist key ref [] k r = ground arith
refs_at-enlist key ref ((j, refs) ∷ rest) k r =
    ground (arith, refs_at-enlist key ref rest k r, contains-add ref refs r)

added :
    (facts : Map String DerivedFact) (k : SubjectKey) (ref : String) (refs : List String)
    → Of facts k ref
    → ((r : String) → contains refs r ≡ true → Of facts k r)
    → (r : String) → contains (add ref refs) r ≡ true
    → Of facts k r
added facts k ref refs own first r m = elim (Bool-cases (r == ref)) [
  | inl same ↦ let it : r ≡ ref = ground (arith, same) in subst (Of facts k) (sym it) own
  | inr other ↦ first r (ground (arith, m, other, contains-add ref refs r))
]

Filed-enlist :
    (facts : Map String DerivedFact) (key : SubjectKey) (ref : String) (by : KeyIndex)
    → Of facts key ref
    → Filed facts by
    → Filed facts (enlist key ref by)
unfolding enlist
Filed-enlist facts key ref [] own filed =
    (λ r m. let it : r ≡ ref = ground (arith, m) in subst (Of facts key) (sym it) own, tt)
Filed-enlist facts key ref ((k, refs) ∷ rest) own (first, filed) = elim (Bool-cases (key == k)) [
  | inl same ↦
      let it : key ≡ k = ground (arith, same) in
      rw (same) (added facts k ref refs (subst (λ x. Of facts x ref) it own) first, filed)
  | inr other ↦ rw (other) (first, Filed-enlist facts key ref rest own filed)
]

all_lem : (xs ys : List String) → all (contains ys) xs ≡ true → Below xs ys
all_lem [] ys h r m = cc
all_lem (x ∷ xs) ys h r m = elim (Bool-cases (r == x)) [
  | inl same ↦ ground (arith, same, h)
  | inr other ↦ all_lem xs ys (ground (arith, h)) r (ground (arith, m, other))
]

pub refs_at-Of :
    (facts : Map String DerivedFact) (by : KeyIndex) (k : SubjectKey) (r : String)
    → Filed facts by
    → contains (refs_at by k) r ≡ true
    → Of facts k r
unfolding refs_at
refs_at-Of facts [] k r filed m = cc
refs_at-Of facts ((j, refs) ∷ rest) k r (first, filed) m = elim (Bool-cases (k == j)) [
  | inl same ↦
      let it : k ≡ j = ground (arith, same) in
      subst (λ x. Of facts x r) (sym it) (first r (ground (arith, m, same)))
  | inr other ↦ refs_at-Of facts rest k r filed (ground (arith, m, other))
]

-- a stored fact is replaced by one with the same key only
Of-insert :
    (facts : Map String DerivedFact) (ref : String) (f : DerivedFact) (k : SubjectKey) (r : String)
    → ((g : DerivedFact) → facts ref ≡ some g → key_of f ≡ key_of g)
    → Of facts k r
    → Of (insert ref f facts) k r
Of-insert facts ref f k r agree (g, held, named) = elim (Bool-cases (r == ref)) [
  | inl same ↦
      let it : r ≡ ref = ground (arith, same) in
      (f, ground (arith, same), agree g (ap facts (sym it) ∙ held) ∙ named)
  | inr other ↦ (g, ground (arith, other, held), named)
]

Filed-insert :
    (facts : Map String DerivedFact) (ref : String) (f : DerivedFact) (by : KeyIndex)
    → ((g : DerivedFact) → facts ref ≡ some g → key_of f ≡ key_of g)
    → Filed facts by
    → Filed (insert ref f facts) by
Filed-insert facts ref f [] agree filed = tt
Filed-insert facts ref f ((k, refs) ∷ rest) agree (first, filed) =
    (λ r m. Of-insert facts ref f k r agree (first r m), Filed-insert facts ref f rest agree filed)

same_fact_key : (g f : DerivedFact) → same_fact g f ≡ true → key_of f ≡ key_of g
unfolding same_fact
same_fact_key g f h = ground (arith, h)

-- what the tests of `issue` say of a fact
check_issue_lem :
    (fact_ref : DerivedFact → String) (s : FactStore) (f : DerivedFact)
    → check_issue fact_ref s f ≡ ok tt
    → Below f.dependency_fact_refs s.active
      × ((g : DerivedFact) → s.facts (fact_ref f) ≡ some g → key_of f ≡ key_of g)
unfolding check_issue
check_issue_lem fact_ref s f h = (
  λ r m. all_lem f.dependency_fact_refs s.active (ground (arith, h)) r m,
  λ g held. same_fact_key g f (ground (arith, h, held)),
)

-- a fact that is active after another was stored: that one, or one that was active before
Active-store_fact :
    (fact_ref : DerivedFact → String) (s : FactStore) (f : DerivedFact) (r : String)
    (g : DerivedFact)
    → Active (store_fact fact_ref f s) r g
    → ((r ≡ fact_ref f) × (g ≡ f)) ⊎ (((r == fact_ref f) ≡ false) × Active s r g)
unfolding store_fact
Active-store_fact fact_ref s f r g (active, held) = elim (Bool-cases (r == fact_ref f)) [
  | inl same ↦ inl (ground (arith, same), ground (arith, same, held))
  | inr other ↦ inr (
    other,
    (
      ground (arith, other, active, contains-add (fact_ref f) s.active r),
      ground (arith, other, held),
    ),
  )
]

-- the version of a subject after a fact of it was stored
abbrev raised : Map String ℕ → String → ℕ → ℕ
raised versions subject n =
    let known = get_or (versions subject) 0 in if ltb n known then known else n

newest :
    (versions : Map String ℕ) (subject : String) (n : ℕ)
    → (v : ℕ) × (insert subject (raised versions subject n) versions subject ≡ some v) × (n ≤ v)
newest versions subject n = (raised versions subject n, ground arith, ground arith)

older :
    (versions : Map String ℕ) (subject other : String) (n m : ℕ)
    → (v : ℕ) × (versions other ≡ some v) × (m ≤ v)
    → (v : ℕ) × (insert subject (raised versions subject n) versions other ≡ some v) × (m ≤ v)
older versions subject other n m (v, known, fits) = elim (Bool-cases (other == subject)) [
  | inl same ↦
      let it : versions subject ≡ some v = ground (arith, same, known) in
      (raised versions subject n, ground (arith, same), ground (arith, it, fits))
  | inr apart ↦ (v, ground (arith, apart, known), fits)
]

pub store_fact-IsGrounded :
    (fact_ref : DerivedFact → String) (s : FactStore) (f : DerivedFact)
    → IsGrounded fact_ref s
    → check_issue fact_ref s f ≡ ok tt
    → IsGrounded fact_ref (store_fact fact_ref f s)
unfolding store_fact
store_fact-IsGrounded fact_ref s f was checked =
    let ref = fact_ref f in
    let (rests, agree) = check_issue_lem fact_ref s f checked in
    record {
      stored = λ r m. elim (Bool-cases (r == ref)) [
        | inl same ↦ (f, ground (arith, same))
        | inr other ↦
            let (g, held) = was.stored r (ground (arith, m, other, contains-add ref s.active r)) in
            (g, ground (arith, other, held))
      ];
      named = λ r g h. elim (Bool-cases (r == ref)) [
        | inl same ↦ ground (arith, same, h)
        | inr other ↦ was.named r g (ground (arith, other, h))
      ];
      listed = λ r g a. elim (Active-store_fact fact_ref s f r g a) [
        | inl (it, same) ↦
            rw (it, same) (ground (arith, refs_at-enlist (key_of f) ref s.by_key (key_of f) ref))
        | inr (other, before) ↦
            ground
              (arith, was.listed r g before, refs_at-enlist (key_of f) ref s.by_key (key_of g) r)
      ];
      filed =
          Filed-enlist (insert ref f s.facts) (key_of f) ref s.by_key (f, ground arith, refl)
            (Filed-insert s.facts ref f s.by_key agree was.filed);
      resting = λ r g a x m. elim (Active-store_fact fact_ref s f r g a) [
        | inl (it, same) ↦ ground (arith, rests x (rw (same) at m), contains-add ref s.active x)
        | inr (other, before) ↦
            ground (arith, was.resting r g before x m, contains-add ref s.active x)
      ];
      current = λ r g a. elim (Active-store_fact fact_ref s f r g a) [
        | inl (it, same) ↦ rw (same) (newest s.versions f.subject_ref f.subject_version)
        | inr (other, before) ↦
            older s.versions f.subject_ref g.subject_ref f.subject_version g.subject_version
              (was.current r g before)
      ];
    }

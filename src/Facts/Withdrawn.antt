-- ===== src/Facts/Withdrawn.antt =====
-- What `mutate_subject` withdraws: the active facts of the subject, and all that rests on them.
use mathlib.Core.Path.{subst}
use strongwiz.Base.{
  ◌≤◌, ◌≡◌, inl, inr, refl, sym, ap, ◌∙◌, arith, String, true, ◌&&◌, ◌||◌, some, List, [], ◌∷◌,
  ◌==◌, all, keep, contains, difference, length, string_eq, nat_eq, Bool-cases,
}
use strongwiz.Base.Map.{Map, has_key}
use strongwiz.Base.Result.{ok}
use strongwiz.Facts.Records.{DerivedFact}
use strongwiz.Facts.Store.{FactStore, KeyIndex, SubjectKey, subject_key_eq, add, key_of, refs_at}
use strongwiz.Facts.Mutate.{add_all, implicated, dependencies, close, candidates_of}
use strongwiz.Facts.Subsets.{Below, contains-difference, contains-any}
use strongwiz.Facts.Closure.{Closed, close_sound, close-Closed, close-Below}
use strongwiz.Facts.Grounded.{Filed, Active, IsGrounded, contains-add}

-- the facts that a change of the subject implicates
pub data Tainted (s : FactStore) (subject : String) : String → Type 0 where
  direct :
      (r : String) (f : DerivedFact) → Active s r f → f.subject_ref ≡ subject → Tainted s subject r
  resting :
      (r x : String) (f : DerivedFact)
      → Active s r f
      → contains f.dependency_fact_refs x ≡ true
      → Tainted s subject x
      → Tainted s subject r

contains-add_all :
    (ys xs : List String) (r : String)
    → contains (add_all ys xs) r ≡ (contains ys r || contains xs r)
unfolding add_all
contains-add_all [] xs r = refl
contains-add_all (y ∷ ys) xs r =
    ground (arith, contains-add_all ys (add y xs) r, contains-add y xs r)

pub contains-keep :
    (active refs : List String) (r : String)
    → contains (keep (contains active) refs) r ≡ (contains refs r && contains active r)
contains-keep active [] r = refl
contains-keep active (x ∷ refs) r = ground (arith, contains-keep active refs r)

-- an implicated reference stands under a key of the subject
implicated-Of :
    (facts : Map String DerivedFact) (active : List String) (subject : String) (by : KeyIndex)
    (r : String)
    → Filed facts by
    → contains (implicated active subject by) r ≡ true
    → (contains active r ≡ true)
      × ((f : DerivedFact) × (facts r ≡ some f) × (f.subject_ref ≡ subject))
unfolding implicated
implicated-Of facts active subject [] r filed m = cc
implicated-Of facts active subject ((k, refs) ∷ rest) r (first, filed) m =
    let others = implicated active subject rest in
    let parts = contains-add_all (keep (contains active) refs) others r in
    let kept = contains-keep active refs r in
    elim (Bool-cases (contains others r)) [
      | inl later ↦ implicated-Of facts active subject rest r filed later
      | inr not_later ↦
          let here : contains refs r ≡ true = ground (arith, m, not_later, parts, kept) in
          let (f, held, key) = first r here in
          let it : k.subject ≡ subject = ground (arith, m, not_later) in
          (
            ground (arith, m, not_later, parts, kept),
            (f, held, ap (λ (x : SubjectKey). x.subject) key ∙ it),
          )
    ]

-- and every active reference under such a key is implicated
refs_at-implicated :
    (active : List String) (by : KeyIndex) (k : SubjectKey) (r : String)
    → contains active r ≡ true
    → contains (refs_at by k) r ≡ true
    → contains (implicated active k.subject by) r ≡ true
unfolding refs_at implicated
refs_at-implicated active [] k r is_active m = cc
refs_at-implicated active ((j, refs) ∷ rest) k r is_active m =
    let others = implicated active k.subject rest in
    let parts = contains-add_all (keep (contains active) refs) others r in
    let kept = contains-keep active refs r in
    elim (Bool-cases (k == j)) [
      | inl same ↦
          let it : k ≡ j = ground (arith, same) in
          let sub : j.subject ≡ k.subject = ap (λ (x : SubjectKey). x.subject) (sym it) in
          let here : contains refs r ≡ true = ground (arith, m, same) in
          ground (arith, sub, here, is_active, parts, kept)
      | inr other ↦
          ground
            (arith, parts, refs_at-implicated active rest k r is_active (ground (arith, m, other)))
    ]

difference_le : (xs c : List String) → length (difference xs c) ≤ length xs
difference_le [] c = omega arith
difference_le (x ∷ xs) c = ground (arith, difference_le xs c)

module _ (fact_ref : DerivedFact → String) (s : FactStore) (subject : String)
    (was : IsGrounded fact_ref s) where
  start : List String
  start = implicated s.active subject s.by_key

  pub candidates : List String
  candidates = close (dependencies s.facts) s.active (length s.active) start

  -- the dependencies of an active reference are those of its fact
  dependencies_lem :
      (r x : String)
      → contains s.active r ≡ true
      → contains (dependencies s.facts r) x ≡ true
      → (f : DerivedFact) × Active s r f × (contains f.dependency_fact_refs x ≡ true)
  unfolding dependencies
  dependencies_lem r x m needed =
      let (f, held) = was.stored r m in (f, (m, held), rw (dependencies, held) at needed)

  pub candidates-Tainted : (r : String) → contains candidates r ≡ true → Tainted s subject r
  unfolding candidates start
  candidates-Tainted =
      close_sound (dependencies s.facts) (Tainted s subject) s.active
        (λ r x m needed tainted.
          let (f, active, dep) = dependencies_lem r x m needed in
          Tainted.resting r x f active dep tainted)
        (length s.active) start
        (λ r m.
          let (is_active, (f, held, about)) =
            implicated-Of s.facts s.active subject s.by_key r was.filed m in
          Tainted.direct r f (is_active, held) about)

  pub candidates-Closed : Closed (dependencies s.facts) s.active candidates
  unfolding candidates start
  candidates-Closed =
      close-Closed (dependencies s.facts) s.active start (length s.active)
        (difference_le s.active start)

  pub Tainted-candidates : (r : String) → Tainted s subject r → contains candidates r ≡ true
  unfolding candidates start dependencies
  Tainted-candidates r (Tainted.direct _ f active about) =
      close-Below (dependencies s.facts) s.active start (length s.active) r (
        subst (λ x. contains (implicated s.active x s.by_key) r ≡ true) about
          (refs_at-implicated s.active s.by_key (key_of f) r active.0 (was.listed r f active)))
  Tainted-candidates r (Tainted.resting _ x f active needed tainted) =
      candidates-Closed r active.0 (
        contains-any (dependencies s.facts r) candidates x (rw (dependencies, active.1) needed)
          (Tainted-candidates x tainted))

  known_all : (xs : List String) → Below xs s.active → all (has_key s.facts) xs ≡ true
  known_all [] below = refl
  known_all (x ∷ xs) below =
      let (f, held) = was.stored x (below x (ground arith)) in
      ground (arith, held, known_all xs (λ r m. below r (ground (arith, m))))

  pub candidates_of_lem : candidates_of s subject ≡ ok candidates
  unfolding candidates_of candidates start
  candidates_of_lem =
      let known =
        known_all (difference s.active start)
          (λ r m. ground (arith, m, contains-difference s.active start r)) in
      rw (candidates_of, known) refl

-- ===== src/Ledger/Append.antt =====
-- `append` and `verify` together: what a successful append does to the tables, and that the tables
-- still verify.
use strongwiz.Base.{
  String, Bool, true, Option, none, some, List, [], ◌∷◌, ◌++◌, ◌==◌, ◌≡◌, refl, arith, inl, inr,
  ◌⊎◌, contains, all, any, string_eq, option_eq, nat_eq, Option-cases,
}
use strongwiz.Base.Result.{ok, Result-cases}
use strongwiz.Ledger.Codec.{Codec, ReceiptEnvelope, IsRoundTrip, content_hash}
use strongwiz.Ledger.Store.{
  Row, Ledger, Entry, tail_of, read_envelope, bytes_eq, new_envelope, validate_envelope, append_new,
  insert_or_ignore, store_object, row_of, receipt_identity, insert_row, has_object, append,
  transaction, append_body, return_existing, append_found, find_occurrence,
}
use strongwiz.Ledger.Verify.{Progress, advance, check_row, check_envelope, same_projection}
use strongwiz.Ledger.Rows.{next_count, next_previous}

module _ (c : Codec) where
  open c use {dumps}

  -- what an append of a new occurrence leaves behind
  pub record IsAppended (a : Entry) (l l' : Ledger c) (e : ReceiptEnvelope) : Type 0 where
    pub new : e ≡ new_envelope c a (tail_of c l.receipts)
    pub valid : validate_envelope c e ≡ ok e
    pub objects :
        l'.objects ≡ insert_or_ignore c (content_hash c a.payload) (dumps a.payload) l.objects
    pub receipts : l'.receipts ≡ l.receipts ++ row_of c e ∷ []

  validate_envelope-eq-ok : (e e' : ReceiptEnvelope) → validate_envelope c e ≡ ok e' → e' ≡ e
  unfolding validate_envelope
  validate_envelope-eq-ok e e' h = ground arith

  pub append_new-IsAppended :
      (a : Entry) (l l' : Ledger c) (e : ReceiptEnvelope)
      → append_new c a l ≡ (ok e, l')
      → IsAppended a l l' e
  unfolding append_new store_object insert_row
  append_new-IsAppended a l l' e h =
      elim (Result-cases (validate_envelope c (new_envelope c a (tail_of c l.receipts)))) [
        | inl (v, valid) ↦
            let same = validate_envelope-eq-ok _ v valid in
            record {
              new = ground arith;
              valid = ground arith;
              objects = ground arith;
              receipts = ground arith;
            }
        | inr (v, invalid) ↦ ground arith
      ]

  -- a row made from an envelope that is valid and passes the checks
  pub check_row-row_of :
      IsRoundTrip c
      → (refs : List String) (p : Progress c) (e : ReceiptEnvelope) → validate_envelope c e ≡ ok e
      → check_envelope c refs p e ≡ ok tt
      → check_row c refs p (row_of c e) ≡ ok (advance c p e)
  unfolding check_row read_envelope same_projection
  check_row-row_of law refs p e valid checked = ground (arith, law.load_dump e)

  pub check_envelope-new_envelope :
      (refs : List String) (p : Progress c) (a : Entry) (tail : Option (Row c))
      → p.count ≡ next_count c tail 0
      → p.previous ≡ next_previous c tail none
      → contains refs (content_hash c a.payload) ≡ true
      → all (contains refs) a.object_refs ≡ true
      → all (contains p.seen) a.parent_refs ≡ true
      → check_envelope c refs p (new_envelope c a tail) ≡ ok tt
  unfolding check_envelope new_envelope receipt_identity
  check_envelope-new_envelope refs p a none count previous payload objects parents = ground arith
  check_envelope-new_envelope refs p a (some last) count previous payload objects parents =
      ground arith

  all-eq :
      {p q : String → Bool} (xs : List String) → ((x : String) → p x ≡ q x) → all p xs ≡ all q xs
  all-eq [] same = refl
  all-eq (x ∷ xs) same = rw (same x, all-eq xs same)

  pub all-weaken :
      {p q : String → Bool} (xs : List String)
      → ((x : String) → p x ≡ true → q x ≡ true)
      → all p xs ≡ true
      → all q xs ≡ true
  all-weaken [] more h = refl
  all-weaken (x ∷ xs) more h = ground (arith, more x, all-weaken xs more)

  return_existing-ledger :
      (a : Entry) (row : Row c) (l : Ledger c) → (return_existing c a row l).1 ≡ l
  unfolding return_existing
  return_existing-ledger a row l = ground arith

  -- the guards that a successful append has passed
  pub record IsAllowed (a : Entry) (l : Ledger c) : Type 0 where
    pub objects_known : all (λ h. has_object c h l.objects) a.object_refs ≡ true
    pub parents_known :
        all (λ ref. any (λ (r : Row c). ref == r.receipt_id) l.receipts) a.parent_refs ≡ true

  -- what a successful append has done
  pub append_cases :
      (a : Entry) (l l' : Ledger c) (e : ReceiptEnvelope)
      → append c a l ≡ (ok e, l')
      → IsAllowed a l
        × (((row : Row c) × (find_occurrence c a.occurrence_id l.receipts ≡ some row)
              × (return_existing c a row l ≡ (ok e, l))
              × (l' ≡ l))
            ⊎ ((find_occurrence c a.occurrence_id l.receipts ≡ none)
                × (append_new c a l ≡ (ok e, l'))))
  unfolding append transaction append_body append_found
  append_cases a l l' e h = elim (Option-cases (find_occurrence c a.occurrence_id l.receipts)) [
    | inl new ↦ (
      record { objects_known = ground arith; parents_known = ground arith },
      inr (new, ground arith),
    )
    | inr (row, old) ↦ (
      record { objects_known = ground arith; parents_known = ground arith },
      inl (
        row,
        old,
        ground (arith, return_existing-ledger a row l),
        ground (arith, return_existing-ledger a row l),
      ),
    )
  ]

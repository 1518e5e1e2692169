-- ===== src/Ledger/Preserve.antt =====
-- `verify` accepts what `append` and `put_object` leave behind.
use strongwiz.Base.{
  String, true, List, ◌≡◌, arith, inl, inr, ◌⊎◌, contains, string_eq, option_eq, nat_eq,
}
use strongwiz.Base.Result.{ok, >>=-eq-ok}
use strongwiz.Ledger.Codec.{Codec, ReceiptEnvelope, IsRoundTrip, content_hash}
use strongwiz.Ledger.Store.{Ledger, Entry, tail_of, bytes_eq, new_envelope, append, row_of}
use strongwiz.Ledger.Verify.{
  Progress, advance, check_envelope, verify_rows, verify_tables, verify_objects, start,
}
use strongwiz.Ledger.Objects.{has_object-keys, verify_objects-insert, keys_of_verified}
use strongwiz.Ledger.Rows.{verify_rows-append, progress_of_rows, verify_rows_mono}
use strongwiz.Ledger.Append.{
  IsAppended, IsAllowed, append_cases, check_envelope-new_envelope, check_row-row_of,
  append_new-IsAppended, all-weaken,
}

module _ (c : Codec) where
  open c use {dumps}

  -- the two passes of `verify_tables`
  pub verified_parts :
      (l : Ledger c) (p : Progress c)
      → verify_tables c l ≡ ok p
      → (refs : List String) × (verify_objects c l.objects ≡ ok refs)
        × (verify_rows c refs (start c) l.receipts ≡ ok p)
  unfolding verify_tables
  verified_parts l p h =
      >>=-eq-ok (verify_objects c l.objects) (λ refs. verify_rows c refs (start c) l.receipts) h

  pub verified_whole :
      (l : Ledger c) (p : Progress c) (refs : List String)
      → verify_objects c l.objects ≡ ok refs
      → verify_rows c refs (start c) l.receipts ≡ ok p
      → verify_tables c l ≡ ok p
  unfolding verify_tables
  verified_whole l p refs objects rows = rw objects rows

  module _ (law : IsRoundTrip c) where
    new_row_checked :
        (a : Entry) (l : Ledger c) (e : ReceiptEnvelope) (p : Progress c) (refs refs' : List String)
        → IsAllowed c a l
        → e ≡ new_envelope c a (tail_of c l.receipts)
        → verify_objects c l.objects ≡ ok refs
        → verify_rows c refs (start c) l.receipts ≡ ok p
        → ((r : String) → contains refs r ≡ true → contains refs' r ≡ true)
        → contains refs' (content_hash c a.payload) ≡ true
        → check_envelope c refs' p e ≡ ok tt
    new_row_checked a l e p refs refs' allowed new objects rows more payload =
        let (count, previous, seen) = progress_of_rows c refs (start c) l.receipts p rows in
        let known = keys_of_verified c l.objects refs objects in
        rw new (
          check_envelope-new_envelope c refs' p a (tail_of c l.receipts) count previous payload
            (all-weaken c a.object_refs
              (λ x held. more x (rw known (rw (← has_object-keys c x l.objects) held)))
              allowed.objects_known)
            (all-weaken c a.parent_refs (λ x held. ground (arith, seen x)) allowed.parents_known))

    appended_verifies :
        (a : Entry) (l l' : Ledger c) (e : ReceiptEnvelope) (p : Progress c)
        → IsAllowed c a l
        → IsAppended c a l l' e
        → verify_tables c l ≡ ok p
        → verify_tables c l' ≡ ok (advance c p e)
    appended_verifies a l l' e p allowed done h =
        let (refs, objects, rows) = verified_parts l p h in
        let (refs', objects', more, payload) =
          verify_objects-insert c law a.payload l.objects refs objects in
        let checked =
          new_row_checked a l e p refs refs' allowed done.new objects rows more payload in
        verified_whole l' (advance c p e) refs' (rw done.objects objects') (
          rw done.receipts (
            verify_rows-append c refs' (start c) l.receipts p (row_of c e) (advance c p e)
              (verify_rows_mono c refs refs' (start c) l.receipts p more rows)
              (check_row-row_of c law refs' p e done.valid checked)))

    -- If a ledger verifies and `append` returns a receipt, then either the ledger is as it was, or
    -- it verifies with one more receipt, the returned one, at its head.
    pub append_extends :
        (a : Entry) (l l' : Ledger c) (e : ReceiptEnvelope) (p : Progress c)
        → verify_tables c l ≡ ok p
        → append c a l ≡ (ok e, l')
        → (l' ≡ l) ⊎ (verify_tables c l' ≡ ok (advance c p e))
    append_extends a l l' e p h done =
        let (allowed, which) = append_cases c a l l' e done in
        elim which [
          | inl (row, _, _, same) ↦ inl same
          | inr (_, new) ↦
              inr (appended_verifies a l l' e p allowed (append_new-IsAppended c a l l' e new) h)
        ]

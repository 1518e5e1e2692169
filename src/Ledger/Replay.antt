-- ===== src/Ledger/Replay.antt =====
-- Calls of a ledger one after the other: what a refused call leaves, and what a repeated one returns.
use strongwiz.Base.{
  String, false, some, List, [], ◌∷◌, ◌≡◌, refl, arith, ap, inl, inr, string_eq, option_eq, nat_eq,
}
use strongwiz.Base.Result.{ok, err, Result-cases}
use strongwiz.Canonical.Json.{Json}
use strongwiz.Ledger.Codec.{Codec, IsRoundTrip, content_hash}
use strongwiz.Ledger.Store.{
  LedgerError, Ledger, Entry, bytes_eq, append, put_object, get_payload, transaction, store_object,
  insert_or_ignore, find_object,
}
use strongwiz.Ledger.Verify.{Progress, advance, verify_rows, verify_tables, verify_objects, start}
use strongwiz.Ledger.Objects.{verify_objects-insert}
use strongwiz.Ledger.Rows.{verify_rows_mono}
use strongwiz.Ledger.Preserve.{verified_parts, verified_whole, append_extends}

-- a call of the ledger
pub data Call : Type 0 where
  put : Json → Call
  record_entry : Entry → Call

module _ (c : Codec) where
  open c use {dumps}

  -- `append` that raises leaves the tables as they were.
  append-atomic :
      (a : Entry) (l l' : Ledger c) (x : LedgerError) → append c a l ≡ (err x, l') → l' ≡ l
  unfolding append transaction
  append-atomic a l l' x h = ground arith

  put_object-atomic :
      (j : Json) (l l' : Ledger c) (x : LedgerError) → put_object c j l ≡ (err x, l') → l' ≡ l
  unfolding put_object transaction
  put_object-atomic j l l' x h = ground arith

  put_object_cases :
      (j : Json) (l l' : Ledger c) (h : String)
      → put_object c j l ≡ (ok h, l')
      → (h ≡ content_hash c j)
        × (l'.objects ≡ insert_or_ignore c (content_hash c j) (dumps j) l.objects)
        × (l'.receipts ≡ l.receipts)
        × (find_object c h l'.objects ≡ some (dumps j))
  unfolding put_object transaction store_object
  put_object_cases j l l' h done = ground arith

  -- Where the codec reads its own text back: if `put_object` returned a hash, `get_payload` of that
  -- hash returns, from the ledger that it left, a payload with the same text.
  pub get_payload_of_put_object :
      IsRoundTrip c
      → (j : Json) (l l' : Ledger c) (h : String) → put_object c j l ≡ (ok h, l')
      → (k : Json) × (get_payload c h l' ≡ (ok k, l')) × (dumps k ≡ dumps j)
  unfolding get_payload
  get_payload_of_put_object law j l l' h done =
      let (_, _, _, found) = put_object_cases j l l' h done in
      (law.reparse j, ground (arith, law.loads_dumps j), law.dumps_reparse j)

  -- the ledger after a call, whatever it returned
  unfoldable pub step : Ledger c → Call → Ledger c
  step l (put j) = (put_object c j l).1
  step l (record_entry a) = (append c a l).1

  unfoldable pub run : Ledger c → List Call → Ledger c
  unfolding step
  run l [] = l
  run l (x ∷ xs) = run (step l x) xs

  -- the tables as `SQLiteLedger` creates them
  abbrev pub new_ledger : Ledger c
  new_ledger = record { objects = []; receipts = []; readonly = false }

  abbrev pub Verifies : Ledger c → Type 0
  Verifies l = (p : Progress c) × (verify_tables c l ≡ ok p)

  module _ (law : IsRoundTrip c) where
    put-Verifies : (j : Json) (l : Ledger c) → Verifies l → Verifies (put_object c j l).1
    put-Verifies j l (p, h) = elim (Result-cases (put_object c j l).0) [
      | inr (x, bad) ↦
          rw (put_object-atomic j l _ x (ap (λ r. (r, (put_object c j l).1)) bad)) (p, h)
      | inl (k, good) ↦
          let (_, objects, receipts, _) =
            put_object_cases j l _ k (ap (λ r. (r, (put_object c j l).1)) good) in
          let (refs, passed, rows) = verified_parts c l p h in
          let (refs', passed', more, _) = verify_objects-insert c law j l.objects refs passed in
          (
            p,
            verified_whole c _ p refs' (rw objects passed')
                (rw receipts (verify_rows_mono c refs refs' (start c) l.receipts p more rows)),
          )
    ]

    append-Verifies : (a : Entry) (l : Ledger c) → Verifies l → Verifies (append c a l).1
    append-Verifies a l (p, h) = elim (Result-cases (append c a l).0) [
      | inr (x, bad) ↦ rw (append-atomic a l _ x (ap (λ r. (r, (append c a l).1)) bad)) (p, h)
      | inl (e, good) ↦
          elim (append_extends c law a l _ e p h (ap (λ r. (r, (append c a l).1)) good)) [
            | inl same ↦ rw same (p, h)
            | inr more ↦ (advance c p e, more)
          ]
    ]

    step-Verifies : (l : Ledger c) (x : Call) → Verifies l → Verifies (step l x)
    unfolding step
    step-Verifies l (put j) h = put-Verifies j l h
    step-Verifies l (record_entry a) h = append-Verifies a l h

    run-Verifies_from : (l : Ledger c) (xs : List Call) → Verifies l → Verifies (run l xs)
    unfolding run
    run-Verifies_from l [] h = h
    run-Verifies_from l (x ∷ xs) h = run-Verifies_from (step l x) xs (step-Verifies l x h)

    -- Whatever calls are made on a new ledger, refused ones among them, `verify` accepts the tables.
    pub run-Verifies : (xs : List Call) → Verifies (run new_ledger xs)
    unfolding verify_tables verify_objects verify_rows
    run-Verifies xs = run-Verifies_from new_ledger xs (start c, refl)

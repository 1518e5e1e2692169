-- ===== src/Ledger/Rows.antt =====
-- The table of receipts: a row at the end, and what the verified rows before it say.
use strongwiz.Base.{
  ℕ, ◌+◌, String, true, ◌||◌, Option, none, some, List, [], ◌∷◌, ◌++◌, ◌==◌, ◌≡◌, refl, arith,
  contains, all, any, string_eq, option_eq, nat_eq,
}
use strongwiz.Base.Result.{ok, >>=-eq-ok}
use strongwiz.Ledger.Codec.{Codec, ReceiptEnvelope}
use strongwiz.Ledger.Store.{Row, tail_of, read_envelope, bytes_eq}
use strongwiz.Ledger.Verify.{
  Progress, advance, check_row, check_envelope, same_projection, verify_rows,
}

module _ (c : Codec) where
  open c use {dump_envelope}

  -- what a row that passes the checks says
  pub record IsChecked (refs : List String) (p : Progress c) (r : Row c) (q : Progress c)
      : Type 0 where
    pub envelope : ReceiptEnvelope
    pub is_read : read_envelope c r.envelope_json ≡ ok envelope
    pub canonical : ◌==◌ ⦃e = bytes_eq c⦄ (dump_envelope envelope) r.envelope_json ≡ true
    pub projected : same_projection c r envelope ≡ true
    pub checked : check_envelope c refs p envelope ≡ ok tt
    pub progress : q ≡ advance c p envelope

  pub check_row-IsChecked :
      (refs : List String) (p : Progress c) (r : Row c) (q : Progress c)
      → check_row c refs p r ≡ ok q
      → IsChecked refs p r q
  unfolding check_row
  check_row-IsChecked refs p r q h =
      let (e, is_read, more) = >>=-eq-ok (read_envelope c r.envelope_json) _ h in
      record {
        envelope = e;
        is_read = is_read;
        canonical = ground arith;
        projected = ground arith;
        checked = ground arith;
        progress = ground arith;
      }

  -- the variables after a row that passes
  pub progress_of_row :
      (refs : List String) (p : Progress c) (r : Row c) (q : Progress c)
      → IsChecked refs p r q
      → q ≡ record {
        count = r.sequence + 1;
        previous = some r.receipt_hash;
        seen = r.receipt_id ∷ p.seen;
      }
  unfolding check_envelope same_projection
  progress_of_row refs p r q h = ground arith

  pub verified_row :
      (refs : List String) (p : Progress c) (r : Row c) (rs : List (Row c)) (z : Progress c)
      → verify_rows c refs p (r ∷ rs) ≡ ok z
      → (q : Progress c) × (check_row c refs p r ≡ ok q) × (verify_rows c refs q rs ≡ ok z)
  unfolding verify_rows
  verified_row refs p r rs z h = >>=-eq-ok (check_row c refs p r) (λ q. verify_rows c refs q rs) h

  -- a row at the end of the table
  pub verify_rows-append :
      (refs : List String) (p : Progress c) (rows : List (Row c)) (q : Progress c) (r : Row c)
      (z : Progress c)
      → verify_rows c refs p rows ≡ ok q
      → check_row c refs q r ≡ ok z
      → verify_rows c refs p (rows ++ r ∷ []) ≡ ok z
  unfolding verify_rows
  verify_rows-append refs p [] q r z h k = let e : p ≡ q = cc in rw (e, k)
  verify_rows-append refs p (s ∷ rows) q r z h k =
      let (t, first, more) = verified_row refs p s rows q h in
      rw first (verify_rows-append refs t rows q r z more k)

  all_mono :
      (refs refs' : List String) (xs : List String)
      → ((x : String) → contains refs x ≡ true → contains refs' x ≡ true)
      → all (contains refs) xs ≡ true
      → all (contains refs') xs ≡ true
  all_mono refs refs' [] more h = refl
  all_mono refs refs' (x ∷ xs) more h = ground (arith, more x, all_mono refs refs' xs more)

  check_row_mono :
      (refs refs' : List String) (p : Progress c) (r : Row c) (q : Progress c)
      → ((x : String) → contains refs x ≡ true → contains refs' x ≡ true)
      → check_row c refs p r ≡ ok q
      → check_row c refs' p r ≡ ok q
  unfolding check_row check_envelope
  check_row_mono refs refs' p r q more h =
      let k = check_row-IsChecked refs p r q h in
      ground
        (arith, k, more k.envelope.payload_hash, all_mono refs refs' k.envelope.object_refs more)

  -- More objects do no harm.
  pub verify_rows_mono :
      (refs refs' : List String) (p : Progress c) (rows : List (Row c)) (q : Progress c)
      → ((x : String) → contains refs x ≡ true → contains refs' x ≡ true)
      → verify_rows c refs p rows ≡ ok q
      → verify_rows c refs' p rows ≡ ok q
  unfolding verify_rows
  verify_rows_mono refs refs' p [] q more h = h
  verify_rows_mono refs refs' p (r ∷ rows) q more h =
      let (t, first, rest) = verified_row refs p r rows q h in
      rw (check_row_mono refs refs' p r t more first)
        (verify_rows_mono refs refs' t rows q more rest)

  -- the number and the hash that a receipt behind this tail has to bear
  abbrev pub next_count : Option (Row c) → ℕ → ℕ
  next_count none n = n
  next_count (some last) n = last.sequence + 1

  abbrev pub next_previous : Option (Row c) → Option String → Option String
  next_previous none h = h
  next_previous (some last) h = some last.receipt_hash

  -- After verified rows the loop's variables are those of the last row, and every identity of a row
  -- has been seen.
  pub progress_of_rows :
      (refs : List String) (p : Progress c) (rows : List (Row c)) (q : Progress c)
      → verify_rows c refs p rows ≡ ok q
      → (q.count ≡ next_count (tail_of c rows) p.count)
        × (q.previous ≡ next_previous (tail_of c rows) p.previous)
        × ((x : String)
            → contains q.seen x
              ≡ (any (λ (r : Row c). x == r.receipt_id) rows || contains p.seen x))
  unfolding verify_rows tail_of
  progress_of_rows refs p [] q h = let e : p ≡ q = cc in (rw e, rw e, λ x. rw e)
  progress_of_rows refs p (r ∷ rows) q h =
      let (t, first, rest) = verified_row refs p r rows q h in
      let e = progress_of_row refs p r t (check_row-IsChecked refs p r t first) in
      let (count, previous, seen) = progress_of_rows refs t rows q rest in
      (ground arith, ground arith, λ x. ground (arith, seen x))

-- ===== src/Ledger/Seal.antt =====
-- What the head of a verified ledger fixes: an external seal of count and head.
use strongwiz.Base.{
  ℕ, ◌+◌, String, Option, List, [], ◌∷◌, ◌≡◌, refl, arith, ap, ◌∙◌, length, string_eq, option_eq,
  nat_eq, sym,
}
use mathlib.Core.List.{Memᴰ}
use strongwiz.Base.Result.{ok, >>=-eq-ok}
use strongwiz.Ledger.Codec.{Codec, ReceiptEnvelope, envelope_hash}
use strongwiz.Ledger.Store.{Row, Ledger, read_envelope, validate_envelope, bytes_eq, row_of}
use strongwiz.Ledger.Verify.{
  Progress, start, check_row, check_envelope, same_projection, verify_rows, verify, verify_tables,
}
use strongwiz.Ledger.Preserve.{verified_parts}
use strongwiz.Ledger.Rows.{IsChecked, check_row-IsChecked, verified_row}

module _ (c : Codec) where
  open c use {dump_envelope}

  -- an envelope but for its hash
  abbrev pub content : ReceiptEnvelope → ReceiptEnvelope
  content e = record e { receipt_hash = "" }

  -- no envelope of one table has the hash of an envelope of the other table with another content
  pub record IsCollisionFree (rows rows' : List (Row c)) : Type 0 where
    pub same_content :
        (r r' : Row c) (e e' : ReceiptEnvelope)
        → Memᴰ r rows
        → Memᴰ r' rows'
        → read_envelope c r.envelope_json ≡ ok e
        → read_envelope c r'.envelope_json ≡ ok e'
        → envelope_hash c e ≡ envelope_hash c e'
        → content e ≡ content e'

  rests :
      (r r' : Row c) (rs rs' : List (Row c))
      → IsCollisionFree (r ∷ rs) (r' ∷ rs')
      → IsCollisionFree rs rs'
  rests r r' rs rs' h = record {
    same_content = λ x x' e e' m m'. h.same_content x x' e e' (Memᴰ.tail m) (Memᴰ.tail m');
  }

  -- a verified row holds what its envelope says, and its hash is that of the content
  row_of_checked :
      (refs : List String) (p : Progress c) (r : Row c) (q : Progress c)
      → (k : IsChecked c refs p r q) → r ≡ row_of c k.envelope
  unfolding same_projection
  row_of_checked refs p r q k = ground (arith, k)

  hash_of_checked :
      (refs : List String) (p : Progress c) (r : Row c) (q : Progress c)
      → (k : IsChecked c refs p r q) → k.envelope.receipt_hash ≡ envelope_hash c k.envelope
  unfolding read_envelope validate_envelope
  hash_of_checked refs p r q k = ground (arith, k)

  previous_of_checked :
      (refs : List String) (p : Progress c) (r : Row c) (q : Progress c)
      → (k : IsChecked c refs p r q) → p.previous ≡ k.envelope.previous_receipt_hash
  unfolding check_envelope
  previous_of_checked refs p r q k = ground (arith, k)

  first_rows :
      (refs refs' : List String) (p p' : Progress c) (r r' : Row c) (q q' : Progress c)
      → check_row c refs p r ≡ ok q
      → check_row c refs' p' r' ≡ ok q'
      → ((e e' : ReceiptEnvelope)
          → read_envelope c r.envelope_json ≡ ok e
          → read_envelope c r'.envelope_json ≡ ok e'
          → envelope_hash c e ≡ envelope_hash c e'
          → content e ≡ content e')
      → q.previous ≡ q'.previous
      → (r ≡ r') × (p.previous ≡ p'.previous)
  first_rows refs refs' p p' r r' q q' h h' free same =
      let k = check_row-IsChecked c refs p r q h in
      let k' = check_row-IsChecked c refs' p' r' q' h' in
      let hash = hash_of_checked refs p r q k in
      let hash' = hash_of_checked refs' p' r' q' k' in
      let hashes : k.envelope.receipt_hash ≡ k'.envelope.receipt_hash = ground (arith, k, k') in
      let contents = free k.envelope k'.envelope k.is_read k'.is_read (sym hash ∙ hashes ∙ hash') in
      let envelopes : k.envelope ≡ k'.envelope = ground (arith, contents, hashes) in
      (
        row_of_checked refs p r q k
            ∙ ap (row_of c) envelopes
            ∙ sym (row_of_checked refs' p' r' q' k'),
        previous_of_checked refs p r q k
            ∙ ap (λ (e : ReceiptEnvelope). e.previous_receipt_hash) envelopes
            ∙ sym (previous_of_checked refs' p' r' q' k'),
      )

  count_of_row :
      (refs : List String) (p : Progress c) (r : Row c) (q : Progress c)
      → check_row c refs p r ≡ ok q
      → q.count ≡ p.count + 1
  count_of_row refs p r q h =
      ap (λ (x : Progress c). x.count) (check_row-IsChecked c refs p r q h).progress

  no_rows : (refs : List String) (p z : Progress c) → verify_rows c refs p [] ≡ ok z → p ≡ z
  unfolding verify_rows
  no_rows refs p z h = cc

  count_of_rows :
      (refs : List String) (p : Progress c) (rows : List (Row c)) (q : Progress c)
      → verify_rows c refs p rows ≡ ok q
      → q.count ≡ p.count + length rows
  unfolding verify_rows
  count_of_rows refs p [] q h = ground arith
  count_of_rows refs p (r ∷ rows) q h =
      let (t, first, rest) = verified_row c refs p r rows q h in
      ground (arith, count_of_rows refs t rows q rest, count_of_row refs p r t first)

  same_rows :
      (refs refs' : List String) (p p' : Progress c) (rows rows' : List (Row c)) (z z' : Progress c)
      → verify_rows c refs p rows ≡ ok z
      → verify_rows c refs' p' rows' ≡ ok z'
      → IsCollisionFree rows rows'
      → p.count ≡ p'.count
      → z.count ≡ z'.count
      → z.previous ≡ z'.previous
      → (rows ≡ rows') × (p.previous ≡ p'.previous)
  same_rows refs refs' p p' [] [] z z' h h' free start_count count previous =
      (refl, ground (arith, no_rows refs p z h, no_rows refs' p' z' h'))
  same_rows refs refs' p p' [] (r' ∷ rows') z z' h h' free start_count count previous =
      absurd
        (ground (arith, count_of_rows refs p [] z h, count_of_rows refs' p' (r' ∷ rows') z' h'))
  same_rows refs refs' p p' (r ∷ rows) [] z z' h h' free start_count count previous =
      absurd (ground (arith, count_of_rows refs p (r ∷ rows) z h, count_of_rows refs' p' [] z' h'))
  same_rows refs refs' p p' (r ∷ rows) (r' ∷ rows') z z' h h' free start_count count previous =
      let (t, first, rest) = verified_row c refs p r rows z h in
      let (t', first', rest') = verified_row c refs' p' r' rows' z' h' in
      let (tails, heads) =
        same_rows refs refs' t t' rows rows' z z' rest rest' (rests r r' rows rows' free)
          (count_of_row refs p r t first
            ∙ ap (λ n. n + 1) start_count
            ∙ sym (count_of_row refs' p' r' t' first'))
          count previous in
      let (row, before) =
        first_rows refs refs' p p' r r' t t' first first'
          (λ e e'. free.same_content r r' e e' (Memᴰ.head refl) (Memᴰ.head refl)) heads in
      (cc, before)

  seal_of :
      (count : Option ℕ) (head : Option String) (l : Ledger c) (n : ℕ) (h : Option String)
      → verify c count head l ≡ ok (n, h)
      → (p : Progress c) × (verify_tables c l ≡ ok p) × (p.count ≡ n) × (p.previous ≡ h)
  unfolding verify
  seal_of count head l n h done =
      let (p, tables, more) = >>=-eq-ok (verify_tables c l) _ done in
      (p, tables, ground arith, ground arith)

  -- Two ledgers for which `verify` returns the same count and head hold the same receipts, row by
  -- row, if no two envelopes of them with different content have one hash.
  pub verify_seal :
      (count count' : Option ℕ) (head head' : Option String) (l l' : Ledger c) (n : ℕ)
      (h : Option String)
      → verify c count head l ≡ ok (n, h)
      → verify c count' head' l' ≡ ok (n, h)
      → IsCollisionFree l.receipts l'.receipts
      → l.receipts ≡ l'.receipts
  verify_seal count count' head head' l l' n h done done' free =
      let (p, tables, is_n, is_h) = seal_of count head l n h done in
      let (p', tables', is_n', is_h') = seal_of count' head' l' n h done' in
      let (refs, _, rows) = verified_parts c l p tables in
      let (refs', _, rows') = verified_parts c l' p' tables' in
      (same_rows refs refs' (start c) (start c) l.receipts l'.receipts p p' rows rows' free refl
        (is_n ∙ sym is_n') (is_h ∙ sym is_h')).0

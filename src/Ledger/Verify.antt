-- ===== src/Ledger/Verify.antt =====
-- `SQLiteLedger.verify`: the projection of the objects and of every receipt is recomputed.
use strongwiz.Base.{
  ℕ, ◌+◌, String, Bool, false, not, ◌&&◌, Option, none, some, List, [], ◌∷◌, ◌==◌, contains, all,
  Eq, string_eq, nat_eq, option_eq,
}
use mathlib.Core.Option
use strongwiz.Base.Result.{Result, ok, err, ◌>>=◌, ◌>>◌, raise_if}
use strongwiz.Ledger.Codec.{Codec, ReceiptEnvelope, content_hash, identity_hash}
use strongwiz.Ledger.Store.{
  LedgerError, Row, Ledger, bytes_eq, read_envelope, unreadable, identity_disagrees,
  envelope_not_canonical, count_disagrees, object_not_canonical, sequence_gap, projection_disagrees,
  head_disagrees, object_digest_mismatch, predecessor_mismatch, payload_missing, object_ref_missing,
  parent_forward,
}

module _ (c : Codec) where
  open c use {Bytes, dumps, loads, dump_envelope}

  -- the body of the loop over `objects`
  unfoldable pub check_object : String × Bytes → Result LedgerError (Unit {0})
  check_object (stored, raw) = elim (loads raw) [
    | none ↦ err unreadable
    | some payload ↦
        raise_if (not (◌==◌ ⦃e = bytes_eq c⦄ (dumps payload) raw)) object_not_canonical
        >> raise_if (not (content_hash c payload == stored)) object_digest_mismatch
  ]

  -- the keys of `objects`, each object checked
  unfoldable pub verify_objects : List (String × Bytes) → Result LedgerError (List String)
  verify_objects [] = ok []
  verify_objects (o ∷ rest) =
      let others = verify_objects rest in do check_object o; refs ← others; ok (o.0 ∷ refs)

  -- the variables of the loop over `receipts`; `count` is also the expected sequence number
  pub record Progress : Type 0 where
    pub count : ℕ
    pub previous : Option String
    pub seen : List String

  -- `table_projection != envelope_projection`
  unfoldable pub same_projection : Row c → ReceiptEnvelope → Bool
  same_projection r e =
      r.sequence == e.sequence
      && r.receipt_id == e.receipt_id
      && r.occurrence_id == e.occurrence_id
      && r.kind == e.kind
      && r.account_id == e.account_id
      && r.account_version == e.account_version
      && r.payload_hash == e.payload_hash
      && r.receipt_hash == e.receipt_hash

  -- the checks of one envelope against the loop's variables
  unfoldable pub check_envelope :
      List String → Progress → ReceiptEnvelope → Result LedgerError (Unit {0})
  check_envelope refs p e = do
    raise_if
        (not (
          e.receipt_id
          == identity_hash c e.account_id e.account_version e.kind e.object_refs e.occurrence_id
              e.parent_refs e.payload_hash))
        identity_disagrees
    raise_if (not (e.sequence == p.count)) sequence_gap
    raise_if (not (e.previous_receipt_hash == p.previous)) predecessor_mismatch
    raise_if (not (contains refs e.payload_hash)) payload_missing
    raise_if (not (all (contains refs) e.object_refs)) object_ref_missing
    raise_if (not (all (contains p.seen) e.parent_refs)) parent_forward

  abbrev pub advance : Progress → ReceiptEnvelope → Progress
  advance p e = record {
    count = p.count + 1;
    previous = some e.receipt_hash;
    seen = e.receipt_id ∷ p.seen;
  }

  -- the body of the loop over `receipts`
  unfoldable pub check_row : List String → Progress → Row c → Result LedgerError Progress
  check_row refs p r = do
    e ← read_envelope c r.envelope_json
    raise_if (not (◌==◌ ⦃e = bytes_eq c⦄ (dump_envelope e) r.envelope_json)) envelope_not_canonical
    raise_if (not (same_projection r e)) projection_disagrees
    check_envelope refs p e
    ok (advance p e)

  unfoldable pub verify_rows : List String → Progress → List (Row c) → Result LedgerError Progress
  verify_rows refs p [] = ok p
  verify_rows refs p (r ∷ rs) = check_row refs p r >>= λ q. verify_rows refs q rs

  abbrev pub start : Progress
  start = record { count = 0; previous = none; seen = [] }

  -- the loops of `verify`, before the external seal is compared
  unfoldable pub verify_tables : Ledger c → Result LedgerError Progress
  verify_tables l = do refs ← verify_objects l.objects; verify_rows refs start l.receipts

  -- `expected is not None and actual != expected`
  unfoldable pub differs {ℓ} : {A : Type ℓ} ⦃e : Eq A⦄ → Option A → A → Bool
  differs none actual = false
  differs (some expected) actual = not (actual == expected)

  unfoldable pub verify :
      Option ℕ → Option String → Ledger c → Result LedgerError (ℕ × Option String)
  unfolding differs
  verify expected_count expected_head l = do
    p ← verify_tables l
    raise_if (differs expected_count p.count) count_disagrees
    raise_if (differs (Option.map some expected_head) p.previous) head_disagrees
    ok (p.count, p.previous)

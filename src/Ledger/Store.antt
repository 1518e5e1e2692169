-- ===== src/Ledger/Store.antt =====
-- `SQLiteLedger` of ledger.py: two tables, written in transactions.
use strongwiz.Base.{
  ℕ, ◌+◌, String, Bool, true, false, not, ◌||◌, Option, none, some, List, [], ◌∷◌, ◌++◌, ◌==◌,
  is_unique, all, any, has_text, is_nonempty, Eq, string_eq, nat_eq, option_eq, if◌then◌else◌,
}
use strongwiz.Base.Result
use strongwiz.Base.Result.{Result, ok, err}
use strongwiz.Base.Exec.{Exec, pure, gets, lift, or_raise, ◌>>=◌, ◌>>◌, raise_if, modify}
use strongwiz.Canonical.Json.{Json}
use strongwiz.Ledger.Codec.{Codec, ReceiptEnvelope, content_hash, identity_hash, envelope_hash}

-- The messages of `LedgerError`. `constraint_failed` is SQLite's refusal of a row.
pub data LedgerError : Type 0 where
  read_only missing_receipt_field duplicate_refs unknown_object unknown_parent : LedgerError
  rewritten_occurrence object_collision constraint_failed unknown_payload : LedgerError
  unsupported_schema hash_disagrees blank_occurrence unreadable : LedgerError
  object_not_canonical object_digest_mismatch envelope_not_canonical : LedgerError
  projection_disagrees identity_disagrees sequence_gap predecessor_mismatch : LedgerError
  payload_missing object_ref_missing parent_forward : LedgerError
  count_disagrees head_disagrees : LedgerError

-- The keyword arguments of `append`.
pub record Entry : Type 0 where
  pub occurrence_id : String
  pub kind : String
  pub account_id : String
  pub account_version : ℕ
  pub payload : Json
  pub object_refs : List String
  pub parent_refs : List String

module _ (c : Codec) where
  open c use {Bytes, bytes_discrete, dumps, loads, dump_envelope, load_envelope}

  instance abbrev pub bytes_eq : Eq Bytes
  bytes_eq = record { dec_eq = bytes_discrete }

  -- a row of the table `receipts`
  pub record Row : Type 0 where
    pub sequence : ℕ
    pub receipt_id : String
    pub occurrence_id : String
    pub kind : String
    pub account_id : String
    pub account_version : ℕ
    pub payload_hash : String
    pub envelope_json : Bytes
    pub receipt_hash : String

  -- `objects` maps a payload hash to bytes; `receipts` is in the order of `sequence`.
  pub record Ledger : Type 0 where
    pub objects : List (String × Bytes)
    pub receipts : List Row
    pub readonly : Bool

  abbrev pub Action : Type 0 → Type 0
  Action = Exec Ledger LedgerError

  -- `ReceiptEnvelope.validate_envelope`
  unfoldable pub validate_envelope : ReceiptEnvelope → Result LedgerError ReceiptEnvelope
  validate_envelope e =
      Result.◌>>◌ (Result.raise_if (not (e.schema_id == "strongwiz.receipt.v1")) unsupported_schema)
        (Result.◌>>◌ (Result.raise_if (not (e.receipt_hash == envelope_hash c e)) hash_disagrees) (
          Result.◌>>◌ (Result.raise_if (not (has_text e.occurrence_id)) blank_occurrence) (
            Result.◌>>◌
              (Result.raise_if (not (is_unique e.object_refs) || not (is_unique e.parent_refs))
                duplicate_refs)
              (ok e))))

  -- `ReceiptEnvelope.model_validate_json`
  unfoldable pub read_envelope : Bytes → Result LedgerError ReceiptEnvelope
  unfolding validate_envelope
  read_envelope raw = elim (load_envelope raw) [
    | none ↦ err unreadable
    | some e ↦ validate_envelope e
  ]

  -- `SELECT canonical_payload FROM objects WHERE payload_hash = ?`
  unfoldable pub find_object : String → List (String × Bytes) → Option Bytes
  find_object h [] = none
  find_object h ((k, b) ∷ rest) = if h == k then some b else find_object h rest

  -- `INSERT OR IGNORE INTO objects`
  unfoldable pub insert_or_ignore : String → Bytes → List (String × Bytes) → List (String × Bytes)
  insert_or_ignore h b objects = elim (find_object h objects) [
    | none ↦ objects ++ (h, b) ∷ []
    | some _ ↦ objects
  ]

  -- `BEGIN IMMEDIATE` … `commit`, with the rollback on any exception
  unfoldable pub transaction : {A : Type 0} → Action A → Action A
  transaction m l = let (r, l') = m l in elim r [ ok a ↦ (ok a, l') | err e ↦ (err e, l) ]

  -- the insertion of an object with the check of what is stored
  unfoldable pub store_object : String → Bytes → Action (Unit {0})
  unfolding find_object insert_or_ignore
  store_object h b = do
    modify (λ l. record l { objects = insert_or_ignore h b l.objects })
    stored ← gets (λ l. find_object h l.objects)
    raise_if (not (stored == some b)) object_collision

  unfoldable pub put_object : Json → Action String
  put_object payload = do
    raise_if (← gets (λ l. l.readonly)) read_only
    transaction
        (store_object (content_hash c payload) (dumps payload) >> pure (content_hash c payload))

  unfoldable pub has_object : String → List (String × Bytes) → Bool
  has_object h objects = elim (find_object h objects) [ none ↦ false | some _ ↦ true ]

  unfoldable pub get_payload : String → Action Json
  get_payload h = do
    raw ← gets (λ l. find_object h l.objects) >>= λ found. or_raise found unknown_payload
    or_raise (loads raw) unreadable

  -- `SELECT … ORDER BY sequence DESC LIMIT 1`
  unfoldable pub tail_of : List Row → Option Row
  tail_of [] = none
  tail_of (r ∷ rs) = elim (tail_of rs) [ none ↦ some r | some last ↦ some last ]

  -- `SELECT envelope_json FROM receipts WHERE occurrence_id = ?`
  unfoldable pub find_occurrence : String → List Row → Option Row
  find_occurrence o [] = none
  find_occurrence o (r ∷ rs) = if o == r.occurrence_id then some r else find_occurrence o rs

  -- `INSERT INTO receipts`, with the constraints of the table
  unfoldable pub insert_row : Row → Action (Unit {0})
  insert_row r = do
    raise_if
        (← gets (λ l.
          any
            (λ q.
              r.sequence == q.sequence
              || r.receipt_id == q.receipt_id
              || r.occurrence_id == q.occurrence_id
              || r.receipt_hash == q.receipt_hash)
            l.receipts
          || not (has_object r.payload_hash l.objects)))
        constraint_failed
    modify (λ l. record l { receipts = l.receipts ++ r ∷ [] })

  unfoldable pub receipt_identity : Entry → String
  receipt_identity a =
      identity_hash c a.account_id a.account_version a.kind a.object_refs a.occurrence_id
        a.parent_refs (content_hash c a.payload)

  -- the envelope of a new receipt behind the given tail
  unfoldable pub new_envelope : Entry → Option Row → ReceiptEnvelope
  unfolding receipt_identity
  new_envelope a tail =
      let base : ReceiptEnvelope = record {
        schema_id = "strongwiz.receipt.v1";
        receipt_id = receipt_identity a;
        occurrence_id = a.occurrence_id;
        kind = a.kind;
        account_id = a.account_id;
        account_version = a.account_version;
        sequence = elim tail [ none ↦ 0 | some last ↦ last.sequence + 1 ];
        payload_hash = content_hash c a.payload;
        object_refs = a.object_refs;
        parent_refs = a.parent_refs;
        previous_receipt_hash = elim tail [ none ↦ none | some last ↦ some last.receipt_hash ];
        receipt_hash = "";
      } in
      record base { receipt_hash = envelope_hash c base }

  abbrev pub row_of : ReceiptEnvelope → Row
  row_of e = record {
    sequence = e.sequence;
    receipt_id = e.receipt_id;
    occurrence_id = e.occurrence_id;
    kind = e.kind;
    account_id = e.account_id;
    account_version = e.account_version;
    payload_hash = e.payload_hash;
    envelope_json = dump_envelope e;
    receipt_hash = e.receipt_hash;
  }

  -- the branch of `append` where the occurrence has a receipt
  unfoldable pub return_existing : Entry → Row → Action ReceiptEnvelope
  return_existing a row = do
    e ← lift (read_envelope row.envelope_json)
    raise_if (not (e.receipt_id == receipt_identity a)) rewritten_occurrence
    pure e

  -- the branch of `append` for a new occurrence
  unfoldable pub append_new : Entry → Action ReceiptEnvelope
  append_new a = do
    tail ← gets (λ l. tail_of l.receipts)
    e ← lift (validate_envelope (new_envelope a tail))
    store_object (content_hash c a.payload) (dumps a.payload)
    insert_row (row_of e)
    pure e

  unfoldable pub append_found : Entry → Option Row → Action ReceiptEnvelope
  append_found a none = append_new a
  append_found a (some row) = return_existing a row

  unfoldable pub append_body : Entry → Action ReceiptEnvelope
  unfolding append_found
  append_body a = do
    raise_if (← gets (λ l. not (all (λ h. has_object h l.objects) a.object_refs))) unknown_object
    raise_if
        (← gets
          (λ l. not (all (λ ref. any (λ (r : Row). ref == r.receipt_id) l.receipts) a.parent_refs)))
        unknown_parent
    append_found a (← gets (λ l. find_occurrence a.occurrence_id l.receipts))

  unfoldable pub append : Entry → Action ReceiptEnvelope
  append a = do
    raise_if (← gets (λ l. l.readonly)) read_only
    raise_if
        (not (has_text a.occurrence_id)
          || not (is_nonempty a.kind)
          || not (is_nonempty a.account_id))
        missing_receipt_field
    raise_if (not (is_unique a.object_refs) || not (is_unique a.parent_refs)) duplicate_refs
    transaction (append_body a)

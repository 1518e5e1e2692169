-- ===== src/Ledger/Codec.antt =====
-- What ledger.py takes from outside: canonical JSON text, its parser, SHA-256, and pydantic's JSON
-- form of an envelope.
use strongwiz.Base.{ℕ, String, false, Option, none, some, List, [], ◌∷◌, ◌≡◌}
use strongwiz.Canonical.Json.{Json, Items, null, int, str, list, dict, nil, cons, end, field}

-- `ReceiptEnvelope`
pub record ReceiptEnvelope : Type 0 where
  pub schema_id : String
  pub receipt_id : String
  pub occurrence_id : String
  pub kind : String
  pub account_id : String
  pub account_version : ℕ
  pub sequence : ℕ
  pub payload_hash : String
  pub object_refs : List String
  pub parent_refs : List String
  pub previous_receipt_hash : Option String
  pub receipt_hash : String

-- `dumps` is `json.dumps` with sorted keys as UTF-8, `loads` is `parse_strict_json`, and
-- `dump_envelope` and `load_envelope` are the envelope's canonical bytes and pydantic's reader of
-- them, before the envelope's own validator runs.
pub record Codec : Type 1 where
  pub Bytes : Type 0
  pub bytes_discrete : Discrete Bytes
  pub dumps : Json → Bytes
  pub loads : Bytes → Option Json
  pub sha256 : Bytes → String
  pub dump_envelope : ReceiptEnvelope → Bytes
  pub load_envelope : Bytes → Option ReceiptEnvelope

-- The documented round trips: parsing canonical text and writing it again gives the same text, and
-- an envelope is read back as it was written.
pub record IsRoundTrip (c : Codec) : Type 0 where
  pub reparse : Json → Json
  pub loads_dumps : (j : Json) → c.loads (c.dumps j) ≡ some (reparse j)
  pub dumps_reparse : (j : Json) → c.dumps (reparse j) ≡ c.dumps j
  pub load_dump : (e : ReceiptEnvelope) → c.load_envelope (c.dump_envelope e) ≡ some e

-- a JSON array of texts
abbrev pub texts : List String → Items
texts [] = nil
texts (x ∷ xs) = cons (str x) (texts xs)

-- a JSON text or `null`
abbrev pub text_or_null : Option String → Json
text_or_null none = null
text_or_null (some x) = str x

abbrev pub natural : ℕ → Json
natural = int false

module _ (c : Codec) where
  -- `content_hash`
  unfoldable pub content_hash : Json → String
  content_hash j = c.sha256 (c.dumps j)

  -- the identity that `append` and `verify` recompute
  unfoldable pub identity_hash :
      String → ℕ → String → List String → String → List String → String → String
  unfolding content_hash
  identity_hash account version kind objects occurrence parents payload_hash = content_hash (
      dict (
        field "account_id" (str account) (
          field "account_version" (natural version) (
            field "kind" (str kind) (
              field "object_refs" (list (texts objects)) (
                field "occurrence_id" (str occurrence) (
                  field "parent_refs" (list (texts parents))
                    (field "payload_hash" (str payload_hash) end))))))))

  -- the hash of an envelope's content, over every field but the hash itself
  unfoldable pub envelope_hash : ReceiptEnvelope → String
  unfolding content_hash
  envelope_hash e = content_hash (
      dict (
        field "account_id" (str e.account_id) (
          field "account_version" (natural e.account_version) (
            field "kind" (str e.kind) (
              field "object_refs" (list (texts e.object_refs)) (
                field "occurrence_id" (str e.occurrence_id) (
                  field "parent_refs" (list (texts e.parent_refs)) (
                    field "payload_hash" (str e.payload_hash) (
                      field "previous_receipt_hash" (text_or_null e.previous_receipt_hash) (
                        field "receipt_id" (str e.receipt_id) (
                          field "schema" (str e.schema_id)
                            (field "sequence" (natural e.sequence) end))))))))))))

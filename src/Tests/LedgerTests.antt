-- ===== src/Tests/LedgerTests.antt =====
-- The ledger over a small codec whose bytes are a text, or a text with the envelope it stands for.
use strongwiz.Base.{
  String, false, none, some, [], ◌∷◌, ◌≡◌, refl, Option, String_discrete, ℕ_discrete,
  Option_discrete, ◌⊎◌, string_eq, has_text, is_nonempty, ◌∙◌, sym, ap,
}
use strongwiz.Base.Result.{ok}
use strongwiz.Canonical.Json.{
  Json, Items, Fields, null, bool, int, str, list, dict, nil, cons, end, field,
}
use strongwiz.Ledger.Codec.{
  Codec, IsRoundTrip, ReceiptEnvelope, content_hash, envelope_hash, identity_hash,
}
use strongwiz.Ledger.Store.{
  Entry, Ledger, append, new_envelope, row_of, transaction, append_body, append_found, append_new,
  validate_envelope, store_object, find_object, insert_or_ignore, insert_row, has_object,
  find_occurrence, tail_of, receipt_identity, put_object, get_payload, read_envelope,
}
use strongwiz.Ledger.Verify.{
  verify_tables, advance, start, verify_objects, verify_rows, verify, check_object, check_row,
  check_envelope, same_projection,
}
use strongwiz.Ledger.Seal.{IsCollisionFree, content, verify_seal}
use mathlib.Core.List.{Memᴰ}
use mathlib.Core.List.Memᴰ.{not-nil}
use strongwiz.Ledger.Preserve.{append_extends}
use strongwiz.Ledger.Replay.{
  put, record_entry, run, new_ledger, Verifies, run-Verifies, get_payload_of_put_object,
}

unfoldable join : String → String → String
join String.[] t = t
join (String.◌∷◌ c s) t = String.◌∷◌ c (join s t)

-- every text of a JSON value, one after the other
unfoldable mutual
  words : Json → String
  words null = "null"
  words (bool _) = "bool"
  words (int _ _) = "int"
  words (str s) = s
  words (list xs) = items_words xs
  words (dict fs) = fields_words fs

  items_words : Items → String
  items_words nil = ""
  items_words (cons j xs) = join (words j) (items_words xs)

  fields_words : Fields → String
  fields_words end = ""
  fields_words (field k j fs) = join k (join (words j) (fields_words fs))

record Bytes : Type 0 where
  text : String
  envelope : Option ReceiptEnvelope

unfoldable Bytes-discrete : Discrete Bytes
Bytes-discrete = hlevel (String_discrete, ℕ_discrete)

abbrev codec : Codec
codec = record {
  Bytes = Bytes;
  bytes_discrete = Bytes-discrete;
  dumps = λ j. record { text = words j; envelope = none };
  loads = λ b. some (str b.text);
  sha256 = λ b. b.text;
  dump_envelope = λ e. record { text = ""; envelope = some e };
  load_envelope = λ b. b.envelope;
}

codec-IsRoundTrip : IsRoundTrip codec
unfolding words
codec-IsRoundTrip = record {
  reparse = λ j. str (words j);
  loads_dumps = λ j. refl;
  dumps_reparse = λ j. refl;
  load_dump = λ e. refl;
}

abbrev entry : Entry
entry = record {
  occurrence_id = "o1";
  kind = "episode";
  account_id = "acct";
  account_version = 1;
  payload = str "hello";
  object_refs = [];
  parent_refs = [];
}

run-Verifies_example :
    Verifies codec
      (run codec (new_ledger codec) (put (str "x") ∷ record_entry entry ∷ record_entry entry ∷ []))
run-Verifies_example =
    run-Verifies codec codec-IsRoundTrip
      (put (str "x") ∷ record_entry entry ∷ record_entry entry ∷ [])

abbrev receipt : ReceiptEnvelope
receipt = new_envelope codec entry none

-- the tables with one object and one receipt
abbrev one_receipt : Ledger codec
one_receipt = record {
  objects = (content_hash codec entry.payload, codec.dumps entry.payload) ∷ [];
  receipts = row_of codec receipt ∷ [];
  readonly = false;
}

append_one : append codec entry (new_ledger codec) ≡ (ok receipt, one_receipt)
unfolding append has_text is_nonempty transaction append_body append_found append_new
    validate_envelope store_object find_object insert_or_ignore insert_row has_object
    find_occurrence tail_of new_envelope receipt_identity String_discrete content_hash envelope_hash
    identity_hash Bytes-discrete words join Option_discrete
append_one = refl

append_extends_example :
    (one_receipt ≡ new_ledger codec)
    ⊎ (verify_tables codec one_receipt ≡ ok (advance codec (start codec) receipt))
unfolding verify_tables verify_objects verify_rows
append_extends_example =
    append_extends codec codec-IsRoundTrip entry (new_ledger codec) one_receipt receipt
      (start codec) refl append_one

-- the tables with one object
abbrev one_object : Ledger codec
one_object = record { objects = ("x", codec.dumps (str "x")) ∷ []; receipts = []; readonly = false }

put_one : put_object codec (str "x") (new_ledger codec) ≡ (ok "x", one_object)
unfolding put_object transaction store_object find_object insert_or_ignore String_discrete
    content_hash Bytes-discrete words join Option_discrete
put_one = refl

get_payload_of_put_object_example :
    (k : Json) × (get_payload codec "x" one_object ≡ (ok k, one_object))
    × (codec.dumps k ≡ codec.dumps (str "x"))
get_payload_of_put_object_example =
    get_payload_of_put_object codec codec-IsRoundTrip (str "x") (new_ledger codec) one_object "x"
      put_one

-- the same receipt, with an object that no receipt names
abbrev with_object : Ledger codec
with_object = record one_receipt { objects = ("x", codec.dumps (str "x")) ∷ one_receipt.objects }

verify_one : verify codec none none one_receipt ≡ ok (1, some receipt.receipt_hash)
unfolding verify verify_tables verify_objects verify_rows check_object check_row check_envelope
    same_projection read_envelope validate_envelope new_envelope receipt_identity String_discrete
    content_hash envelope_hash identity_hash Bytes-discrete words join Option_discrete has_text
    ℕ_discrete
verify_one = refl

verify-with_object : verify codec none none with_object ≡ ok (1, some receipt.receipt_hash)
unfolding verify verify_tables verify_objects verify_rows check_object check_row check_envelope
    same_projection read_envelope validate_envelope new_envelope receipt_identity String_discrete
    content_hash envelope_hash identity_hash Bytes-discrete words join Option_discrete has_text
    ℕ_discrete
verify-with_object = refl

the_only : {A : Type 0} {x y : A} → Memᴰ x (y ∷ []) → x ≡ y
the_only (Memᴰ.head e) = e
the_only (Memᴰ.tail m) = absurd (not-nil m)

one_receipt-IsCollisionFree : IsCollisionFree codec one_receipt.receipts with_object.receipts
one_receipt-IsCollisionFree = record {
  same_content = λ r r' e e' m m' read read' _.
      let same : r ≡ r' = the_only m ∙ sym (the_only m') in
      let envelopes : e ≡ e' = cc in ap (content codec) envelopes;
}

verify_seal_example : one_receipt.receipts ≡ with_object.receipts
verify_seal_example =
    verify_seal codec none none none none one_receipt with_object 1 (some receipt.receipt_hash)
      verify_one verify-with_object one_receipt-IsCollisionFree

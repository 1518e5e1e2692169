-- ===== src/Transport/Frame.antt =====
-- The frames of transport.py in memory.
use strongwiz.Base.{
  ℕ, ◌+◌, ◌<◌, ◌≡◌, String, not, Option, none, some, [], ◌∷◌, ◌++◌, ◌==◌, ltb, length, take, drop,
  nat_eq, list_eq, if◌then◌else◌,
}
use strongwiz.Base.Result.{Result, ok, err, ◌>>=◌, ◌>>◌, raise_if}
use strongwiz.Canonical.Json.{Json}
use strongwiz.Transport.Bytes.{Bytes, pack_number, unpack_number, hex, weight}

-- The exceptions of the module. `end_of_stream` is a clean end before a frame, `wide_payload` the
-- `struct.error` of a length of more than eight bytes, and the last four are `ValueError`s.
pub data TransportError : Type 0 where
  unencodable end_of_stream truncated timed_out too_large : TransportError
  bad_checksum trailing_data : TransportError
  bad_magic bad_version empty_payload bad_utf8 not_json not_canonical : TransportError
  no_object no_identity : TransportError
  not_bytes oversized_chunk not_a_count no_progress oversized_count : TransportError
  duplicate_frame identity_reuse payload_replay : TransportError
  wide_payload bad_limit bad_timeout bad_identity bad_digest bad_field : TransportError

-- What the module takes from canonical.py, json and hashlib: canonical bytes, which a lone surrogate
-- has not, strict UTF-8, `parse_strict_json` and SHA-256.
pub record Wire : Type 0 where
  pub canonical_bytes : Json → Option Bytes
  pub decode_utf8 : Bytes → Option String
  pub parse : String → Option Json
  pub sha256 : Bytes → Bytes

-- Their documented behaviour: a digest has 32 bytes, canonical text is not empty and its bytes are
-- bytes, and reading it gives a value with the same canonical bytes.
pub record IsWire (w : Wire) : Type 0 where
  pub digest_size : (b : Bytes) → length (w.sha256 b) ≡ 32
  pub payload_size : (v : Json) (b : Bytes) → w.canonical_bytes v ≡ some b → 0 < length b
  pub reads :
      (v : Json) (b : Bytes)
      → w.canonical_bytes v ≡ some b
      → (t : String) × (u : Json) × (w.decode_utf8 b ≡ some t)
        × (w.parse t ≡ some u)
        × (w.canonical_bytes u ≡ some b)

pub record FrameReceipt : Type 0 where
  pub payload_size : ℕ
  pub payload_sha256 : String
  pub frame_size : ℕ

pub record DecodedFrame : Type 0 where
  pub value : Json
  pub receipt : FrameReceipt

-- `FRAME_MAGIC`, `FRAME_VERSION` and `HEADER_SIZE`
abbrev pub frame_magic : Bytes
frame_magic = 83 ∷ 87 ∷ 90 ∷ 74 ∷ []

abbrev pub frame_version : ℕ
frame_version = 1

abbrev pub header_size : ℕ
header_size = 45

unfoldable pub validate_limit : ℕ → Result TransportError (Unit {0})
validate_limit max_payload_bytes = raise_if (max_payload_bytes == 0) bad_limit

-- `_HEADER.pack`
unfoldable pub pack_header : ℕ → Bytes → Result TransportError Bytes
pack_header payload_size digest =
    if ltb payload_size (weight 8)
    then ok (frame_magic ++ frame_version ∷ (pack_number 8 payload_size ++ digest))
    else err wide_payload

abbrev pub receipt_of : ℕ → Bytes → FrameReceipt
receipt_of payload_size digest = record {
  payload_size = payload_size;
  payload_sha256 = hex digest;
  frame_size = header_size + payload_size;
}

-- `_HEADER.unpack` and the tests of its fields
unfoldable pub parse_header : Bytes → ℕ → Result TransportError (ℕ × Bytes)
parse_header header max_payload_bytes = do
  validate_limit max_payload_bytes
  raise_if (not (length header == header_size)) truncated
  raise_if (not (take 4 header == frame_magic)) bad_magic
  raise_if (not (unpack_number (take 1 (drop 4 header)) == frame_version)) bad_version
  raise_if (unpack_number (take 8 (drop 5 header)) == 0) empty_payload
  raise_if (ltb max_payload_bytes (unpack_number (take 8 (drop 5 header)))) too_large
  ok (unpack_number (take 8 (drop 5 header)), drop 13 header)

module _ (w : Wire) where
  open w use {canonical_bytes, decode_utf8, parse, sha256}

  unfoldable pub encode_payload : Json → ℕ → Result TransportError (Bytes × FrameReceipt)
  encode_payload value max_payload_bytes =
      validate_limit max_payload_bytes >> elim (canonical_bytes value) [
        | none ↦ err unencodable
        | some payload ↦
            if ltb max_payload_bytes (length payload)
            then err too_large
            else (pack_header (length payload) (sha256 payload) >>= λ header.
                ok (header ++ payload, receipt_of (length payload) (sha256 payload)))
      ]

  unfoldable pub encode_frame : Json → ℕ → Result TransportError Bytes
  encode_frame value max_payload_bytes =
      encode_payload value max_payload_bytes >>= λ (frame, _). ok frame

  unfoldable pub frame_receipt : Json → ℕ → Result TransportError FrameReceipt
  frame_receipt value max_payload_bytes =
      encode_payload value max_payload_bytes >>= λ (_, receipt). ok receipt

  -- the canonical bytes of a payload's value, read again
  unfoldable pub check_canonical : Bytes → Json → Result TransportError Json
  check_canonical payload value = elim (canonical_bytes value) [
    | none ↦ err not_json
    | some canonical ↦ raise_if (not (canonical == payload)) not_canonical >> ok value
  ]

  unfoldable pub decode_payload : Bytes → Bytes → Result TransportError Json
  decode_payload payload expected_digest =
      raise_if (not (sha256 payload == expected_digest)) bad_checksum
      >> elim (decode_utf8 payload) [
        | none ↦ err bad_utf8
        | some text ↦ elim (parse text) [
          | none ↦ err not_json
          | some value ↦ check_canonical payload value
        ]
      ]

  -- the tests of a frame's size behind its header
  unfoldable pub decode_body : Bytes → ℕ × Bytes → Result TransportError DecodedFrame
  decode_body raw (payload_size, expected_digest) = do
    raise_if (ltb (length raw) (header_size + payload_size)) truncated
    raise_if (ltb (header_size + payload_size) (length raw)) trailing_data
    value ← decode_payload (drop header_size raw) expected_digest
    ok (record { value = value; receipt = receipt_of payload_size expected_digest })

  unfoldable pub decode_frame_record : Bytes → ℕ → Result TransportError DecodedFrame
  decode_frame_record raw max_payload_bytes = do
    raise_if (length raw == 0) end_of_stream
    raise_if (ltb (length raw) header_size) truncated
    fields ← parse_header (take header_size raw) max_payload_bytes
    decode_body raw fields

  unfoldable pub decode_frame : Bytes → ℕ → Result TransportError Json
  decode_frame raw max_payload_bytes =
      decode_frame_record raw max_payload_bytes >>= λ frame. ok frame.value

-- ===== src/Transport/RoundTrip.antt =====
-- Encoding a value in a frame and decoding the frame are inverse to each other.
use strongwiz.Base.{
  ℕ, ◌+◌, ◌<◌, ◌≤◌, ◌≡◌, sym, ap, ◌∙◌, arith, true, ◌++◌, length, length-append, take, drop,
  take-++-drop, take-append, drop-append, some, String, Option-cases, inl, inr, length-drop,
}
use strongwiz.Base.Result.{ok, Result-cases}
use strongwiz.Canonical.Json.{Json}
use strongwiz.Transport.Bytes.{Bytes, are_bytes, are_bytes-take, weight}
use strongwiz.Transport.Frame.{
  Wire, IsWire, FrameReceipt, DecodedFrame, receipt_of, validate_limit, pack_header, parse_header,
  encode_payload, check_canonical, decode_payload, decode_body, decode_frame_record,
}
use strongwiz.Transport.Header.{
  header_of, length-header_of, parse_header-header_of, parse_header_inv, header_of-parse_header,
}

module _ (w : Wire) where
  open w use {canonical_bytes, decode_utf8, parse, sha256}

  -- what a frame holds
  abbrev pub frame_of : Bytes → Bytes
  frame_of payload = header_of (length payload) (sha256 payload) ++ payload

  pub encode_payload_ok :
      (value : Json) (limit : ℕ) (payload : Bytes)
      → canonical_bytes value ≡ some payload
      → 0 < limit
      → length payload ≤ limit
      → length payload < weight 8
      → encode_payload w value limit
        ≡ ok (frame_of payload, receipt_of (length payload) (sha256 payload))
  unfolding encode_payload validate_limit pack_header
  encode_payload_ok value limit payload canonical positive fits small =
      rw (encode_payload, canonical) ground (arith)

  pub encode_payload_inv :
      (value : Json) (limit : ℕ) (frame : Bytes) (receipt : FrameReceipt)
      → encode_payload w value limit ≡ ok (frame, receipt)
      → (payload : Bytes) × (canonical_bytes value ≡ some payload)
        × (0 < limit)
        × (length payload ≤ limit)
        × (length payload < weight 8)
        × (frame ≡ frame_of payload)
        × (receipt ≡ receipt_of (length payload) (sha256 payload))
  unfolding encode_payload validate_limit pack_header
  encode_payload_inv value limit frame receipt h = elim (Option-cases (canonical_bytes value)) [
    | inr (payload, e) ↦ (
      payload,
      e,
      ground (arith, h, e),
      ground (arith, h, e),
      ground (arith, h, e),
      ground (arith, h, e),
      ground (arith, h, e),
    )
    | inl e ↦ absurd (ground (arith, h, e))
  ]

  pub decode_payload_ok :
      (payload : Bytes) (text : String) (value : Json)
      → decode_utf8 payload ≡ some text
      → parse text ≡ some value
      → canonical_bytes value ≡ some payload
      → decode_payload w payload (sha256 payload) ≡ ok value
  unfolding decode_payload check_canonical
  decode_payload_ok payload text value reads parses canonical =
      rw (decode_payload, reads, parses, check_canonical, canonical) ground (arith)

  pub decode_payload_inv :
      (payload digest : Bytes) (value : Json)
      → decode_payload w payload digest ≡ ok value
      → (sha256 payload ≡ digest) × (canonical_bytes value ≡ some payload)
  unfolding decode_payload check_canonical
  decode_payload_inv payload digest value h = elim (Option-cases (decode_utf8 payload)) [
    | inl e ↦ absurd (ground (arith, h, e))
    | inr (text, e) ↦ elim (Option-cases (parse text)) [
      | inl f ↦ absurd (ground (arith, h, e, f))
      | inr (u, f) ↦ elim (Option-cases (canonical_bytes u)) [
        | inl g ↦ absurd (ground (arith, h, e, f, g))
        | inr (canonical, g) ↦ ground (arith, h, e, f, g)
      ]
    ]
  ]

  pub decode_frame_record_ok :
      (raw : Bytes) (limit n : ℕ) (digest : Bytes) (value : Json)
      → parse_header (take 45 raw) limit ≡ ok (n, digest)
      → length raw ≡ 45 + n
      → decode_payload w (drop 45 raw) digest ≡ ok value
      → decode_frame_record w raw limit
        ≡ ok (record { value = value; receipt = receipt_of n digest })
  unfolding decode_frame_record decode_body
  decode_frame_record_ok raw limit n digest value header size body =
      rw (decode_frame_record, header, decode_body, body) ground (arith, size)

  pub decode_frame_record_inv :
      (raw : Bytes) (limit : ℕ) (frame : DecodedFrame)
      → decode_frame_record w raw limit ≡ ok frame
      → (n : ℕ) × (digest : Bytes) × (parse_header (take 45 raw) limit ≡ ok (n, digest))
        × (length raw ≡ 45 + n)
        × (decode_payload w (drop 45 raw) digest ≡ ok frame.value)
        × (frame.receipt ≡ receipt_of n digest)
  unfolding decode_frame_record decode_body
  decode_frame_record_inv raw limit frame h =
      elim (Result-cases (parse_header (take 45 raw) limit)) [
        | inr (x, e) ↦ absurd (ground (arith, h, e))
        | inl ((n, digest), e) ↦ elim (Result-cases (decode_payload w (drop 45 raw) digest)) [
          | inr (x, f) ↦ absurd (ground (arith, h, e, f))
          | inl (value, f) ↦ (
            n,
            digest,
            e,
            ground (arith, h, e, f),
            ground (arith, h, e, f),
            ground (arith, h, e, f),
          )
        ]
      ]

  frame_of_decodes :
      (payload : Bytes) (limit : ℕ) (value : Json)
      → length (sha256 payload) ≡ 32
      → 0 < length payload
      → length payload ≤ limit
      → length payload < weight 8
      → decode_payload w payload (sha256 payload) ≡ ok value
      → decode_frame_record w (frame_of payload) limit
        ≡ ok (record { value = value; receipt = receipt_of (length payload) (sha256 payload) })
  frame_of_decodes payload limit value digest positive fits small body =
      let header = header_of (length payload) (sha256 payload) in
      let size = length-header_of (length payload) (sha256 payload) digest in
      let front = take-append 45 header payload size in
      let back = drop-append 45 header payload size in
      decode_frame_record_ok (frame_of payload) limit (length payload) (sha256 payload) value
        (ap (λ h. parse_header h limit) front
          ∙ parse_header-header_of (length payload) limit (sha256 payload) digest positive fits
              small)
        (omega (arith, length-append header payload))
        (ap (λ p. decode_payload w p (sha256 payload)) back ∙ body)

  -- Where digests have 32 bytes and the parser reads canonical text back: a frame that
  -- `_encode_payload` made under a limit is decoded under that limit, with the same receipt, to a
  -- value that has the same canonical bytes.
  pub decode_frame_record-encode_payload :
      IsWire w
      → (value : Json) (limit : ℕ) (frame : Bytes) (receipt : FrameReceipt)
      → encode_payload w value limit ≡ ok (frame, receipt)
      → (read : Json) × (decode_frame_record w frame limit
          ≡ ok (record { value = read; receipt = receipt }))
        × (canonical_bytes read ≡ canonical_bytes value)
  decode_frame_record-encode_payload law value limit frame receipt h =
      let (payload, canonical, positive, fits, small, is_frame, is_receipt) =
        encode_payload_inv value limit frame receipt h in
      let (text, read, reads, parses, same) = law.reads value payload canonical in
      let decoded =
        frame_of_decodes payload limit read (law.digest_size payload)
          (law.payload_size value payload canonical) fits small
          (decode_payload_ok payload text read reads parses same) in
      (
        read,
        ap (λ f. decode_frame_record w f limit) is_frame
            ∙ decoded
            ∙ ap (λ r. ok (record { value = read; receipt = r })) (sym is_receipt),
        same ∙ sym canonical,
      )

  -- Fewer than 2 ^ 64 bytes that `decode_frame_record` accepts are the frame that `_encode_payload`
  -- makes of the value, with the receipt that was returned: a value has one frame.
  pub encode_payload-decode_frame_record :
      (raw : Bytes) (limit : ℕ) (frame : DecodedFrame)
      → are_bytes raw ≡ true
      → length raw < weight 8
      → decode_frame_record w raw limit ≡ ok frame
      → encode_payload w frame.value limit ≡ ok (raw, frame.receipt)
  encode_payload-decode_frame_record raw limit frame bytes small h =
      let (n, digest, parsed, size, body, receipt) = decode_frame_record_inv raw limit frame h in
      let (checksum, canonical) = decode_payload_inv (drop 45 raw) digest frame.value body in
      let (_, _, _, positive, fits, _, _) = parse_header_inv (take 45 raw) limit n digest parsed in
      let header =
        header_of-parse_header (take 45 raw) limit n digest (are_bytes-take 45 raw bytes) parsed in
      let rest : length (drop 45 raw) ≡ n = omega (arith, length-drop 45 raw (omega arith)) in
      let whole : header_of n digest ++ drop 45 raw ≡ raw =
        ap (λ t. t ++ drop 45 raw) (sym header) ∙ take-++-drop 45 raw in
      let encoded =
        encode_payload_ok frame.value limit (drop 45 raw) canonical (omega (arith, positive, fits))
          (omega (arith, rest, fits)) (omega arith) in
      let same_frame : frame_of (drop 45 raw) ≡ raw = rw (rest, checksum) whole in
      let same_receipt : receipt_of (length (drop 45 raw)) (sha256 (drop 45 raw)) ≡ frame.receipt =
        rw (rest, checksum) (sym receipt) in
      cc

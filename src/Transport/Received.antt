-- ===== src/Transport/Received.antt =====
-- A frame that was read from a stream is the frame of the bytes that the stream gave.
use mathlib.Core.List.{append_assoc}
use strongwiz.Canonical.Json.{Json}
use strongwiz.Base.{
  ℕ, ◌≡◌, sym, ap, ◌∙◌, arith, Option, false, true, ◌++◌, length, length-append, take-append,
  drop-append, true, false,
}
use strongwiz.Base.Result.{ok}
use strongwiz.Base.Exec.{◌>>=◌, ◌>>◌, >>=-eq-ok, >>=-lift, pure, lift}
use strongwiz.Transport.Bytes.{Bytes}
use strongwiz.Transport.Frame.{
  Wire, DecodedFrame, receipt_of, header_size, parse_header, decode_payload, decode_frame_record,
}
use strongwiz.Transport.RoundTrip.{decode_frame_record_ok}
use strongwiz.Transport.Device.{
  Device, ensure_time, deadline_of, read_exact, read_frame_record_until, read_frame_record,
  read_body, decode_read,
}
use strongwiz.Transport.Reading.{IsReader, read_exact_lem}
use strongwiz.Transport.Clock.{ensure_time_lem, deadline_of_lem}

module _ {S : Type 0} (d : Device S) (pending : S → Bytes) (law : IsReader d pending)
    (w : Wire) where
  -- the stream gave a frame and stands behind it
  abbrev pub Gives : ℕ → DecodedFrame → S → S → Type 0
  Gives limit frame s t =
      (raw : Bytes) × (pending s ≡ raw ++ pending t) × (decode_frame_record w raw limit ≡ ok frame)

  joined :
      (header payload : Bytes) (limit n : ℕ) (digest : Bytes) (value : Json)
      → length header ≡ 45
      → parse_header header limit ≡ ok (n, digest)
      → length payload ≡ n
      → decode_payload w payload digest ≡ ok value
      → decode_frame_record w (header ++ payload) limit
        ≡ ok (record { value = value; receipt = receipt_of n digest })
  joined header payload limit n digest value size parsed length_of body =
      decode_frame_record_ok w (header ++ payload) limit n digest value
        (ap (λ h. parse_header h limit) (take-append 45 header payload size) ∙ parsed)
        (omega (arith, length-append header payload))
        (ap (λ p. decode_payload w p digest) (drop-append 45 header payload size) ∙ body)

  decode_read_lem :
      (deadline : Option ℕ) (n : ℕ) (digest payload : Bytes) (frame : DecodedFrame) (s t : S)
      → decode_read d w deadline n digest payload s ≡ (ok frame, t)
      → (decode_payload w payload digest ≡ ok frame.value)
        × (frame.receipt ≡ receipt_of n digest)
        × (pending t ≡ pending s)
  unfolding decode_read
  decode_read_lem deadline n digest payload frame s t h =
      let (value, decoded, h1) =
        >>=-lift (decode_payload w payload digest)
          (λ value.
            ensure_time d deadline
            >> pure (record { value = value; receipt = receipt_of n digest }))
          h in
      let (_, u, timed, done) =
        >>=-eq-ok (ensure_time d deadline)
          (λ _. pure (record { value = value; receipt = receipt_of n digest })) h1 in
      let same = ensure_time_lem d pending law.ticking deadline s u (ok tt) timed in
      (ground (arith, decoded, done), ground (arith, done), ground (arith, done, same))

  read_body_lem :
      (deadline : Option ℕ) (n : ℕ) (digest : Bytes) (frame : DecodedFrame) (s t : S)
      → read_body d w deadline (n, digest) s ≡ (ok frame, t)
      → (payload : Bytes) × (pending s ≡ payload ++ pending t)
        × (length payload ≡ n)
        × (decode_payload w payload digest ≡ ok frame.value)
        × (frame.receipt ≡ receipt_of n digest)
  unfolding read_body
  read_body_lem deadline n digest frame s t h =
      let (payload, u, got, rest) =
        >>=-eq-ok (read_exact d n deadline false) (decode_read d w deadline n digest) h in
      let (held, size) = read_exact_lem d pending law deadline false n payload s u got in
      let (decoded, receipt, same) = decode_read_lem deadline n digest payload frame u t rest in
      (payload, held ∙ ap (λ x. payload ++ x) (sym same), size, decoded, receipt)

  pub read_frame_record_until_lem :
      (limit : ℕ) (deadline : Option ℕ) (frame : DecodedFrame) (s t : S)
      → read_frame_record_until d w limit deadline s ≡ (ok frame, t)
      → Gives limit frame s t
  unfolding read_frame_record_until
  read_frame_record_until_lem limit deadline frame s t h =
      let (header, u, got, h1) =
        >>=-eq-ok (read_exact d header_size deadline true)
          (λ header. lift (parse_header header limit) >>= read_body d w deadline) h in
      let ((n, digest), parsed, h2) =
        >>=-lift (parse_header header limit) (read_body d w deadline) h1 in
      let (held, size) = read_exact_lem d pending law deadline true header_size header s u got in
      let (payload, kept, fits, decoded, receipt) = read_body_lem deadline n digest frame u t h2 in
      (
        header ++ payload,
        held ∙ ap (λ x. header ++ x) kept ∙ sym (append_assoc header payload (pending t)),
        joined header payload limit n digest frame.value size parsed fits decoded
            ∙ ap (λ r. ok (record { value = frame.value; receipt = r })) (sym receipt),
      )

  -- From a stream whose answers are the front of what it holds: when `read_frame_record` returns, the
  -- stream gave up exactly the bytes of one frame, which `decode_frame_record` decodes to what was
  -- returned, however the stream cut its bytes, and whatever the timeout.
  pub read_frame_record-decode_frame_record :
      (limit : ℕ) (timeout : Option ℕ) (frame : DecodedFrame) (s t : S)
      → read_frame_record d w limit timeout s ≡ (ok frame, t)
      → Gives limit frame s t
  unfolding read_frame_record
  read_frame_record-decode_frame_record limit timeout frame s t h =
      let (deadline, u, started, rest) =
        >>=-eq-ok (deadline_of d timeout) (read_frame_record_until d w limit) h in
      let (raw, held, decoded) = read_frame_record_until_lem limit deadline frame u t rest in
      (
        raw,
        sym (deadline_of_lem d pending law.ticking timeout deadline s u started) ∙ held,
        decoded,
      )

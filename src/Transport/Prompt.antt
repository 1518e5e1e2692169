-- ===== src/Transport/Prompt.antt =====
-- Reading without a timeout from a stream that has bytes for every call until its end.
use mathlib.Core.List.{append-nil, append_assoc}
use strongwiz.Canonical.Json.{Json}
use strongwiz.Base.{
  ℕ, zero, suc, ◌+◌, ◌-◌, ◌≤◌, ◌<◌, ◌≡◌, ◌⊎◌, inl, inr, refl, sym, ap, ◌∙◌, arith, Bool, true,
  false, none, [], ◌∷◌, ◌++◌, ltb, length, length-append, take, drop, take-++-drop, length-take,
  length-drop,
}
use strongwiz.Base.Result.{Result, ok}
use strongwiz.Base.Exec.{◌>>=◌, ◌>>◌, >>=-ok, lift}
use strongwiz.Transport.Bytes.{Bytes}
use strongwiz.Transport.Frame.{
  Wire, DecodedFrame, TransportError, receipt_of, parse_header, decode_payload, decode_frame_record,
}
use strongwiz.Transport.RoundTrip.{decode_frame_record_inv}
use strongwiz.Transport.Device.{
  Device, chunk, ensure_time, received, read_chunk, check_chunk, read_loop, read_exact, decode_read,
  read_body, read_frame_record_until,
}
use strongwiz.Transport.Reading.{IsReader}

-- a reader that answers with at least one of the bytes that it still has, and no more than asked for
pub record IsPrompt {S : Type 0} (d : Device S) (pending : S → Bytes) : Type 0 where
  pub is_reader : IsReader d pending
  pub prompt :
      (n : ℕ) (s : S)
      → 0 < n
      → (bytes : Bytes) × (t : S) × (d.read n s ≡ (chunk bytes, t))
        × (length bytes ≤ n)
        × ((pending s ≡ []) ⊎ (0 < length bytes))

-- two ways to cut one list
cut :
    (b x bytes rest : Bytes)
    → b ++ x ≡ bytes ++ rest
    → length b ≤ length bytes
    → (more : Bytes) × (bytes ≡ b ++ more) × (x ≡ more ++ rest)
cut [] x bytes rest h fits = (bytes, refl, h)
cut (c ∷ b) x [] rest h fits = absurd (omega arith)
cut (c ∷ b) x (k ∷ bytes) rest h fits =
    let same : (c ≡ k) × (b ++ x ≡ bytes ++ rest) = ground (arith, h) in
    let (more, front, back) = cut b x bytes rest same.1 (omega arith) in
    (more, ground (arith, same, front), back)

module _ {S : Type 0} (d : Device S) (pending : S → Bytes) (law : IsPrompt d pending) where
  pub read_chunk_prompt :
      (n : ℕ) (s : S)
      → 0 < n
      → (bytes : Bytes) × (t : S) × (read_chunk d none n s ≡ (ok bytes, t))
        × (length bytes ≤ n)
        × ((pending s ≡ []) ⊎ (0 < length bytes))
        × (pending s ≡ bytes ++ pending t)
  unfolding read_chunk ensure_time received
  read_chunk_prompt n s positive =
      let (bytes, t, answer, size, some_bytes) = law.prompt n s positive in
      (bytes, t, rw (answer) refl, size, some_bytes, law.is_reader.reading n s t bytes answer)

  check_chunk_ok :
      (remaining : ℕ) (clean : Bool) (output bytes : Bytes) (s : S)
      → length bytes ≤ remaining
      → 0 < length bytes
      → check_chunk d remaining clean output bytes s ≡ (ok tt, s)
  unfolding check_chunk
  check_chunk_ok remaining clean output bytes s fits positive = ground (arith, fits, positive)

  read_loop_full :
      (clean : Bool) (count fuel : ℕ) (output : Bytes) (s : S)
      → length output ≡ count
      → read_loop d none clean count fuel output s ≡ (ok output, s)
  unfolding read_loop
  read_loop_full clean count zero output s full = refl
  read_loop_full clean count (suc fuel) output s full =
      let over : ltb (length output) count ≡ false = ground (arith, full) in
      rw (read_loop, over) refl

  read_loop_step :
      (clean : Bool) (count fuel : ℕ) (output bytes : Bytes) (s u : S)
      → length output < count
      → read_chunk d none (count - length output) s ≡ (ok bytes, u)
      → length bytes ≤ count - length output
      → 0 < length bytes
      → read_loop d none clean count (suc fuel) output s
        ≡ read_loop d none clean count fuel (output ++ bytes) u
  unfolding read_loop
  read_loop_step clean count fuel output bytes s u short taken fits positive =
      let room : ltb (length output) count ≡ true = ground (arith, short) in
      let checked = check_chunk_ok (count - length output) clean output bytes u fits positive in
      rw (read_loop, room)
        (>>=-ok (read_chunk d none (count - length output))
            (λ b.
              check_chunk d (count - length output) clean output b
              >> read_loop d none clean count fuel (output ++ b))
            taken
          ∙ >>=-ok (check_chunk d (count - length output) clean output bytes)
              (λ _. read_loop d none clean count fuel (output ++ bytes)) checked)

  some_front :
      (b : ℕ) (front bytes : Bytes) (s : S)
      → pending s ≡ b ∷ bytes
      → (pending s ≡ []) ⊎ (0 < length front)
      → 0 < length front
  some_front b front bytes s held (inl empty) = absurd (ground (arith, held, empty))
  some_front b front bytes s held (inr positive) = positive

  regrouped :
      (output front more bytes : Bytes) (run : Result TransportError Bytes × S) (t : S)
      → bytes ≡ front ++ more
      → run ≡ (ok (output ++ front ++ more), t)
      → run ≡ (ok (output ++ bytes), t)
  regrouped output front more bytes run t split done =
      done
      ∙ ap (λ x. (ok x, t)) (append_assoc output front more ∙ ap (λ x. output ++ x) (sym split))

  read_loop_prompt :
      (clean : Bool) (count fuel : ℕ) (output bytes rest : Bytes) (s : S)
      → pending s ≡ bytes ++ rest
      → length output + length bytes ≡ count
      → count ≤ length output + fuel
      → (t : S) × (read_loop d none clean count fuel output s ≡ (ok (output ++ bytes), t))
        × (pending t ≡ rest)
  read_loop_prompt clean count fuel output [] rest s held size enough = (
    s,
    read_loop_full clean count fuel output s (omega (arith, size))
        ∙ ap (λ x. (ok x, s)) (sym (append-nil output)),
    held,
  )
  read_loop_prompt clean count zero output (b ∷ bytes) rest s held size enough =
      absurd (omega arith)
  read_loop_prompt clean count (suc fuel) output (b ∷ bytes) rest s held size enough =
      let (front, u, taken, fits, some_bytes, given) =
        read_chunk_prompt (count - length output) s (omega arith) in
      let (more, split, left) =
        cut front (pending u) (b ∷ bytes) rest (sym given ∙ held) (omega (arith, fits, size)) in
      let positive = some_front b front (bytes ++ rest) s held some_bytes in
      let joined = length-append output front in
      let (t, run, end) =
        read_loop_prompt clean count fuel (output ++ front) more rest u left
          (omega
            (arith, joined, size, ap (λ (xs : Bytes). length xs) split, length-append front more))
          (omega (arith, joined, positive, enough)) in
      (
        t,
        read_loop_step clean count fuel output front s u (omega (arith, size)) taken fits positive
            ∙ regrouped output front more (b ∷ bytes)
                (read_loop d none clean count fuel (output ++ front) u) t split run,
        end,
      )

  pub read_exact_prompt :
      (clean : Bool) (count : ℕ) (bytes rest : Bytes) (s : S)
      → pending s ≡ bytes ++ rest
      → length bytes ≡ count
      → (t : S) × (read_exact d count none clean s ≡ (ok bytes, t)) × (pending t ≡ rest)
  unfolding read_exact
  read_exact_prompt clean count bytes rest s held size =
      read_loop_prompt clean count count [] bytes rest s held (omega (arith, size)) (omega arith)

  decode_read_ok :
      (n : ℕ) (digest payload : Bytes) (value : Json) (s : S) (w : Wire)
      → decode_payload w payload digest ≡ ok value
      → decode_read d w none n digest payload s
        ≡ (ok (record { value = value; receipt = receipt_of n digest }), s)
  unfolding decode_read ensure_time
  decode_read_ok n digest payload value s w decoded = rw (decode_read, decoded) refl

  module _ (w : Wire) where
    read_body_prompt :
        (n : ℕ) (digest payload rest : Bytes) (value : Json) (s : S)
        → pending s ≡ payload ++ rest
        → length payload ≡ n
        → decode_payload w payload digest ≡ ok value
        → (t : S) × (read_body d w none (n, digest) s
            ≡ (ok (record { value = value; receipt = receipt_of n digest }), t))
          × (pending t ≡ rest)
    unfolding read_body
    read_body_prompt n digest payload rest value s held size decoded =
        let (t, got, left) = read_exact_prompt false n payload rest s held size in
        (
          t,
          >>=-ok (read_exact d n none false) (decode_read d w none n digest) got
              ∙ decode_read_ok n digest payload value t w decoded,
          left,
        )

    -- a frame in front of a stream is read, and what follows it stays in the stream
    pub read_frame_record_until_prompt :
        (limit : ℕ) (frame : DecodedFrame) (raw rest : Bytes) (s : S)
        → pending s ≡ raw ++ rest
        → decode_frame_record w raw limit ≡ ok frame
        → (t : S) × (read_frame_record_until d w limit none s ≡ (ok frame, t)) × (pending t ≡ rest)
    unfolding read_frame_record_until
    read_frame_record_until_prompt limit frame raw rest s held decoded =
        let (n, digest, parsed, size, body, receipt) =
          decode_frame_record_inv w raw limit frame decoded in
        let header = take 45 raw in
        let payload = drop 45 raw in
        let whole : header ++ payload ≡ raw = take-++-drop 45 raw in
        let (u, got, left) =
          read_exact_prompt true 45 header (payload ++ rest) s
            (held ∙ ap (λ x. x ++ rest) (sym whole) ∙ append_assoc header payload rest)
            (length-take 45 raw (omega arith)) in
        let (t, finished, end) =
          read_body_prompt n digest payload rest frame.value u left
            (omega (arith, length-drop 45 raw (omega arith))) body in
        (
          t,
          >>=-ok (read_exact d 45 none true)
                (λ h. lift (parse_header h limit) >>= read_body d w none) got
              ∙ >>=-ok (lift (parse_header header limit)) (read_body d w none)
                  (ap (λ r. (r, u)) parsed)
              ∙ finished
              ∙ ap (λ r. (ok (record { value = frame.value; receipt = r }), t)) (sym receipt),
          end,
        )

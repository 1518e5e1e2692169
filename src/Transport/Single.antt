-- ===== src/Transport/Single.antt =====
-- Reading an input of one frame is decoding all of the input.
use mathlib.Core.List.{append-nil}
use strongwiz.Base.{
  ℕ, ◌≡◌, ◌↔◌, inl, inr, refl, sym, ap, ◌∙◌, arith, none, [], ◌∷◌, ◌++◌, ltb, length,
}
use strongwiz.Base.Result.{ok}
use strongwiz.Base.Exec.{Exec, ◌>>=◌, ◌>>◌, >>=-eq-ok, >>=-ok, pure, raise_if}
use strongwiz.Transport.Bytes.{Bytes}
use strongwiz.Transport.Frame.{
  Wire, DecodedFrame, TransportError, decode_frame_record, trailing_data,
}
use strongwiz.Transport.Device.{
  Device, deadline_of, read_chunk, read_frame_record_until, read_single_frame_record,
}
use strongwiz.Transport.Received.{read_frame_record_until_lem}
use strongwiz.Transport.Prompt.{IsPrompt, read_chunk_prompt, read_frame_record_until_prompt}

-- nothing in front of something is all of it
no_front : (xs ys : Bytes) → [] ≡ xs ++ ys → xs ≡ []
no_front [] ys h = refl
no_front (x ∷ xs) ys h = absurd (ground (arith, h))

module _ {S : Type 0} (d : Device S) (pending : S → Bytes) (law : IsPrompt d pending) where
  -- a read of one byte that gives none stands at the end, and at the end it gives none
  at_end :
      (s t : S) (trailing : Bytes)
      → read_chunk d none 1 s ≡ (ok trailing, t)
      → length trailing ≡ 0
      → pending s ≡ []
  at_end s t trailing got empty =
      let (bytes, u, asked, _, some_bytes, _) = read_chunk_prompt d pending law 1 s (omega arith) in
      let same : trailing ≡ bytes = ground (arith, got, asked) in
      elim some_bytes [
        | inl nothing ↦ nothing
        | inr positive ↦ absurd (ground (arith, same, empty, positive))
      ]

  ending : (s : S) → pending s ≡ [] → (t : S) × (read_chunk d none 1 s ≡ (ok [], t))
  ending s nothing =
      let (bytes, t, asked, _, _, held) = read_chunk_prompt d pending law 1 s (omega arith) in
      (t, asked ∙ ap (λ b. (ok b, t)) (no_front bytes (pending t) (sym nothing ∙ held)))

  module _ (w : Wire) where
    -- the check after the frame
    trail : DecodedFrame → Bytes → Exec S TransportError DecodedFrame
    trail frame trailing = raise_if (ltb 0 (length trailing)) trailing_data >> pure frame

    trail_lem :
        (frame result : DecodedFrame) (trailing : Bytes) (s t : S)
        → trail frame trailing s ≡ (ok result, t)
        → (length trailing ≡ 0) × (result ≡ frame)
    unfolding trail
    trail_lem frame result trailing s t h = ground (arith, h)

    single_gives :
        (limit : ℕ) (frame : DecodedFrame) (s t : S)
        → read_single_frame_record d w limit none s ≡ (ok frame, t)
        → decode_frame_record w (pending s) limit ≡ ok frame
    unfolding read_single_frame_record deadline_of trail
    single_gives limit frame s t h =
        let (got, u, framed, h1) =
          >>=-eq-ok (read_frame_record_until d w limit none) (λ f. read_chunk d none 1 >>= trail f)
            h in
        let (trailing, v, asked, h2) = >>=-eq-ok (read_chunk d none 1) (trail got) h1 in
        let (empty, same) = trail_lem got frame trailing v t h2 in
        let (raw, held, decoded) =
          read_frame_record_until_lem d pending law.is_reader w limit none got s u framed in
        let all_of : pending s ≡ raw =
          held ∙ ap (λ x. raw ++ x) (at_end u v trailing asked empty) ∙ append-nil raw in
        ap (λ r. decode_frame_record w r limit) all_of ∙ decoded ∙ ap (λ f. ok f) (sym same)

    gives_single :
        (limit : ℕ) (frame : DecodedFrame) (s : S)
        → decode_frame_record w (pending s) limit ≡ ok frame
        → (t : S) × (read_single_frame_record d w limit none s ≡ (ok frame, t))
    unfolding read_single_frame_record deadline_of trail
    gives_single limit frame s decoded =
        let (u, framed, left) =
          read_frame_record_until_prompt d pending law w limit frame (pending s) [] s
            (sym (append-nil (pending s))) decoded in
        let (t, asked) = ending u left in
        (
          t,
          >>=-ok (read_frame_record_until d w limit none) (λ f. read_chunk d none 1 >>= trail f)
                framed
              ∙ >>=-ok (read_chunk d none 1) (trail frame) asked,
        )

    -- Without a timeout, and from a stream that answers each call with some of its bytes until its
    -- end, `read_single_frame_record` returns a frame exactly when `decode_frame_record` returns
    -- that frame for all bytes of the stream, whatever the sizes of the answers.
    pub read_single_frame_record-decode_frame_record :
        (limit : ℕ) (frame : DecodedFrame) (s : S)
        → ((t : S) × (read_single_frame_record d w limit none s ≡ (ok frame, t)))
          ↔ (decode_frame_record w (pending s) limit ≡ ok frame)
    read_single_frame_record-decode_frame_record limit frame s =
        (λ (t, h). single_gives limit frame s t h, gives_single limit frame s)

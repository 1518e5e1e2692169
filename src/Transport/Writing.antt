-- ===== src/Transport/Writing.antt =====
-- What the writer of a frame has put into its stream, however the stream took its bytes.
use mathlib.Core.List.{append-nil, append_assoc}
use strongwiz.Canonical.Json.{Json}
use strongwiz.Base.{
  ℕ, zero, suc, ◌≤◌, ◌<◌, ◌≡◌, refl, sym, ap, ◌∙◌, arith, true, false, Option, none, [], ◌∷◌, ◌++◌,
  ltb, ◌==◌, nat_eq, length, take, drop, take-++-drop, length-drop,
}
use strongwiz.Base.Result.{Result, ok}
use strongwiz.Base.Exec.{Exec, ◌>>=◌, ◌>>◌, >>=-eq-ok, >>=-lift, >>=-ok, >>-raise, pure, raise_if}
use strongwiz.Transport.Bytes.{Bytes}
use strongwiz.Transport.Frame.{
  Wire, FrameReceipt, TransportError, encode_payload, no_progress, oversized_count, timed_out,
  not_a_count,
}
use strongwiz.Transport.Clock.{ensure_time_lem, deadline_of_lem}
use strongwiz.Transport.Device.{
  Device, WriteAnswer, wrote, no_count, write_timeout, other_count, ensure_time, accepted, offer,
  write_chunk, write_loop, deadline_of, write_frame,
}

-- `sent s` is what a stream in state `s` has taken: a count is of bytes from the front of what was
-- offered, and the clock leaves it.
pub record IsWriter {S : Type 0} (d : Device S) (sent : S → Bytes) : Type 0 where
  pub writing :
      (bytes : Bytes) (s t : S) (n : ℕ)
      → d.write bytes s ≡ (wrote n, t)
      → n ≤ length bytes
      → sent t ≡ sent s ++ take n bytes
  pub ticking : (s : S) → sent (d.monotonic s).1 ≡ sent s

-- a writer that takes at least one byte of what it is offered
pub record IsPromptWriter {S : Type 0} (d : Device S) (sent : S → Bytes) : Type 0 where
  pub is_writer : IsWriter d sent
  pub prompt :
      (bytes : Bytes) (s : S)
      → 0 < length bytes
      → (n : ℕ) × (t : S) × (d.write bytes s ≡ (wrote n, t)) × (0 < n) × (n ≤ length bytes)

module _ {S : Type 0} (d : Device S) where
  -- the tests of a count, and the rest of the loop
  onward : Option ℕ → ℕ → Bytes → ℕ → Exec S TransportError (Unit {0})
  onward deadline fuel rest n =
      raise_if (n == 0) no_progress
      >> (raise_if (ltb (length rest) n) oversized_count
          >> write_loop d deadline fuel (drop n rest))

  onward_lem :
      (deadline : Option ℕ) (fuel n : ℕ) (rest : Bytes) (s t : S)
      → onward deadline fuel rest n s ≡ (ok tt, t)
      → (0 < n) × (n ≤ length rest) × (write_loop d deadline fuel (drop n rest) s ≡ (ok tt, t))
  unfolding onward
  onward_lem deadline fuel n rest s t h = ground (arith, h)

  onward_ok :
      (deadline : Option ℕ) (fuel n : ℕ) (rest : Bytes) (s : S)
      → 0 < n
      → n ≤ length rest
      → onward deadline fuel rest n s ≡ write_loop d deadline fuel (drop n rest) s
  unfolding onward
  onward_ok deadline fuel n rest s positive fits =
      let some_count : (n == 0) ≡ false = ground (arith, positive) in
      let no_more : ltb (length rest) n ≡ false = ground (arith, fits) in
      rw (onward, some_count, no_more) refl

  write_loop_step :
      (fuel n : ℕ) (rest : Bytes) (s u : S)
      → 0 < length rest
      → d.write rest s ≡ (wrote n, u)
      → 0 < n
      → n ≤ length rest
      → write_loop d none (suc fuel) rest s ≡ write_loop d none fuel (drop n rest) u
  unfolding write_loop onward write_chunk ensure_time accepted
  write_loop_step fuel n rest s u some_bytes answer positive fits =
      let room : ltb 0 (length rest) ≡ true = ground (arith, some_bytes) in
      let taken : write_chunk d none rest s ≡ (ok n, u) = rw (answer) refl in
      rw (write_loop, room)
        (>>=-ok (write_chunk d none rest) (onward none fuel rest) taken
          ∙ onward_ok none fuel n rest u positive fits)

module _ {S : Type 0} (d : Device S) (sent : S → Bytes) (law : IsWriter d sent) where
  accepted_lem :
      (deadline : Option ℕ) (answer : WriteAnswer) (s t : S) (n : ℕ)
      → accepted d deadline answer s ≡ (ok n, t)
      → (answer ≡ wrote n) × (sent t ≡ sent s)
  unfolding accepted
  accepted_lem deadline (wrote given) s t n h =
      let (_, u, timed, done) = >>=-eq-ok (ensure_time d deadline) (λ _. pure given) h in
      (
        ground (arith, done),
        ap (λ (p : Result TransportError ℕ × S). sent p.1) (sym done)
            ∙ ensure_time_lem d sent law.ticking deadline s u (ok tt) timed,
      )
  accepted_lem deadline no_count s t n h =
      absurd (>>-raise (ensure_time d deadline) timed_out s t n h)
  accepted_lem deadline write_timeout s t n h = cc
  accepted_lem deadline other_count s t n h =
      absurd (>>-raise (ensure_time d deadline) not_a_count s t n h)

  write_chunk_lem :
      (deadline : Option ℕ) (rest : Bytes) (s t : S) (n : ℕ)
      → write_chunk d deadline rest s ≡ (ok n, t)
      → n ≤ length rest
      → sent t ≡ sent s ++ take n rest
  unfolding write_chunk
  write_chunk_lem deadline rest s t n h fits =
      let (_, u, timed, h1) =
        >>=-eq-ok (ensure_time d deadline) (λ _. offer d rest >>= accepted d deadline) h in
      let (answer, v, asked, done) = >>=-eq-ok (offer d rest) (accepted d deadline) h1 in
      let (is_count, same) = accepted_lem deadline answer v t n done in
      let answered : d.write rest u ≡ (wrote n, v) = ground (arith, asked, is_count) in
      same
      ∙ law.writing rest u v n answered fits
      ∙ ap (λ x. x ++ take n rest) (ensure_time_lem d sent law.ticking deadline s u (ok tt) timed)

  put :
      (s u t : S) (n : ℕ) (rest : Bytes)
      → sent u ≡ sent s ++ take n rest
      → sent t ≡ sent u ++ drop n rest
      → sent t ≡ sent s ++ rest
  put s u t n rest front back =
      back
      ∙ ap (λ x. x ++ drop n rest) front
      ∙ append_assoc (sent s) (take n rest) (drop n rest)
      ∙ ap (λ x. sent s ++ x) (take-++-drop n rest)

  put_none : (s t : S) → pure {S = S} {E = TransportError} tt s ≡ (ok tt, t) → sent t ≡ sent s ++ []
  put_none s t h =
      ap (λ (p : Result TransportError (Unit {0}) × S). sent p.1) (sym h)
      ∙ sym (append-nil (sent s))

  write_loop_lem :
      (deadline : Option ℕ) (fuel : ℕ) (rest : Bytes) (s t : S)
      → length rest ≤ fuel
      → write_loop d deadline fuel rest s ≡ (ok tt, t)
      → sent t ≡ sent s ++ rest
  unfolding write_loop onward
  write_loop_lem deadline zero [] s t enough h = put_none s t h
  write_loop_lem deadline (suc fuel) [] s t enough h = put_none s t h
  write_loop_lem deadline zero (b ∷ bytes) s t enough h = absurd (omega arith)
  write_loop_lem deadline (suc fuel) (b ∷ bytes) s t enough h =
      let rest = b ∷ bytes in
      let room : ltb 0 (length rest) ≡ true = ground arith in
      let step : write_loop d deadline (suc fuel) rest s
          ≡ (write_chunk d deadline rest >>= onward d deadline fuel rest) s =
        rw (write_loop, room) refl in
      let (n, u, took, h1) =
        >>=-eq-ok (write_chunk d deadline rest) (onward d deadline fuel rest) (sym step ∙ h) in
      let (positive, fits, next) = onward_lem d deadline fuel n rest u t h1 in
      let left =
        write_loop_lem deadline fuel (drop n rest) u t
          (omega (arith, length-drop n rest fits, positive, enough)) next in
      put s u t n rest (write_chunk_lem deadline rest s u n took fits) left

  -- To a stream that takes as many bytes of what it is offered as it counts: when `write_frame`
  -- returns, the stream has taken the one frame of the value behind what it had taken before, and
  -- nothing else, however many bytes each call took; the receipt is that frame's.
  pub write_frame-encode_payload :
      (w : Wire) (value : Json) (limit : ℕ) (timeout : Option ℕ) (receipt : FrameReceipt) (s t : S)
      → write_frame d w value limit timeout s ≡ (ok receipt, t)
      → (frame : Bytes) × (encode_payload w value limit ≡ ok (frame, receipt))
        × (sent t ≡ sent s ++ frame)
  unfolding write_frame
  write_frame-encode_payload w value limit timeout receipt s t h =
      let ((frame, made), encoded, h1) =
        >>=-lift (encode_payload w value limit)
          (λ (frame, receipt). deadline_of d timeout >>= λ deadline.
            write_loop d deadline (length frame) frame >> pure receipt)
          h in
      let (deadline, u, started, h2) =
        >>=-eq-ok (deadline_of d timeout)
          (λ deadline. write_loop d deadline (length frame) frame >> pure made) h1 in
      let (_, v, written, done) =
        >>=-eq-ok (write_loop d deadline (length frame) frame) (λ _. pure made) h2 in
      let held = write_loop_lem deadline (length frame) frame u v (omega arith) written in
      (
        frame,
        ground (arith, encoded, done),
        ground (arith, done, held, deadline_of_lem d sent law.ticking timeout deadline s u started),
      )

module _ {S : Type 0} (d : Device S) (sent : S → Bytes) (law : IsPromptWriter d sent) where
  write_loop_prompt :
      (fuel : ℕ) (rest : Bytes) (s : S)
      → length rest ≤ fuel
      → (t : S) × (write_loop d none fuel rest s ≡ (ok tt, t))
  unfolding write_loop
  write_loop_prompt zero rest s enough = (s, refl)
  write_loop_prompt (suc fuel) [] s enough = (s, refl)
  write_loop_prompt (suc fuel) (b ∷ bytes) s enough =
      let rest = b ∷ bytes in
      let (n, u, asked, positive, fits) = law.prompt rest s (omega arith) in
      let (t, next) =
        write_loop_prompt fuel (drop n rest) u
          (omega (arith, length-drop n rest fits, positive, enough)) in
      (t, write_loop_step d fuel n rest s u (omega arith) asked positive fits ∙ next)

  -- Without a timeout, a value that can be encoded is written by a stream that takes at least one
  -- byte of what each call offers: the call returns, and the stream has taken the frame.
  pub write_frame_returns :
      (w : Wire) (value : Json) (limit : ℕ) (frame : Bytes) (receipt : FrameReceipt) (s : S)
      → encode_payload w value limit ≡ ok (frame, receipt)
      → (t : S) × (write_frame d w value limit none s ≡ (ok receipt, t))
        × (sent t ≡ sent s ++ frame)
  unfolding write_frame deadline_of
  write_frame_returns w value limit frame receipt s encoded =
      let (t, written) = write_loop_prompt (length frame) frame s (omega arith) in
      let returned : write_frame d w value limit none s ≡ (ok receipt, t) =
        rw (write_frame, encoded)
          (>>=-ok (write_loop d none (length frame) frame) (λ _. pure receipt) written) in
      (
        t,
        returned,
        write_loop_lem d sent law.is_writer none (length frame) frame s t (omega arith) written,
      )

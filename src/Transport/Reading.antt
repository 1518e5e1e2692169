-- ===== src/Transport/Reading.antt =====
-- What the reader of a frame has taken from its stream, however the stream cut its bytes.
use mathlib.Core.List.{append-nil, append_assoc}
use strongwiz.Base.{
  ℕ, zero, suc, ◌+◌, ◌-◌, ◌≤◌, ◌<◌, ◌≡◌, inl, inr, refl, sym, ap, ◌∙◌, arith, Bool, Option, [],
  ◌++◌, ltb, length, length-append, Bool-cases,
}
use strongwiz.Base.Result.{Result, ok}
use strongwiz.Base.Exec.{pure, ◌>>=◌, ◌>>◌, >>=-eq-ok, >>-raise}
use strongwiz.Transport.Bytes.{Bytes}
use strongwiz.Transport.Frame.{TransportError, timed_out, not_bytes}
use strongwiz.Transport.Clock.{ensure_time_lem}
use strongwiz.Transport.Device.{
  Device, ReadAnswer, chunk, no_chunk, read_timeout, other_object, ask, ensure_time, received,
  read_chunk, check_chunk, read_loop, read_exact,
}

-- `pending s` is what a stream in state `s` still holds: a chunk is its front, and the clock leaves it.
pub record IsReader {S : Type 0} (d : Device S) (pending : S → Bytes) : Type 0 where
  pub reading :
      (n : ℕ) (s t : S) (bytes : Bytes)
      → d.read n s ≡ (chunk bytes, t)
      → pending s ≡ bytes ++ pending t
  pub ticking : (s : S) → pending (d.monotonic s).1 ≡ pending s

module _ {S : Type 0} (d : Device S) (pending : S → Bytes) (law : IsReader d pending) where
  received_lem :
      (deadline : Option ℕ) (answer : ReadAnswer) (s t : S) (bytes : Bytes)
      → received d deadline answer s ≡ (ok bytes, t)
      → (answer ≡ chunk bytes) × (pending t ≡ pending s)
  unfolding received
  received_lem deadline (chunk given) s t bytes h =
      let (_, u, timed, done) = >>=-eq-ok (ensure_time d deadline) (λ _. pure given) h in
      (
        ground (arith, done),
        ap (λ (p : Result TransportError Bytes × S). pending p.1) (sym done)
            ∙ ensure_time_lem d pending law.ticking deadline s u (ok tt) timed,
      )
  received_lem deadline no_chunk s t bytes h =
      absurd (>>-raise (ensure_time d deadline) timed_out s t bytes h)
  received_lem deadline read_timeout s t bytes h = cc
  received_lem deadline other_object s t bytes h =
      absurd (>>-raise (ensure_time d deadline) not_bytes s t bytes h)

  pub read_chunk_lem :
      (deadline : Option ℕ) (n : ℕ) (s t : S) (bytes : Bytes)
      → read_chunk d deadline n s ≡ (ok bytes, t)
      → pending s ≡ bytes ++ pending t
  unfolding read_chunk
  read_chunk_lem deadline n s t bytes h =
      let (_, u, timed, rest) =
        >>=-eq-ok (ensure_time d deadline) (λ _. ask d n >>= received d deadline) h in
      let (answer, v, asked, done) = >>=-eq-ok (ask d n) (received d deadline) rest in
      let (is_chunk, same) = received_lem deadline answer v t bytes done in
      let answered : d.read n u ≡ (chunk bytes, v) = ground (arith, asked, is_chunk) in
      sym (ensure_time_lem d pending law.ticking deadline s u (ok tt) timed)
      ∙ law.reading n u v bytes answered
      ∙ ap (λ x. bytes ++ x) (sym same)

  check_chunk_lem :
      (remaining : ℕ) (clean : Bool) (output bytes : Bytes) (s t : S) (u : Unit {0})
      → check_chunk d remaining clean output bytes s ≡ (ok u, t)
      → (length bytes ≤ remaining) × (0 < length bytes) × (t ≡ s)
  unfolding check_chunk
  check_chunk_lem remaining clean output bytes s t u h = ground (arith, h)

  -- what a run of the loop read after `output`
  abbrev Reads : ℕ → Bytes → Bytes → S → S → Type 0
  Reads count output result s t =
      (more : Bytes) × (result ≡ output ++ more)
      × (pending s ≡ more ++ pending t)
      × (length result ≡ count)

  Reads-full :
      (count : ℕ) (output result : Bytes) (s t : S)
      → length output ≡ count
      → pure {S = S} {E = TransportError} output s ≡ (ok result, t)
      → Reads count output result s t
  Reads-full count output result s t full h =
      ([], ground (arith, h, append-nil output), ground (arith, h), ground (arith, h, full))

  Reads-more :
      (count : ℕ) (output bytes result : Bytes) (s u t : S)
      → pending s ≡ bytes ++ pending u
      → Reads count (output ++ bytes) result u t
      → Reads count output result s t
  Reads-more count output bytes result s u t held (more, same, left, size) = (
    bytes ++ more,
    same ∙ append_assoc output bytes more,
    held ∙ ap (λ x. bytes ++ x) left ∙ sym (append_assoc bytes more (pending t)),
    size,
  )

  pub read_loop_lem :
      (deadline : Option ℕ) (clean : Bool) (count fuel : ℕ) (output result : Bytes) (s t : S)
      → length output ≤ count
      → count ≤ length output + fuel
      → read_loop d deadline clean count fuel output s ≡ (ok result, t)
      → Reads count output result s t
  unfolding read_loop
  read_loop_lem deadline clean count zero output result s t fits fuel h =
      Reads-full count output result s t (omega arith) h
  read_loop_lem deadline clean count (suc less) output result s t fits fuel h =
      elim (Bool-cases (ltb (length output) count)) [
        | inr full ↦
            let stop : read_loop d deadline clean count (suc less) output s ≡ (ok output, s) =
              rw (read_loop, full) refl in
            Reads-full count output result s t (ground (arith, full)) (sym stop ∙ h)
        | inl room ↦
            let remaining = count - length output in
            let next = λ (bytes : Bytes).
              check_chunk d remaining clean output bytes
              >> read_loop d deadline clean count less (output ++ bytes) in
            let step : read_loop d deadline clean count (suc less) output s
                ≡ (read_chunk d deadline remaining >>= next) s =
              rw (read_loop, room) refl in
            let (bytes, u, taken, rest) =
              >>=-eq-ok (read_chunk d deadline remaining) next (sym step ∙ h) in
            let (_, v, checked, onward) =
              >>=-eq-ok (check_chunk d remaining clean output bytes)
                (λ _. read_loop d deadline clean count less (output ++ bytes)) rest in
            let (within, positive, here) =
              check_chunk_lem remaining clean output bytes u v tt checked in
            Reads-more count output bytes result s v t
              (read_chunk_lem deadline remaining s u bytes taken
                ∙ ap (λ x. bytes ++ pending x) (sym here))
              (read_loop_lem deadline clean count less (output ++ bytes) result v t
                (omega (arith, room, within, length-append output bytes))
                (omega (arith, length-append output bytes, positive)) onward)
      ]

  pub read_exact_lem :
      (deadline : Option ℕ) (clean : Bool) (count : ℕ) (result : Bytes) (s t : S)
      → read_exact d count deadline clean s ≡ (ok result, t)
      → (pending s ≡ result ++ pending t) × (length result ≡ count)
  unfolding read_exact
  read_exact_lem deadline clean count result s t h =
      let (more, same, held, size) =
        read_loop_lem deadline clean count count [] result s t (omega arith) (omega arith) h in
      (rw (same) held, size)

-- ===== src/Transport/Identified.antt =====
-- What `read_identified_frame` leaves in its `ReplayGuard`.
use strongwiz.Base.{ℕ, ◌≡◌, refl, String, Option, has_text, Bool-cases, inr, inl}
use strongwiz.Base.Result.{Result, ok, err}
use strongwiz.Base.Exec.{Exec, pure, lift, ◌>>=◌, ◌>>◌}
use strongwiz.Transport.Frame.{TransportError, Wire, DecodedFrame}
use strongwiz.Transport.Device.{Device, read_frame_record}
use strongwiz.Transport.Replay.{
  ReplayGuard, identity_of, check_and_record, on_stream, on_guard, read_identified_frame,
}
use strongwiz.Transport.History.{check_and_record_raised}

module _ {S : Type 0} (d : Device S) (w : Wire) (identity_field : String) where
  -- a frame that is returned was recorded under the identity that it declares, and a raise leaves the guard
  pub Outcome : ReplayGuard → Result TransportError DecodedFrame × (S × ReplayGuard) → Type 0
  Outcome g (err e, (t, h)) = h ≡ g
  Outcome g (ok frame, (t, h)) =
      (identity : String) × (identity_of identity_field frame.value ≡ ok identity)
      × (check_and_record identity frame.receipt.payload_sha256 g ≡ (ok tt, h))

  recorded : DecodedFrame → String → Exec (S × ReplayGuard) TransportError DecodedFrame
  recorded frame identity =
      on_guard d w (check_and_record identity frame.receipt.payload_sha256) >> pure frame

  body : DecodedFrame → Exec (S × ReplayGuard) TransportError DecodedFrame
  body frame = lift (identity_of identity_field frame.value) >>= recorded frame

  recorded-Outcome :
      (frame : DecodedFrame) (identity : String) (t : S) (g : ReplayGuard)
      → identity_of identity_field frame.value ≡ ok identity
      → Outcome g (recorded frame identity (t, g))
  unfolding recorded Outcome
  recorded-Outcome frame identity t g named =
      go (check_and_record identity frame.receipt.payload_sha256 g) refl
    where
      go :
          (p : Result TransportError (Unit {0}) × ReplayGuard)
          → check_and_record identity frame.receipt.payload_sha256 g ≡ p
          → Outcome g ((on_guard d w (λ _. p) >> pure frame) (t, g))
      go (ok tt, h) e = (identity, named, e)
      go (err x, h) e = check_and_record_raised g h identity frame.receipt.payload_sha256 x e

  body-Outcome : (frame : DecodedFrame) (t : S) (g : ReplayGuard) → Outcome g (body frame (t, g))
  unfolding body Outcome
  body-Outcome frame t g = go (identity_of identity_field frame.value) refl
    where
      go :
          (r : Result TransportError String)
          → identity_of identity_field frame.value ≡ r
          → Outcome g ((lift r >>= recorded frame) (t, g))
      go (ok identity) e = recorded-Outcome frame identity t g e
      go (err x) e = refl

  framed-Outcome :
      (r : Result TransportError DecodedFrame) (s t : S) (g : ReplayGuard)
      → Outcome g ((on_stream d w (λ _. (r, t)) >>= body) (s, g))
  unfolding Outcome
  framed-Outcome (ok frame) s t g = body-Outcome frame t g
  framed-Outcome (err x) s t g = refl

  -- When `read_identified_frame` returns a frame, the guard has recorded the frame's digest under the identity
  -- that the frame declares; when it raises, whatever the reason, the guard is as it was.
  pub read_identified_frame-Outcome :
      (limit : ℕ) (timeout : Option ℕ) (s : S) (g : ReplayGuard)
      → Outcome g (read_identified_frame d w identity_field limit timeout (s, g))
  unfolding read_identified_frame body recorded Outcome
  read_identified_frame-Outcome limit timeout s g = elim (Bool-cases (has_text identity_field)) [
    | inr blank ↦ rw (read_identified_frame, blank) refl
    | inl named ↦
        rw (read_identified_frame, named)
          (let (r, t) = read_frame_record d w limit timeout s in framed-Outcome r s t g)
  ]

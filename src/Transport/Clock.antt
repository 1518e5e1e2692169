-- ===== src/Transport/Clock.antt =====
-- Looking at the clock leaves what the clock leaves.
use strongwiz.Base.{ℕ, zero, suc, ◌≡◌, sym, ap, ◌∙◌, Option, none, some}
use strongwiz.Base.Result.{Result, ok}
use strongwiz.Transport.Bytes.{Bytes}
use strongwiz.Transport.Frame.{TransportError}
use strongwiz.Transport.Device.{Device, ensure_time, deadline_of}

module _ {S : Type 0} (d : Device S) (view : S → Bytes)
    (ticking : (s : S) → view (d.monotonic s).1 ≡ view s) where
  seen : {A : Type 0} (m n : Result TransportError A × S) → m ≡ n → view n.1 ≡ view m.1
  seen m n same = ap (λ p. view p.1) (sym same)

  pub ensure_time_lem :
      (deadline : Option ℕ) (s t : S) (r : Result TransportError (Unit {0}))
      → ensure_time d deadline s ≡ (r, t)
      → view t ≡ view s
  unfolding ensure_time
  ensure_time_lem none s t r h = seen (ensure_time d none s) (r, t) h
  ensure_time_lem (some deadline) s t r h =
      seen (ensure_time d (some deadline) s) (r, t) h ∙ ticking s

  pub deadline_of_lem :
      (timeout deadline : Option ℕ) (s t : S)
      → deadline_of d timeout s ≡ (ok deadline, t)
      → view t ≡ view s
  unfolding deadline_of
  deadline_of_lem none deadline s t h = seen (deadline_of d none s) (ok deadline, t) h
  deadline_of_lem (some zero) deadline s t h = cc
  deadline_of_lem (some (suc ticks)) deadline s t h =
      seen (deadline_of d (some (suc ticks)) s) (ok deadline, t) h ∙ ticking s

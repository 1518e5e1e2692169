-- ===== src/Base/Map.antt =====
-- A `dict` that the program never iterates over: its lookup function.
use mathlib.Core.Bool.{Bool, true, false}
use mathlib.Core.Option.{Option, none, some}
use strongwiz.Base.Tests.{if◌then◌else◌}
use strongwiz.Base.Equality.{Eq, ◌==◌}

abbrev pub Map {ℓ} : Type ℓ → Type ℓ → Type ℓ
Map K V = K → Option V

module _ {ℓ} {K V : Type ℓ} where
  abbrev pub empty : Map K V
  empty k = none

  -- `d[k] = v`
  abbrev pub insert : ⦃e : Eq K⦄ → K → V → Map K V → Map K V
  insert k v d j = if j == k then some v else d j

  -- `k in d`
  abbrev pub has_key : Map K V → K → Bool
  has_key d k = elim (d k) [ none ↦ false | some _ ↦ true ]

  -- `d.setdefault(k, v)`
  abbrev pub set_default : ⦃e : Eq K⦄ → K → V → Map K V → Map K V
  set_default k v d = elim (d k) [ none ↦ insert k v d | some _ ↦ d ]

abbrev pub get_or {ℓ} : {V : Type ℓ} → Option V → V → V
get_or none v = v
get_or (some w) _ = w

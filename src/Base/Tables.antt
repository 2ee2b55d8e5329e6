-- ===== src/Base/Tables.antt =====
-- Tables by text, as functions.
use mathlib.Core.Path.{◌≡◌}
use mathlib.Core.Bool.{false}
use mathlib.Core.Option.{Option, none, some}
use native.Mathlib.Omega.{arith}
use backend_infrastructure_g.Base.Tests.{if◌then◌else◌}
use backend_infrastructure_g.Base.Strings.{Text, text_eq, text_eq_refl}

module _ {ℓ} {A : Type ℓ} where
  abbrev pub set : Text → A → (Text → Option A) → Text → Option A
  set k v f j = if text_eq j k then some v else f j

  abbrev pub del : Text → (Text → Option A) → Text → Option A
  del k f j = if text_eq j k then none else f j

  pub set_same : (k : Text) (v : A) (f : Text → Option A) → set k v f k ≡ some v
  set_same k v f = ground (arith, text_eq_refl k)

  pub set_other :
      (k j : Text) (v : A) (f : Text → Option A) → text_eq j k ≡ false → set k v f j ≡ f j
  set_other k j v f h = ground arith

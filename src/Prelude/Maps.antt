-- ===== src/Prelude/Maps.antt =====
-- Go's maps from strings, as association lists: a look-up finds the value last put under a key.
use mathlib.Core.Path.{◌≡◌, refl}
use mathlib.Core.Option.{Option, none, some}
use mathlib.Core.List.{List, [], ◌∷◌}
use native.Mathlib.Omega.{arith}
use mit6824_distribute_syste.Prelude.Tests.{if◌then◌else◌}
use mit6824_distribute_syste.Prelude.Text.{Text, text_eq, text_eq_iff}

abbrev pub Map {ℓ} : Type ℓ → Type ℓ
Map V = List (Text × V)

unfoldable pub lookup {ℓ} : {V : Type ℓ} → Text → Map V → Option V
lookup key [] = none
lookup key ((k, v) ∷ m) = if text_eq k key then some v else lookup key m

unfoldable pub put {ℓ} : {V : Type ℓ} → Text → V → Map V → Map V
put key v [] = (key, v) ∷ []
put key v ((k, u) ∷ m) = if text_eq k key then (k, v) ∷ m else (k, u) ∷ put key v m

pub lookup-put {ℓ} :
    {V : Type ℓ} (key j : Text) (v : V) (m : Map V)
    → lookup j (put key v m) ≡ (if text_eq key j then some v else lookup j m)
unfolding lookup put
lookup-put key j v [] = refl
lookup-put key j v ((k, u) ∷ m) =
    ground (arith, text_eq_iff key j, text_eq_iff k key, text_eq_iff k j, lookup-put key j v m)

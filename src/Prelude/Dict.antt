-- ===== src/Prelude/Dict.antt =====
-- Python's dict as a list of its items, in the order of their insertion.
use Prim.Native.String.{String}
use mathlib.Core.Path.{◌≡◌, refl}
use mathlib.Core.Option.{Option, none, some}
use mathlib.Core.List.{List, [], ◌∷◌}
use native.Mathlib.Omega.{arith}
use text.Mathlib.Text.{◌==◌}
use text.Mathlib.TextEquality.{eq_iff}
use delivery_time_prediction.Prelude.Tests.{if◌then◌else◌}

abbrev pub Dict : Type 0 → Type 0
Dict V = List (String × V)

unfoldable pub lookup : {V : Type 0} → String → Dict V → Option V
lookup k [] = none
lookup k ((j, v) ∷ d) = if j == k then some v else lookup k d

unfoldable pub insert : {V : Type 0} → String → V → Dict V → Dict V
insert k v [] = (k, v) ∷ []
insert k v ((j, w) ∷ d) = if j == k then (j, v) ∷ d else (j, w) ∷ insert k v d

pub lookup-insert :
    {V : Type 0} (k j : String) (v : V) (d : Dict V)
    → lookup j (insert k v d) ≡ (if k == j then some v else lookup j d)
unfolding lookup insert
lookup-insert k j v [] = refl
lookup-insert k j v ((i, w) ∷ d) =
    ground (arith, eq_iff k j, eq_iff i k, eq_iff i j, lookup-insert k j v d)

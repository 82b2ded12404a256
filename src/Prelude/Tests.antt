-- ===== src/Prelude/Tests.antt =====
-- Boolean tests on the native numbers, the conditional, and case analyses that keep an equation.
use Prim.Native.Nat.{ℕ, suc, compare, Ordering}
use Prim.Native.String.{String, ◌++◌ as str_append}
use mathlib.Core.List.{List, [], ◌∷◌}
use mathlib.Core.Path.{◌≡◌, refl, sym, ◌∙◌}
use mathlib.Core.Logic.{◌≢◌, ◌⊎◌, inl, inr}
use mathlib.Core.Bool.{Bool, true, false, false≢true}
use mathlib.Core.Option.{Option, none, some}
use text.Mathlib.Text.{◌==◌}
use text.Mathlib.TextEquality.{eq_iff}
use text.Mathlib.TextLemmas.{append-eq-nil_iff}

abbrev pub ltb : ℕ → ℕ → Bool
ltb a b = elim (compare a b) [ Ordering.lt ↦ true | _ ↦ false ]

abbrev pub leb : ℕ → ℕ → Bool
leb a b = elim (compare a b) [ Ordering.gt ↦ false | _ ↦ true ]

abbrev pub nat_eq : ℕ → ℕ → Bool
nat_eq a b = elim (compare a b) [ Ordering.eq ↦ true | _ ↦ false ]

infix 1 if◌then◌else◌
abbrev pub if◌then◌else◌ {ℓ} : {A : Type ℓ} → Bool → A → A → A
if true then x else y = x
if false then x else y = y

pub Bool-cases : (b : Bool) → (b ≡ true) ⊎ (b ≡ false)
Bool-cases true = inl refl
Bool-cases false = inr refl

pub Option-cases {ℓ} : {A : Type ℓ} (o : Option A) → (o ≡ none) ⊎ ((a : A) × (o ≡ some a))
Option-cases none = inl refl
Option-cases (some a) = inr (a, refl)

pub eq_of_ne : (s t : String) → s ≢ t → (s == t) ≡ false
eq_of_ne s t h = elim (Bool-cases (s == t)) [ inl e ↦ absurd (h ((eq_iff s t).0 e)) | inr e ↦ e ]

-- How often a text stands in a list.
abbrev pub count : String → List String → ℕ
count s [] = 0
count s (t ∷ ts) = let rest = count s ts in if t == s then suc rest else rest

-- A text put together from its parts, as an f-string is.
unfoldable pub concat : List String → String
concat [] = ""
concat (s ∷ ss) = str_append s (concat ss)

pub concat_not_empty :
    (s : String) (ss : List String) → (s == "") ≡ false → (concat (s ∷ ss) == "") ≡ false
unfolding concat
concat_not_empty s ss h =
    eq_of_ne _ _ λ e. absurd (false≢true (sym h ∙ (eq_iff s "").1 (append-eq-nil_iff.0 e).0))

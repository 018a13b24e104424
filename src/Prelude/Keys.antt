-- ===== src/Prelude/Keys.antt =====
-- Keys with a Boolean equality, and the standard library's `HashMap` as an association list.
use Prim.Native.Nat.{ℕ}
use Prim.Native.String.{String}
use mathlib.Core.Path.{◌≡◌, refl}
use mathlib.Core.Logic.{◌↔◌}
use mathlib.Core.List.{List, [], ◌∷◌}
use mathlib.Core.Option.{Option, none, some}
use mathlib.Core.Bool.{Bool, true}
use native.Mathlib.Omega.{arith}
use text.Mathlib.Text.{◌==◌ as str_eq}
use text.Mathlib.TextEquality.{eq_iff}
use gvector.Prelude.Tests.{eqb, eqb_iff, if◌then◌else◌}

pub record Key {ℓ} (K : Type ℓ) : Type ℓ where
  pub equal : K → K → Bool
  pub equal_iff : (a b : K) → (equal a b ≡ true) ↔ (a ≡ b)

infix 50 ◌==◌
abbrev pub ◌==◌ {ℓ} : {K : Type ℓ} ⦃key : Key K⦄ → K → K → Bool
◌==◌ ⦃key⦄ = key.equal

instance abbrev pub nat_key : Key ℕ
nat_key = record { equal = eqb; equal_iff = eqb_iff }

instance abbrev pub string_key : Key String
string_key = record { equal = str_eq; equal_iff = eq_iff }

module _ {ℓ} {K V : Type ℓ} ⦃key : Key K⦄ where
  -- `HashMap::get`
  unfoldable pub lookup : K → List (K × V) → Option V
  lookup k [] = none
  lookup k ((key_here, found) ∷ rest) = if key_here == k then some found else lookup k rest

  -- `HashMap::remove`
  unfoldable pub erase : K → List (K × V) → List (K × V)
  erase k [] = []
  erase k ((j, w) ∷ m) = if j == k then erase k m else (j, w) ∷ erase k m

  -- `HashMap::insert`, which replaces an old value
  unfoldable pub insert : K → V → List (K × V) → List (K × V)
  insert k v [] = (k, v) ∷ []
  insert k v ((key_here, old) ∷ rest) =
      if key_here == k then (k, v) ∷ rest else (key_here, old) ∷ insert k v rest

  pub lookup-insert :
      (new_key asked : K) (value : V) (table : List (K × V))
      → lookup asked (insert new_key value table)
        ≡ (if new_key == asked then some value else lookup asked table)
  unfolding insert lookup
  lookup-insert new_key asked value [] = refl
  lookup-insert new_key asked value (entry ∷ table) =
      let rest = lookup-insert new_key asked value table in
      ground (
        arith,
        rest,
        key.equal_iff entry.0 new_key,
        key.equal_iff entry.0 asked,
        key.equal_iff new_key asked,
      )

  pub lookup-erase :
      (k j : K) (m : List (K × V)) → lookup j (erase k m) ≡ (if k == j then none else lookup j m)
  unfolding lookup erase
  lookup-erase k j [] = ground arith
  lookup-erase k j ((i, w) ∷ m) =
      ground (arith, key.equal_iff k j, key.equal_iff i k, key.equal_iff i j, lookup-erase k j m)

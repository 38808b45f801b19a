-- ===== src/Base/Sets.antt =====
-- std::set of strings: lists without repetition, and the keys of maps.
use Prim.Native.String.{String}
use text.Mathlib.Text.{◌==◌ as str_eq}
use text.Mathlib.TextEquality.{eq_iff}
use mathlib.Core.Path.{◌≡◌, refl}
use mathlib.Core.Bool.{Bool, true, false, ◌&&◌, ◌||◌, not}
use mathlib.Core.Option.{Option, none, some}
use mathlib.Core.List.{List, [], ◌∷◌, ◌++◌}
use native.Mathlib.Omega.{arith}
use zeppelin.Base.Tests.{if◌then◌else◌}
use zeppelin.Base.Assoc.{lookup, erase, lookup-erase}

-- std::set: find, insert and the comparison
abbrev pub has_elem : String → List String → Bool
has_elem x [] = false
has_elem x (y ∷ ys) = str_eq y x || has_elem x ys

abbrev pub set_insert : String → List String → List String
set_insert x xs = if has_elem x xs then xs else xs ++ x ∷ []

abbrev pub subset : List String → List String → Bool
subset [] ys = true
subset (x ∷ xs) ys = has_elem x ys && subset xs ys

abbrev pub same_set : List String → List String → Bool
same_set xs ys = subset xs ys && subset ys xs

-- The maps with the names in a list erased, and the names of a map.
abbrev pub erase_all {ℓ} : {V : Type ℓ} → List String → List (String × V) → List (String × V)
erase_all [] m = m
erase_all (k ∷ ks) m = erase k (erase_all ks m)

abbrev pub set_erase : String → List String → List String
set_erase k [] = []
set_erase k (x ∷ xs) = if str_eq x k then set_erase k xs else x ∷ set_erase k xs

abbrev pub keys {ℓ} : {V : Type ℓ} → List (String × V) → List String
keys [] = []
keys ((k, v) ∷ m) = k ∷ keys m

pub has_elem-append :
    (x : String) (xs ys : List String) → has_elem x (xs ++ ys) ≡ (has_elem x xs || has_elem x ys)
has_elem-append x [] ys = refl
has_elem-append x (z ∷ zs) ys = ground (arith, has_elem-append x zs ys)

pub has_elem-set_insert :
    (x y : String) (xs : List String) → has_elem x (set_insert y xs) ≡ (str_eq y x || has_elem x xs)
has_elem-set_insert x y xs = ground (arith, eq_iff y x, has_elem-append x xs (y ∷ []))

pub has_elem-set_erase :
    (x y : String) (xs : List String)
    → has_elem x (set_erase y xs) ≡ (not (str_eq y x) && has_elem x xs)
has_elem-set_erase x y [] = ground arith
has_elem-set_erase x y (z ∷ zs) =
    ground (arith, eq_iff z y, eq_iff y x, eq_iff z x, has_elem-set_erase x y zs)

pub lookup-erase_all {ℓ} :
    {V : Type ℓ} (x : String) (ks : List String) (m : List (String × V))
    → lookup x (erase_all ks m) ≡ (if has_elem x ks then none else lookup x m)
lookup-erase_all x [] m = refl
lookup-erase_all x (k ∷ ks) m =
    ground (arith, lookup-erase k x (erase_all ks m), lookup-erase_all x ks m)

-- Whether a map has an entry for a key.
abbrev pub is_some {ℓ} : {V : Type ℓ} → Option V → Bool
is_some none = false
is_some (some v) = true

pub has_elem-keys {ℓ} :
    {V : Type ℓ} (x : String) (m : List (String × V)) → has_elem x (keys m) ≡ is_some (lookup x m)
unfolding lookup
has_elem-keys x [] = refl
has_elem-keys x ((k, v) ∷ m) = ground (arith, has_elem-keys x m)

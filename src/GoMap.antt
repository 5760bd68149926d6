-- ===== src/GoMap.antt =====
-- Go maps: association lists whose keys are distinct. The order in which `range` visits the entries
-- is not specified by the language, so it is a parameter of all that ranges over a map.
pub mod Laws
pub mod Sizes
use mathlib.Core.List.{Permᴰ}
use crossplane_provider_hana.Prelude.{
  ℕ, Bool, true, false, ◌&&◌, not, Option, none, some, List, [], ◌∷◌, map, Eq, ◌==◌, if◌then◌else◌,
  contains, ◌≡◌,
}

abbrev pub GoMap : Type 0 → Type 0 → Type 0
GoMap K V = List (K × V)

-- `range` visits every entry once, in some order.
pub record MapOrder : Type 1 where
  pub range : (A : Type 0) → List A → List A
  pub range_perm : (A : Type 0) (xs : List A) → Permᴰ (range A xs) xs

module _ {K V : Type 0} where
  abbrev pub keys : GoMap K V → List K
  keys [] = []
  keys ((k, v) ∷ m) = k ∷ keys m

module _ {K : Type 0} ⦃e : Eq K⦄ where
  unfoldable pub nodup : List K → Bool
  unfolding contains
  nodup [] = true
  nodup (k ∷ ks) = not (contains ks k) && nodup ks

module _ {K V : Type 0} ⦃e : Eq K⦄ where
  -- v, ok := m[k]
  unfoldable pub lookup : GoMap K V → K → Option V
  lookup [] k = none
  lookup ((j, v) ∷ m) k = if j == k then some v else lookup m k

  -- m[k] = v
  unfoldable pub assign : K → V → GoMap K V → GoMap K V
  assign k v [] = (k, v) ∷ []
  assign k v ((j, w) ∷ m) = let rest = assign k v m in if j == k then (j, v) ∷ m else (j, w) ∷ rest

  -- the invariant of a map: one entry for each key
  abbrev pub IsMap : GoMap K V → Type 0
  IsMap m = nodup (keys m) ≡ true

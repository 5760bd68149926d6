-- ===== src/GoMap/Laws.antt =====
-- Reading a map after a write, and reading it in another order.
use mathlib.Core.List.{Permᴰ}
use mathlib.Core.List.Permᴰ
use crossplane_provider_hana.Prelude.{
  true, false, ◌||◌, Option, none, some, [], ◌∷◌, Eq, ◌==◌, if◌then◌else◌, contains, ◌≡◌, refl, sym,
  ◌∙◌, arith, inl, inr, ap, beq_self, length, Option-cases,
}
use mathlib.Core.Path.{ap₂}
use crossplane_provider_hana.GoMap.{GoMap, MapOrder, keys, nodup, lookup, assign, IsMap}

module _ {K V : Type 0} ⦃e : Eq K⦄ where
  pub lookup-assign :
      (k j : K) (v : V) (m : GoMap K V)
      → lookup (assign k v m) j ≡ (if k == j then some v else lookup m j)
  unfolding lookup assign
  lookup-assign k j v [] = refl
  lookup-assign k j v ((i, w) ∷ m) =
      ground (arith, lookup-assign k j v m, e.beq_iff i k, e.beq_iff i j, e.beq_iff k j)

  pub contains-assign :
      (k j : K) (v : V) (m : GoMap K V)
      → contains (keys (assign k v m)) j ≡ (k == j || contains (keys m) j)
  unfolding contains assign
  contains-assign k j v [] = refl
  contains-assign k j v ((i, w) ∷ m) =
      ground (arith, contains-assign k j v m, e.beq_iff i k, e.beq_iff i j, e.beq_iff k j)

  pub assign-IsMap : (k : K) (v : V) (m : GoMap K V) → IsMap m → IsMap (assign k v m)
  unfolding nodup assign
  assign-IsMap k v [] h = refl
  assign-IsMap k v ((i, w) ∷ m) h =
      ground (arith, assign-IsMap k v m, contains-assign k i v m, e.beq_iff i k, e.beq_iff k i)

  -- A key is in the map exactly when a read finds it.
  pub lookup-none : (m : GoMap K V) (k : K) → contains (keys m) k ≡ false → lookup m k ≡ none
  unfolding contains lookup
  lookup-none [] k h = refl
  lookup-none ((i, w) ∷ m) k h = ground (arith, lookup-none m k)

  pub lookup-some :
      (m : GoMap K V) (k : K) {v : V} → lookup m k ≡ some v → contains (keys m) k ≡ true
  unfolding contains lookup
  lookup-some [] k h = ground arith
  lookup-some ((i, w) ∷ m) k {v} h = ground (arith, lookup-some m k {v = v})

  pub contains-perm :
      {xs ys : GoMap K V} → Permᴰ xs ys → (k : K) → contains (keys xs) k ≡ contains (keys ys) k
  unfolding contains
  contains-perm Permᴰ.nil k = refl
  contains-perm (Permᴰ.cons p d) k =
      ground (arith, ap (λ (x : K × V). x.0 == k) p, contains-perm d k)
  contains-perm (Permᴰ.swap p q) k =
      ground (arith, ap (λ (x : K × V). x.0 == k) p, ap (λ (x : K × V). x.0 == k) q)
  contains-perm (Permᴰ.trans d f) k = contains-perm d k ∙ contains-perm f k

  pub IsMap-perm : {xs ys : GoMap K V} → Permᴰ xs ys → IsMap xs → IsMap ys
  unfolding nodup contains
  IsMap-perm Permᴰ.nil h = refl
  IsMap-perm (Permᴰ.cons {a = a} {b = b} p d) h =
      ground
        (arith, ap (λ (x : K × V). x.0) p, IsMap-perm d, contains-perm d a.0, contains-perm d b.0)
  IsMap-perm (Permᴰ.swap {a = a} {b = b} p q) h = ground (
    arith,
    ap (λ (x : K × V). x.0) p,
    ap (λ (x : K × V). x.0) q,
    e.beq_iff a.0 b.0,
    e.beq_iff b.0 a.0,
  )
  IsMap-perm (Permᴰ.trans d f) h = IsMap-perm f (IsMap-perm d h)

  tail_IsMap : (a : K × V) (m : GoMap K V) → IsMap (a ∷ m) → IsMap m
  unfolding nodup
  tail_IsMap a m h = ground arith

  lookup_swap :
      (a b : K × V) (m : GoMap K V)
      → IsMap (a ∷ b ∷ m)
      → (k : K) → lookup (a ∷ b ∷ m) k ≡ lookup (b ∷ a ∷ m) k
  unfolding nodup contains lookup
  lookup_swap a b m h k = ground (arith, e.beq_iff a.0 k, e.beq_iff b.0 k, e.beq_iff b.0 a.0)

  -- A read does not depend on the order of the entries.
  pub lookup-perm :
      {xs ys : GoMap K V} → Permᴰ xs ys → IsMap xs → (k : K) → lookup xs k ≡ lookup ys k
  unfolding nodup contains lookup
  lookup-perm Permᴰ.nil h k = refl
  lookup-perm (Permᴰ.cons {a = a} {b = b} {l₁ = l} p d) h k =
      ap (λ (x : K × V). lookup (x ∷ l) k) p
      ∙ ap (λ (o : Option V). if b.0 == k then some b.1 else o) (lookup-perm d (tail_IsMap a l h) k)
  lookup-perm (Permᴰ.swap {a = a} {b = b} {l = l} p q) h k =
      lookup_swap a b l h k ∙ ap₂ (λ (x y : K × V). lookup (y ∷ x ∷ l) k) p q
  lookup-perm (Permᴰ.trans d f) h k = lookup-perm d h k ∙ lookup-perm f (IsMap-perm d h) k

  -- `range` visits the entries of a map and nothing else.
  pub lookup-range :
      (o : MapOrder) (m : GoMap K V) → IsMap m → (k : K) → lookup (o.range (K × V) m) k ≡ lookup m k
  lookup-range o m h k = sym (lookup-perm (Permᴰ.symm (o.range_perm (K × V) m)) h k)

  pub range-IsMap : (o : MapOrder) (m : GoMap K V) → IsMap m → IsMap (o.range (K × V) m)
  range-IsMap o m h = IsMap-perm (Permᴰ.symm (o.range_perm (K × V) m)) h

  -- A map in which no read finds anything is empty.
  pub eq_nil_of_lookup : (m : GoMap K V) → ((k : K) → lookup m k ≡ none) → m ≡ []
  unfolding lookup
  eq_nil_of_lookup [] h = refl
  eq_nil_of_lookup ((k, v) ∷ m) h = absurd (ground (arith, h k, beq_self k))

  no_key : (m : GoMap K V) (k : K) → lookup m k ≡ none → contains (keys m) k ≡ true → ⊥
  unfolding lookup contains
  no_key [] k e h = ground arith
  no_key ((j, v) ∷ m) k e h = ground (arith, no_key m k)

  pub lookup_of_key :
      (m : GoMap K V) (k : K) → contains (keys m) k ≡ true → (v : V) × (lookup m k ≡ some v)
  lookup_of_key m k h = elim (Option-cases (lookup m k)) [
    | inl e ↦ absurd (no_key m k e h)
    | inr (v, e) ↦ (v, e)
  ]

pub length-keys : {K V : Type 0} (m : GoMap K V) → length (keys m) ≡ length m
length-keys [] = refl
length-keys ((k, v) ∷ m) = omega (arith, length-keys m)

-- ===== src/GoMap/Sizes.antt =====
-- Counting arguments on lists without repetitions: the step from "as large" to "the same".
use crossplane_provider_hana.Prelude.{
  suc, ◌≤◌, true, false, List, [], ◌∷◌, Eq, ◌==◌, if◌then◌else◌, length, contains, ◌≡◌, arith,
  Bool-cases, inl, inr, beq_self,
}
use crossplane_provider_hana.GoMap.{nodup}

module _ {K : Type 0} ⦃e : Eq K⦄ where
  remove : K → List K → List K
  remove k [] = []
  remove k (j ∷ ks) = let rest = remove k ks in if j == k then ks else j ∷ rest

  length-remove :
      (k : K) (ks : List K) → contains ks k ≡ true → length ks ≡ suc (length (remove k ks))
  unfolding contains remove
  length-remove k [] h = ground arith
  length-remove k (j ∷ ks) h = ground (arith, length-remove k ks)

  contains-remove :
      (k j : K) (ks : List K)
      → (k == j ≡ false)
      → contains ks j ≡ true
      → contains (remove k ks) j ≡ true
  unfolding contains remove
  contains-remove k j [] d h = h
  contains-remove k j (i ∷ ks) d h =
      ground (arith, contains-remove k j ks, e.beq_iff i k, e.beq_iff i j, e.beq_iff k j)

  nodup_ne : (k j : K) (ks : List K) → contains ks k ≡ false → contains ks j ≡ true → k == j ≡ false
  unfolding contains
  nodup_ne k j [] h g = ground arith
  nodup_ne k j (i ∷ ks) h g =
      ground (arith, nodup_ne k j ks, e.beq_iff i k, e.beq_iff k j, e.beq_iff i j)

  -- A list without repetitions is no longer than a list that holds its elements.
  pub nodup-length :
      (xs ys : List K)
      → nodup xs ≡ true
      → ((k : K) → contains xs k ≡ true → contains ys k ≡ true)
      → length xs ≤ length ys
  unfolding nodup contains
  nodup-length [] ys h sub = omega arith
  nodup-length (x ∷ xs) ys h sub =
      let here : contains ys x ≡ true = sub x (ground (arith, beq_self x)) in
      let fresh : contains xs x ≡ false = ground arith in
      let rest : nodup xs ≡ true = ground arith in
      omega (
        arith,
        length-remove x ys here,
        nodup-length xs (remove x ys) rest
            (λ k m. contains-remove x k ys (nodup_ne x k xs fresh m) (sub k (ground (arith, m)))),
      )

  nodup_cons :
      (k : K) (xs : List K) → contains xs k ≡ false → nodup xs ≡ true → nodup (k ∷ xs) ≡ true
  unfolding nodup
  nodup_cons k xs g h = ground arith

  sub_cons :
      (xs ys : List K)
      → ((k : K) → contains xs k ≡ true → contains ys k ≡ true)
      → (k : K) → contains ys k ≡ true
      → (j : K) → contains (k ∷ xs) j ≡ true
      → contains ys j ≡ true
  unfolding contains
  sub_cons xs ys sub k m j p = elim (Bool-cases (k == j)) [
    | inl same ↦ rw (← (e.beq_iff k j).0 same) m
    | inr other ↦ sub j (ground arith)
  ]

  -- Two lists without repetitions, of one length, of which one holds the other: they hold the same.
  pub nodup_full :
      (xs ys : List K)
      → nodup xs ≡ true
      → length xs ≡ length ys
      → ((k : K) → contains xs k ≡ true → contains ys k ≡ true)
      → (k : K) → contains ys k ≡ true
      → contains xs k ≡ true
  nodup_full xs ys h same sub k m = elim (Bool-cases (contains xs k)) [
    | inl there ↦ there
    | inr missing ↦ absurd (
        omega
          (arith, nodup-length (k ∷ xs) ys (nodup_cons k xs missing h) (sub_cons xs ys sub k m)))
  ]

-- ===== src/Clients/Certificate/Chain.antt =====
-- The loop over a PEM chain.
use crossplane_provider_hana.Prelude.{
  ℕ, zero, suc, ◌<◌, Bool, true, false, Option, none, some, List, [], ◌∷◌, ◌++◌, if◌then◌else◌,
  length, ◌≡◌, refl, sym, arith, ◌∙◌,
}
use crossplane_provider_hana.Text.{Text, is_empty, trim_space}
use crossplane_provider_hana.Errors.{Result, ok, err}
use crossplane_provider_hana.Clients.Certificate.{
  Block, Encodings, checked_block, split_chain, split_pem_chain,
}

-- Two runs of the loop agree, and have not run out of fuel.
abbrev IsEnough : Option (Result (List Text)) → Option (Result (List Text)) → Type 0
IsEnough x y = (x ≡ y) × ((r : Result (List Text)) × (x ≡ some r))

tested :
    (b : Bool) (r : Result (List Text)) {x y : Option (Result (List Text))}
    → IsEnough x y
    → IsEnough (if b then some r else x) (if b then some r else y)
tested true r w = (refl, (r, refl))
tested false r w = w

module _ (e : Encodings)
    (shorter : (s rest : Text) (b : Block)
      → e.decode s ≡ some (b, rest)
      → length rest < length s) where
  checked-shorter :
      (s : Text) (x : Option (Block × Text)) {c rest : Text}
      → e.decode s ≡ x
      → checked_block e x ≡ ok (c, rest)
      → length rest < length s
  checked-shorter s none d h = cc
  checked-shorter s (some (b, r)) d h = ground (arith, shorter s r b d)

  round-IsEnough :
      (n m : ℕ) (acc : List Text) (s : Text) (x : Result (Text × Text))
      → ((acc' : List Text) (rest : Text)
          → length rest < length s
          → IsEnough (split_chain e n acc' rest) (split_chain e m acc' rest))
      → ((c rest : Text) → x ≡ ok (c, rest) → length rest < length s)
      → let round : ℕ → Option (Result (List Text)) = λ k. elim x [
        | err failure ↦ some (err failure)
        | ok (c, rest) ↦ split_chain e k (acc ++ c ∷ []) rest
      ] in
        IsEnough (round n) (round m)
  round-IsEnough n m acc s (ok (c, rest)) f g = f (acc ++ c ∷ []) rest (g c rest refl)
  round-IsEnough n m acc s (err failure) f g = (refl, (err failure, refl))

  chain-IsEnough :
      (n m : ℕ) (acc : List Text) (s : Text)
      → length s < n
      → length s < m
      → IsEnough (split_chain e n acc s) (split_chain e m acc s)
  unfolding split_chain
  chain-IsEnough zero m acc s h k = absurd (omega arith)
  chain-IsEnough (suc n) zero acc s h k = absurd (omega arith)
  chain-IsEnough (suc n) (suc m) acc s h k = tested (is_empty (trim_space s)) _ (
      round-IsEnough n m acc s (checked_block e (e.decode s))
        (λ acc' rest l. chain-IsEnough n m acc' rest (omega arith) (omega arith))
        (λ c rest d. checked-shorter s (e.decode s) refl d))

  -- The loop of splitPEMChain ends: with any fuel greater than the length of the data it does not run
  -- out, and gives what splitPEMChain returns.
  pub split_chain_ends :
      (n : ℕ) (pem_data : Text)
      → length pem_data < n
      → split_chain e n [] pem_data ≡ some (split_pem_chain e pem_data)
  unfolding split_pem_chain
  split_chain_ends n s h =
      let (same, (r, found)) = chain-IsEnough (suc (length s)) n [] s (omega arith) h in
      sym same ∙ rw found refl

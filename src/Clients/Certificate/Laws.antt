-- ===== src/Clients/Certificate/Laws.antt =====
-- The transactions of Create and Delete.
use crossplane_provider_hana.Prelude.{
  Bool, true, false, Option, none, some, List, [], ◌∷◌, ◌++◌, ◌≡◌, refl, ◌∙◌,
}
use crossplane_provider_hana.Text.{Text}
use crossplane_provider_hana.Errors.{Err, Result, ok, err}
use crossplane_provider_hana.Exec.{bind_ok, continue, or_fail, ◌>>=◌, ◌>>◌}
use crossplane_provider_hana.Sql.{
  Database, History, Stmt, Kind, plain, control, transaction, Sql, exec, query,
}
use crossplane_provider_hana.Apis.{CertificateParameters, CertificateObservation}
use crossplane_provider_hana.Clients.Certificate.{
  Encodings, split_pem_chain, create_each, create, drop_each, drop_all, delete, read, deferring,
  rollback_on_error, drop_observed, create_query, query_certificates, of_rows, derived_name,
  create_named,
}

abbrev after : Kind → Bool → Bool
after Kind.statement b = b
after Kind.begin b = true
after Kind.commit b = false
after Kind.rollback b = false

-- Whether a transaction has begun that neither Commit nor Rollback has ended.
unfoldable pub in_transaction : Bool → History → Bool
in_transaction b [] = b
in_transaction b (s ∷ h) = in_transaction (after s.kind b) h

in_transaction-append :
    (b : Bool) (h : History) (s : Stmt)
    → in_transaction b (h ++ s ∷ []) ≡ after s.kind (in_transaction b h)
unfolding in_transaction
in_transaction-append b [] s = refl
in_transaction-append b (t ∷ h) s = in_transaction-append (after t.kind b) h s

module _ (db : Database) where
  rollback_ends :
      (r : Result (Unit {0})) (h : History)
      → (r ≡ ok tt → in_transaction false h ≡ false)
      → in_transaction false (rollback_on_error db r h).1 ≡ false
  unfolding transaction
  rollback_ends (ok tt) h f = f refl
  rollback_ends (err e) h f = in_transaction-append false h (control Kind.rollback)

  commit_ends :
      (m : Sql (Unit {0})) (f : Err → Err) (h : History)
      → ((m >> or_fail f (transaction db Kind.commit)) h).0 ≡ ok tt
      → in_transaction false ((m >> or_fail f (transaction db Kind.commit)) h).1 ≡ false
  unfolding transaction
  commit_ends m f h p =
      let (_, a, s) = bind_ok m (λ _. or_fail f (transaction db Kind.commit)) h p in
      rw s (in_transaction-append false (m h).1 (control Kind.commit))

  deferring_ends :
      (m : Sql (Unit {0})) (f : Err → Err) (h : History)
      → in_transaction false (deferring db (m >> or_fail f (transaction db Kind.commit)) h).1
        ≡ false
  deferring_ends m f h = rollback_ends _ _ (commit_ends m f h)

-- Steps that neither begin nor end a transaction.
abbrev Keeps : {A : Type 0} → Sql A → Type 0
Keeps m = (h : History) → in_transaction false (m h).1 ≡ in_transaction false h

continue-Keeps :
    {A B : Type 0} (r : Result A) (f : A → Sql B) (h : History)
    → ((a : A) → Keeps (f a))
    → in_transaction false (continue r f h).1 ≡ in_transaction false h
continue-Keeps (ok a) f h k = k a h
continue-Keeps (err x) f h k = refl

bind-Keeps :
    {A B : Type 0} (m : Sql A) (f : A → Sql B) → Keeps m → ((a : A) → Keeps (f a)) → Keeps (m >>= f)
bind-Keeps m f k l h = continue-Keeps (m h).0 f (m h).1 l ∙ k h

module _ (db : Database) (e : Encodings) where
  exec-Keeps : (q : Text) → Keeps (exec db q)
  unfolding exec
  exec-Keeps q h = in_transaction-append false h (plain q)

  create_each-Keeps :
      (base : Text) (certificates : List Text) → Keeps (create_each db e base certificates)
  unfolding create_each
  create_each-Keeps base [] = λ h. refl
  create_each-Keeps base (cert ∷ certificates) =
      bind-Keeps (derived_name db e base cert)
        (λ name. create_named db e cert name >> create_each db e base certificates) (λ h. refl)
        λ name.
          bind-Keeps (create_named db e cert name) (λ _. create_each db e base certificates)
            (exec-Keeps (create_query name cert)) λ u. create_each-Keeps base certificates

  read-Keeps : (parameters : CertificateParameters) → Keeps (read db parameters)
  unfolding read query
  read-Keeps parameters =
      bind-Keeps (query_certificates db parameters) of_rows (λ h. in_transaction-append false h _)
        λ rows h. refl

  drop_observed_ends :
      (observed : Option CertificateObservation) (h : History)
      → ((g : History) → db.on_exec g (control Kind.begin) ≡ none)
      → in_transaction false h ≡ false
      → in_transaction false (drop_observed db e observed h).1 ≡ false
  unfolding drop_all transaction
  drop_observed_ends none h b n = n
  drop_observed_ends (some observed) h b n =
      rw (b h)
        (deferring_ends db (drop_each db e observed.certificates) _ (h ++ control Kind.begin ∷ []))

  continue_ends :
      (r : Result (Option CertificateObservation)) (h : History)
      → ((g : History) → db.on_exec g (control Kind.begin) ≡ none)
      → in_transaction false h ≡ false
      → in_transaction false (continue r (drop_observed db e) h).1 ≡ false
  continue_ends (ok observed) h b n = drop_observed_ends observed h b n
  continue_ends (err x) h b n = n

  -- A Delete that could begin its transaction leaves none that is neither committed nor rolled back,
  -- whatever the database answers.
  pub certificate_delete_ends :
      (parameters : CertificateParameters) (h : History)
      → ((g : History) → db.on_exec g (control Kind.begin) ≡ none)
      → in_transaction false h ≡ false
      → in_transaction false (delete db e parameters h).1 ≡ false
  unfolding delete
  certificate_delete_ends parameters h b n = continue_ends _ _ b (read-Keeps parameters h ∙ n)

  -- A Create that fails at one of its certificates, after it has begun its transaction, returns the
  -- failure and leaves the transaction open: nothing commits it and nothing rolls it back.
  pub certificate_create_leaves_open :
      (parameters : CertificateParameters) (certificate_pem : Text) (certificates : List Text)
      (h : History) {failure : Err}
      → split_pem_chain e certificate_pem ≡ ok certificates
      → db.on_exec h (control Kind.begin) ≡ none
      → (create_each db e parameters.name certificates (h ++ control Kind.begin ∷ [])).0
        ≡ err failure
      → let after_create = create db e parameters certificate_pem h in
        (after_create.0 ≡ err failure) × (in_transaction false after_create.1 ≡ true)
  unfolding create transaction
  certificate_create_leaves_open parameters pem certificates h s b f =
      let h' = h ++ control Kind.begin ∷ [] in
      rw (s, b, f)
        (
          refl,
          create_each-Keeps parameters.name certificates h'
              ∙ in_transaction-append false h (control Kind.begin),
        )

-- ===== src/Controllers/Kyma/Laws.antt =====
-- What Create of a KymaInstanceMapping leaves in the management cluster.
use crossplane_provider_hana.Prelude.{
  Bool, true, false, Option, none, some, List, [], ◌∷◌, ◌++◌, ◌≡◌, refl, sym, ap, arith, ◌∙◌, ◌⊎◌,
  inl, inr, append_assoc, Bool-cases, if◌then◌else◌,
}
use crossplane_provider_hana.Text.{lit, text_eq}
use crossplane_provider_hana.Errors.{Err, Result, ok, err, wrap}
use crossplane_provider_hana.Exec.{bind_ok, continue, fail, relabel, ◌>>◌}
use crossplane_provider_hana.GoMap.{lookup}
use crossplane_provider_hana.Hanacloud.{Http, succeed_unless}
use crossplane_provider_hana.Controllers.Kyma.{
  KymaExtractedData, KymaResource, ChildMapping, Secret, Write, Management,
}
use crossplane_provider_hana.Controllers.Kyma.Handlers.{
  write, refresh, or_refresh, unless_exists, ensure_secret, ensure_mapping, create,
  creating_children, desired_secret, desired_mapping, build_credentials_json,
}

-- How a write fares that has an object as its outcome: the cluster accepts it, or answers that the
-- object is there already.
pub data IsThere (m : Management) (before : List Write) (w : Write) : Type 0 where
  accepted : m.on_write before w ≡ none → IsThere m before w
  already :
      (e : Err) → m.on_write before w ≡ some e → m.is_already_exists e ≡ true → IsThere m before w

-- The writes for a secret: its creation is accepted, or it is there already and the cluster accepts
-- an update of the secret that it holds under the name, which replaces the data.
pub data IsEnsured (m : Management) (secret : Secret) (before : List Write)
    : List Write → Type 0 where
  fresh :
      m.on_write before (Write.create_secret secret) ≡ none
      → IsEnsured m secret before (Write.create_secret secret ∷ [])
  refreshed :
      (e : Err) (existing : Secret)
      → m.on_write before (Write.create_secret secret) ≡ some e
      → m.is_already_exists e ≡ true
      → m.get_secret (before ++ Write.create_secret secret ∷ []) secret.namespace secret.name
        ≡ ok existing
      → m.on_write
          (before ++ Write.create_secret secret ∷ [])
          (Write.update_secret (record existing { secret_data = secret.secret_data }))
        ≡ none
      → IsEnsured m secret before (
          Write.create_secret secret
          ∷ Write.update_secret (record existing { secret_data = secret.secret_data })
          ∷ [])

relabel_ok : (f : Err → Err) (o : Option Err) → relabel f (succeed_unless o) ≡ ok tt → o ≡ none
relabel_ok f none h = refl
relabel_ok f (some e) h = cc

module _ (m : Management) (secret : Secret) where
  abbrev refreshed_write : Secret → Write
  refreshed_write existing =
      Write.update_secret (record existing { secret_data = secret.secret_data })

  refresh_lem :
      (r : Result Secret) (s : KymaResource)
      → m.get_secret s.writes secret.namespace secret.name ≡ r
      → (refresh m secret s).0 ≡ ok tt
      → (existing : Secret) × (r ≡ ok existing)
        × (m.on_write s.writes (refreshed_write existing) ≡ none)
        × ((refresh m secret s).1.writes ≡ s.writes ++ refreshed_write existing ∷ [])
  refresh_lem (ok existing) s e h =
      let label = wrap (lit "cannot update credentials secret: ") in
      let step : (refresh m secret s).0
          ≡ relabel label (succeed_unless (m.on_write s.writes (refreshed_write existing))) =
        rw e refl in
      (existing, refl, relabel_ok label _ (sym step ∙ h), rw e refl)
  refresh_lem (err x) s e h =
      let f : (refresh m secret s).0 ≡ err (wrap (lit "cannot update credentials secret: ") x) =
        rw e refl in
      cc

  refresh_or_fail :
      (before : List Write) (exists' : Bool) (x : Err) (s : KymaResource)
      → let handler =
          if exists'
          then refresh m secret
          else fail (wrap (lit "cannot create credentials secret: ") x) in
        m.on_write before (Write.create_secret secret) ≡ some x
        → m.is_already_exists x ≡ exists'
        → s.writes ≡ before ++ Write.create_secret secret ∷ []
        → (handler s).0 ≡ ok tt
        → (ws : List Write) × IsEnsured m secret before ws × ((handler s).1.writes ≡ before ++ ws)
  refresh_or_fail before false x s a t e h = cc
  refresh_or_fail before true x s a t e h =
      let (existing, g, u, w) = refresh_lem _ s refl h in
      (
        Write.create_secret secret ∷ refreshed_write existing ∷ [],
        IsEnsured.refreshed x existing a t
            (ap (λ (ws : List Write). m.get_secret ws secret.namespace secret.name) (sym e) ∙ g)
            (ap (λ (ws : List Write). m.on_write ws (refreshed_write existing)) (sym e) ∙ u),
        w
            ∙ (ap (λ (ws : List Write). ws ++ refreshed_write existing ∷ []) e
                ∙ append_assoc before (Write.create_secret secret ∷ [])
                    (refreshed_write existing ∷ [])),
      )

  or_refresh_lem :
      (before : List Write) (answer : Option Err) (s : KymaResource)
      → m.on_write before (Write.create_secret secret) ≡ answer
      → s.writes ≡ before ++ Write.create_secret secret ∷ []
      → (or_refresh m secret (succeed_unless answer) s).0 ≡ ok tt
      → (ws : List Write) × IsEnsured m secret before ws
        × ((or_refresh m secret (succeed_unless answer) s).1.writes ≡ before ++ ws)
  or_refresh_lem before none s a e h = (Write.create_secret secret ∷ [], IsEnsured.fresh a, e)
  or_refresh_lem before (some x) s a e h =
      refresh_or_fail before (m.is_already_exists x) x s a refl e h

  ensure_secret_lem :
      (s : KymaResource)
      → (ensure_secret m secret s).0 ≡ ok tt
      → (ws : List Write) × IsEnsured m secret s.writes ws
        × ((ensure_secret m secret s).1.writes ≡ s.writes ++ ws)
  unfolding ensure_secret
  ensure_secret_lem s h =
      or_refresh_lem s.writes _ (write m (Write.create_secret secret) s).1 refl refl h

module _ (m : Management) (im : ChildMapping) where
  unless_exists_lem :
      (before : List Write) (answer : Option Err)
      → m.on_write before (Write.create_mapping im) ≡ answer
      → unless_exists m (succeed_unless answer) ≡ ok tt
      → IsThere m before (Write.create_mapping im)
  unless_exists_lem before none a h = IsThere.accepted a
  unless_exists_lem before (some e) a h = elim (Bool-cases (m.is_already_exists e)) [
    | inl t ↦ IsThere.already e a t
    | inr f ↦ absurd (ground (arith, f))
  ]

  ensure_mapping_lem :
      (s : KymaResource)
      → (ensure_mapping m im s).0 ≡ ok tt
      → IsThere m s.writes (Write.create_mapping im)
  unfolding ensure_mapping
  ensure_mapping_lem s h = unless_exists_lem s.writes _ refl h

mark_writes :
    (m : Management) (r : Result (Unit {0})) (s : KymaResource)
    → (continue r (λ _. creating_children m) s).1.writes ≡ s.writes
mark_writes m (ok u) s = refl
mark_writes m (err e) s = refl

finish_writes :
    (m : Management) (im : ChildMapping) (s : KymaResource)
    → ((ensure_mapping m im >> creating_children m) s).1.writes
      ≡ s.writes ++ Write.create_mapping im ∷ []
unfolding ensure_mapping
finish_writes m im s =
    mark_writes m _ (record s { writes = s.writes ++ Write.create_mapping im ∷ [] })

-- A Create that succeeds has created the secret or, where the cluster answered that it is there,
-- replaced its data, and has then created the mapping, unless the cluster answered that it is there;
-- it has written nothing else. The mapping refers to that secret, whose data under the key of the
-- reference are the credentials of the cluster.
pub kyma_create-IsEnsured :
    (m : Management) (http : Http) (kyma_data : KymaExtractedData) (s : KymaResource)
    → let secret = desired_secret http kyma_data s in
      let im = desired_mapping kyma_data s in
      let ref = im.spec.admin_credentials_secret_ref in
      (create m http kyma_data s).0 ≡ ok tt
      → ((ws : List Write) × IsEnsured m secret s.writes ws
          × IsThere m (s.writes ++ ws) (Write.create_mapping im)
          × ((create m http kyma_data s).1.writes
              ≡ (s.writes ++ ws) ++ Write.create_mapping im ∷ []))
        × (ref.name ≡ secret.name)
        × (ref.namespace ≡ secret.namespace)
        × (lookup secret.secret_data ref.key
            ≡ some (build_credentials_json http kyma_data.admin_api_credentials))
unfolding create desired_secret desired_mapping lookup crossplane_provider_hana.Prelude.list_eq
kyma_create-IsEnsured m http kyma_data s h =
    let im = desired_mapping kyma_data s in
    let first = ensure_secret m (desired_secret http kyma_data s) in
    let second = ensure_mapping m im in
    let result = λ (r : Result (Unit {0}) × KymaResource). r.0 in
    let (_, a, step) = bind_ok first (λ _. second >> creating_children m) s h in
    let (_, b, _) =
      bind_ok second (λ _. creating_children m) (first s).1 (ap result (sym step) ∙ h) in
    let (ws, w, e) = ensure_secret_lem m (desired_secret http kyma_data s) s a in
    (
      (
        ws,
        w,
        rw (← e) (ensure_mapping_lem m im (first s).1 b),
        ap (λ (r : Result (Unit {0}) × KymaResource). r.1.writes) step
            ∙ (finish_writes m im (first s).1
                ∙ ap (λ (x : List Write). x ++ Write.create_mapping im ∷ []) e),
      ),
      refl,
      refl,
      refl,
    )

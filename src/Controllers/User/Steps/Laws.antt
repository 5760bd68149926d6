-- ===== src/Controllers/User/Steps/Laws.antt =====
-- What a step of Update that fails leaves behind, and what no step changes.
use crossplane_provider_hana.Prelude.{◌≡◌, arith}
use crossplane_provider_hana.Text.{Text, text_eq}
use crossplane_provider_hana.Errors.{Err, err}
use crossplane_provider_hana.Sql.{Database}
use crossplane_provider_hana.GoMap.{MapOrder}
use crossplane_provider_hana.Apis.{UserParameters, UserObservation}
use crossplane_provider_hana.Controllers.User.{Kube, UserResource, Handler}
use crossplane_provider_hana.Controllers.User.Steps.{
  update_privileges, update_roles, update_parameters, update_x509_providers, update_usergroup,
  update_password_lifetime_check, update_password, toggle_password,
}

-- A step keeps the specification and the condition, and keeps the status too where it fails.
record IsCareful (step : Handler (Unit {0})) : Type 0 where
  same_spec : (cr : UserResource) → (step cr).1.spec ≡ cr.spec
  same_ready : (cr : UserResource) → (step cr).1.ready ≡ cr.ready
  same_status : (cr : UserResource) (e : Err) → (step cr).0 ≡ err e → (step cr).1.status ≡ cr.status

module _ (db : Database) (kube : Kube) (o : MapOrder) (username : Text) (desired : UserParameters)
    (observed : UserObservation) where
  update_privileges-IsCareful : IsCareful (update_privileges db o username desired observed)
  unfolding update_privileges
  update_privileges-IsCareful = record {
    same_spec = λ cr. ground arith;
    same_ready = λ cr. ground arith;
    same_status = λ cr e h. ground arith;
  }

  update_roles-IsCareful : IsCareful (update_roles db o desired observed)
  unfolding update_roles
  update_roles-IsCareful = record {
    same_spec = λ cr. ground arith;
    same_ready = λ cr. ground arith;
    same_status = λ cr e h. ground arith;
  }

  update_parameters-IsCareful : IsCareful (update_parameters db o desired observed)
  unfolding update_parameters
  update_parameters-IsCareful = record {
    same_spec = λ cr. ground arith;
    same_ready = λ cr. ground arith;
    same_status = λ cr e h. ground arith;
  }

  update_x509_providers-IsCareful : IsCareful (update_x509_providers db o kube desired observed)
  unfolding update_x509_providers
  update_x509_providers-IsCareful = record {
    same_spec = λ cr. ground arith;
    same_ready = λ cr. ground arith;
    same_status = λ cr e h. ground arith;
  }

  update_usergroup-IsCareful : IsCareful (update_usergroup db desired observed)
  unfolding update_usergroup
  update_usergroup-IsCareful = record {
    same_spec = λ cr. ground arith;
    same_ready = λ cr. ground arith;
    same_status = λ cr e h. ground arith;
  }

  lifetime_check-IsCareful : IsCareful (update_password_lifetime_check db desired observed)
  unfolding update_password_lifetime_check
  lifetime_check-IsCareful = record {
    same_spec = λ cr. ground arith;
    same_ready = λ cr. ground arith;
    same_status = λ cr e h. ground arith;
  }

  update_password-IsCareful : IsCareful (update_password db kube desired)
  unfolding update_password toggle_password
  update_password-IsCareful = record {
    same_spec = λ cr. ground arith;
    same_ready = λ cr. ground arith;
    same_status = λ cr e h. ground arith;
  }

  -- The seven steps of Update.
  pub data IsStep : Handler (Unit {0}) → Type 0 where
    privileges : IsStep (update_privileges db o username desired observed)
    roles : IsStep (update_roles db o desired observed)
    parameters : IsStep (update_parameters db o desired observed)
    usergroup : IsStep (update_usergroup db desired observed)
    x509_providers : IsStep (update_x509_providers db o kube desired observed)
    lifetime_check : IsStep (update_password_lifetime_check db desired observed)
    password : IsStep (update_password db kube desired)

  every_step-IsCareful : (step : Handler (Unit {0})) → IsStep step → IsCareful step
  every_step-IsCareful _ privileges = update_privileges-IsCareful
  every_step-IsCareful _ roles = update_roles-IsCareful
  every_step-IsCareful _ parameters = update_parameters-IsCareful
  every_step-IsCareful _ usergroup = update_usergroup-IsCareful
  every_step-IsCareful _ x509_providers = update_x509_providers-IsCareful
  every_step-IsCareful _ lifetime_check = lifetime_check-IsCareful
  every_step-IsCareful _ password = update_password-IsCareful

  -- A step of Update that fails leaves the specification, the status and the Ready condition as they
  -- were.
  pub failed_step :
      (step : Handler (Unit {0}))
      → IsStep step
      → (cr : UserResource) (e : Err) → (step cr).0 ≡ err e
      → ((step cr).1.spec ≡ cr.spec)
        × ((step cr).1.status ≡ cr.status)
        × ((step cr).1.ready ≡ cr.ready)
  failed_step step is_step cr e h =
      let careful = every_step-IsCareful step is_step in
      (careful.same_spec cr, careful.same_status cr e h, careful.same_ready cr)

-- ===== src/Controllers/Instancemapping/Laws.antt =====
-- What Observe of an instance mapping reports.
use crossplane_provider_hana.Prelude.{
  Bool, true, false, Option, none, some, List, [], ◌∷◌, ◌≡◌, refl, ap, arith, ◌↔◌, inl, inr,
  Bool-cases,
}
use crossplane_provider_hana.Text.{Text, text_eq}
use crossplane_provider_hana.Errors.{ok}
use crossplane_provider_hana.Hanacloud as Rest
use crossplane_provider_hana.Hanacloud.{Http, InstanceMapping}
use crossplane_provider_hana.Controllers.Instancemapping.{
  InstanceMappingParameters, InstanceMappingResource, string_ptr_equal, is_mapping, any_mapping,
  observe, report,
}

-- A list holds the mapping of the parameters.
pub data IsListed (params : InstanceMappingParameters) : List InstanceMapping → Type 0 where
  here :
      {m : InstanceMapping} {ms : List InstanceMapping}
      → m.primary_id ≡ params.primary_id
      → m.secondary_id ≡ params.secondary_id
      → IsListed params (m ∷ ms)
  there :
      {m : InstanceMapping} {ms : List InstanceMapping}
      → IsListed params ms
      → IsListed params (m ∷ ms)

abbrev unwrap : Option Text → Text
unwrap none = []
unwrap (some a) = a

string_ptr_equal_iff : (a b : Option Text) → (string_ptr_equal a b ≡ true) ↔ (a ≡ b)
unfolding string_ptr_equal
string_ptr_equal_iff none none = (λ h. refl, λ e. refl)
string_ptr_equal_iff none (some b) = (λ h. cc, λ e. cc)
string_ptr_equal_iff (some a) none = (λ h. cc, λ e. cc)
string_ptr_equal_iff (some a) (some b) =
    (λ h. ap some ((text_eq.beq_iff a b).0 h), λ e. (text_eq.beq_iff a b).1 (ap unwrap e))

module _ (params : InstanceMappingParameters) where
  is_mapping_iff :
      (m : InstanceMapping)
      → (is_mapping params m ≡ true)
        ↔ ((m.primary_id ≡ params.primary_id) × (m.secondary_id ≡ params.secondary_id))
  unfolding is_mapping
  is_mapping_iff m =
      let (p, q) = text_eq.beq_iff m.primary_id params.primary_id in
      let (r, s) = string_ptr_equal_iff m.secondary_id params.secondary_id in
      (λ h. (p (ground arith), r (ground arith)), λ (e, f). ground (arith, q e, s f))

  IsListed-found : (ms : List InstanceMapping) → any_mapping params ms ≡ true → IsListed params ms
  unfolding any_mapping
  IsListed-found [] h = cc
  IsListed-found (m ∷ ms) h = elim (Bool-cases (is_mapping params m)) [
    | inl y ↦ let (e, f) = (is_mapping_iff m).0 y in IsListed.here e f
    | inr n ↦ IsListed.there (IsListed-found ms (ground arith))
  ]

  any_mapping-IsListed :
      {ms : List InstanceMapping} → IsListed params ms → any_mapping params ms ≡ true
  unfolding any_mapping
  any_mapping-IsListed (IsListed.here {m} e f) = rw ((is_mapping_iff m).1 (e, f)) refl
  any_mapping-IsListed (IsListed.there {m} l) = ground (arith, any_mapping-IsListed l)

reported :
    (now : Text) (b : Bool) (s : InstanceMappingResource)
    → ((report now b s).0 ≡ ok (record { resource_exists = true; resource_up_to_date = true }))
      ↔ (b ≡ true)
reported now true s = (λ h. refl, λ e. refl)
reported now false s = (λ h. ground arith, λ e. cc)

-- Where the service answers Observe with a list of mappings, the resource is reported as there and up
-- to date exactly when the list holds a mapping with both of its identifiers.
pub instancemapping_observe_iff :
    (http : Http) (base_url now : Text) (s : InstanceMappingResource) (ms : List InstanceMapping)
    → (Rest.list http base_url s.spec.service_instance_id s.requests).0 ≡ ok ms
    → ((observe http base_url now s).0
        ≡ ok (record { resource_exists = true; resource_up_to_date = true }))
      ↔ IsListed s.spec ms
unfolding observe
instancemapping_observe_iff http base_url now s ms h =
    let (f, g) =
      reported now (any_mapping s.spec ms) (record s {
        requests = (Rest.list http base_url s.spec.service_instance_id s.requests).1;
      }) in
    rw h (λ e. IsListed-found s.spec ms (f e), λ l. g (any_mapping-IsListed s.spec l))

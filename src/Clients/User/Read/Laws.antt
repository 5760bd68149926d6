-- ===== src/Clients/User/Read/Laws.antt =====
-- The parameters that Read of a user returns are a map.
use crossplane_provider_hana.Prelude.{List, [], ◌∷◌, ◌≡◌, refl, arith}
use crossplane_provider_hana.Text.{Text, lit, text_eq}
use crossplane_provider_hana.Errors.{Result, ok, err}
use crossplane_provider_hana.Sql.{Database, History, Row, Rows, query}
use crossplane_provider_hana.GoMap.{GoMap, IsMap, nodup}
use crossplane_provider_hana.GoMap.Laws.{assign-IsMap}
use crossplane_provider_hana.Apis.{UserParameters, UserObservation}
use crossplane_provider_hana.Privilege.Queries.{Pair}
use crossplane_provider_hana.Clients.Usergroup.{parameter_rows, assign_scanned}
use crossplane_provider_hana.Clients.User.Read.{
  parameters_of, read_more, read, after_row, query_parameters,
}

assign_scanned-IsMap :
    (r : Result (Text × Text)) (m : GoMap Text Text) → IsMap m → IsMap (assign_scanned r m)
assign_scanned-IsMap (ok (key, value)) m h = assign-IsMap key value m h
assign_scanned-IsMap (err e) m h = h

parameter_rows-IsMap :
    (rows : List Row) (m : GoMap Text Text) → IsMap m → IsMap (parameter_rows rows m)
unfolding parameter_rows
parameter_rows-IsMap [] m h = h
parameter_rows-IsMap (row ∷ rows) m h = parameter_rows-IsMap rows _ (assign_scanned-IsMap _ m h)

parameters_of-IsMap : (answer : Result Rows) → IsMap (parameters_of answer).0
unfolding nodup
parameters_of-IsMap (ok r) = parameter_rows-IsMap r.rows [] refl
parameters_of-IsMap (err e) = refl

-- The steps of Read that hand back a map of parameters.
abbrev HasMap : Pair History UserObservation → Type 0
HasMap m = (h : History) → IsMap ((m h).0).0.parameters

module _ (db : Database) (parameters : UserParameters) (password : Text) where
  read_more_parameters :
      (observed : UserObservation) (h : History)
      → ((read_more db parameters password observed h).0).0.parameters
        ≡ ((query_parameters db parameters.username h).0).0
  unfolding read_more
  read_more_parameters observed h = ground arith

  read_more-HasMap :
      (observed : UserObservation) → HasMap (read_more db parameters password observed)
  unfolding query_parameters
  read_more-HasMap observed h = rw (read_more_parameters observed h) (
      parameters_of-IsMap
        (query db
          (lit "SELECT USER_NAME, PARAMETER, VALUE FROM SYS.USER_PARAMETERS WHERE USER_NAME = ?")
          (parameters.username ∷ []) h).0)

  after_row-HasMap : (row : Result UserObservation) → HasMap (after_row db parameters password row)
  unfolding nodup
  after_row-HasMap (ok observed) h = read_more-HasMap observed h
  after_row-HasMap (err e) h = refl

  -- The parameters that Read returns are a map, whatever the database answers.
  pub read-HasMap : (h : History) → IsMap ((read db parameters password h).0).0.parameters
  unfolding read
  read-HasMap h = search after_row-HasMap

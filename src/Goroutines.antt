-- ===== src/Goroutines.antt =====
-- The goroutines that the clients of X.509 providers and of personal security environments start,
-- each with a channel of its own. A goroutine is what it does between its statements; a schedule
-- says which one sends its next statement, and those left at its end finish one after the other. So
-- every interleaving of the statements is that of some schedule.
pub mod Laws
pub mod Schedules
use crossplane_provider_hana.Prelude.{ℕ, zero, suc, Option, none, some, List, [], ◌∷◌, ◌++◌}
use crossplane_provider_hana.Text.{Text}
use crossplane_provider_hana.Errors.{Err, Result, ok, err, bind}
use crossplane_provider_hana.Sql.{Kind, Database, History, Rows, Sql, plain}

pub data Task (A : Type 0) : Type 0 where
  done : Result A → Task A  -- what it puts on its channel
  send : Text → (Option Err → Task A) → Task A  -- ExecContext
  ask : Text → List Text → (Result Rows → Task A) → Task A  -- QueryContext

abbrev pub Schedule : Type 0
Schedule = List ℕ

module _ {A : Type 0} (db : Database) where
  unfoldable pub step : Task A → History → Task A × History
  step (Task.done r) h = (Task.done r, h)
  step (Task.send q k) h = (k (db.on_exec h (plain q)), h ++ plain q ∷ [])
  step (Task.ask q args k) h = (
    k (db.on_query h (record { kind = Kind.statement; sql = q; args = args })),
    h ++ record { kind = Kind.statement; sql = q; args = args } ∷ [],
  )

  -- The next statement of the goroutine with a number.
  unfoldable pub step_at : ℕ → List (Task A) → History → List (Task A) × History
  unfolding step
  step_at i [] h = ([], h)
  step_at zero (t ∷ ts) h = ((step t h).0 ∷ ts, (step t h).1)
  step_at (suc i) (t ∷ ts) h = let (ts', h') = step_at i ts h in (t ∷ ts', h')

  unfoldable pub finish : Task A → History → Result A × History
  finish (Task.done r) h = (r, h)
  finish (Task.send q k) h = finish (k (db.on_exec h (plain q))) (h ++ plain q ∷ [])
  finish (Task.ask q args k) h =
      finish (k (db.on_query h (record { kind = Kind.statement; sql = q; args = args })))
        (h ++ record { kind = Kind.statement; sql = q; args = args } ∷ [])

  unfoldable pub finish_all : List (Task A) → History → List (Result A) × History
  unfolding finish
  finish_all [] h = ([], h)
  finish_all (t ∷ ts) h =
      let (r, h') = finish t h in let (rs, h'') = finish_all ts h' in (r ∷ rs, h'')

  unfoldable pub go : Schedule → List (Task A) → History → List (Result A) × History
  unfolding step_at finish_all
  go [] ts h = finish_all ts h
  go (i ∷ schedule) ts h = let (ts', h') = step_at i ts h in go schedule ts' h'

-- The receives, in the order of the channels: the first error is returned.
unfoldable pub receive : {A : Type 0} → List (Result A) → Result (List A)
receive [] = ok []
receive (r ∷ rs) = let rest = receive rs in bind r λ a. bind rest λ as'. ok (a ∷ as')

abbrev pub nothing : Result (List (Unit {0})) → Result (Unit {0})
nothing (ok us) = ok tt
nothing (err e) = err e

unfoldable pub wait : Database → Schedule → List (Task (Unit {0})) → Sql (Unit {0})
unfolding go receive
wait db schedule ts h = let (rs, h') = go db schedule ts h in (nothing (receive rs), h')

abbrev pub goes_on : (Err → Err) → Task (Unit {0}) → Option Err → Task (Unit {0})
goes_on failure rest none = rest
goes_on failure rest (some e) = Task.done (err (failure e))

-- A goroutine that sends statements and stops at the first that is refused.
unfoldable pub send_all : (Err → Err) → List Text → Task (Unit {0})
send_all failure [] = Task.done (ok tt)
send_all failure (q ∷ qs) = let rest = send_all failure qs in Task.send q (goes_on failure rest)

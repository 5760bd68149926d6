-- ===== src/Goroutines/Schedules.antt =====
-- Goroutines that each send their statements, under a schedule.
use crossplane_provider_hana.Prelude.{
  ℕ, zero, suc, true, false, Option, none, some, List, [], ◌∷◌, ◌++◌, map, ◌≡◌, refl, ap, ◌∙◌,
  append_assoc,
}
use crossplane_provider_hana.Text.{Text}
use crossplane_provider_hana.Errors.{Err, ok, err}
use crossplane_provider_hana.Sql.{Database, History, plain}
use crossplane_provider_hana.Goroutines.Laws.{
  IsTaken, IsShuffle, IsPending, all_ok, has_failed, finish_failed, finish_pending, has_failed_cons,
  receive_ok, absurd_of,
}
use crossplane_provider_hana.Goroutines.{Task, Schedule, step, step_at, go, wait, send_all, goes_on}

-- What a step does to goroutines that are sending: nothing, a statement is taken, or one fails.
data IsStep (qss : List (List Text)) (h : History) (ts : List (Task (Unit {0}))) (g : History)
    : Type 0 where
  idle : IsPending ts qss → g ≡ h → IsStep qss h ts g
  sent :
      {q : Text} {rest : List (List Text)}
      → IsTaken qss q rest
      → IsPending ts rest
      → g ≡ h ++ plain q ∷ []
      → IsStep qss h ts g
  failed : has_failed ts ≡ true → IsStep qss h ts g

later-IsStep :
    (failure : Err → Err) (qs : List Text) {qss : List (List Text)} {h g : History}
    {ts : List (Task (Unit {0}))}
    → IsStep qss h ts g
    → IsStep (qs ∷ qss) h (send_all failure qs ∷ ts) g
later-IsStep failure qs (IsStep.idle w e) = IsStep.idle (IsPending.sending failure qs w) e
later-IsStep failure qs (IsStep.sent t w e) =
    IsStep.sent (IsTaken.there t) (IsPending.sending failure qs w) e
later-IsStep failure qs (IsStep.failed e) =
    IsStep.failed (has_failed_cons (send_all failure qs) _ e)

first-IsStep :
    (failure : Err → Err) (q : Text) (qs : List Text) (r : Option Err) (h : History)
    {ts : List (Task (Unit {0}))} {qss : List (List Text)}
    → IsPending ts qss
    → IsStep ((q ∷ qs) ∷ qss) h (goes_on failure (send_all failure qs) r ∷ ts) (h ++ plain q ∷ [])
first-IsStep failure q qs none h w = IsStep.sent IsTaken.here (IsPending.sending failure qs w) refl
first-IsStep failure q qs (some e) h w = IsStep.failed refl

module _ (db : Database) where
  step_at-IsStep :
      (i : ℕ) {ts : List (Task (Unit {0}))} {qss : List (List Text)} (h : History)
      → IsPending ts qss
      → IsStep qss h (step_at db i ts h).0 (step_at db i ts h).1
  unfolding step_at step send_all
  step_at-IsStep i h IsPending.none_left = IsStep.idle IsPending.none_left refl
  step_at-IsStep zero h (IsPending.sending failure [] w) =
      IsStep.idle (IsPending.sending failure [] w) refl
  step_at-IsStep zero h (IsPending.sending failure (q ∷ qs) w) =
      first-IsStep failure q qs (db.on_exec h (plain q)) h w
  step_at-IsStep (suc i) h (IsPending.sending failure qs w) =
      later-IsStep failure qs (step_at-IsStep i h w)

  step_failed :
      (i : ℕ) (ts : List (Task (Unit {0}))) (h : History)
      → has_failed ts ≡ true
      → has_failed (step_at db i ts h).0 ≡ true
  unfolding step_at step
  step_failed i [] h p = cc
  step_failed zero (Task.done r ∷ ts) h p = p
  step_failed zero (Task.send q k ∷ ts) h p = has_failed_cons _ ts p
  step_failed zero (Task.ask q args k ∷ ts) h p = has_failed_cons _ ts p
  step_failed (suc i) (Task.done (err e) ∷ ts) h p = refl
  step_failed (suc i) (Task.done (ok u) ∷ ts) h p = step_failed i ts h p
  step_failed (suc i) (Task.send q k ∷ ts) h p = step_failed i ts h p
  step_failed (suc i) (Task.ask q args k ∷ ts) h p = step_failed i ts h p

  go_failed :
      (schedule : Schedule) (ts : List (Task (Unit {0}))) (h : History)
      → has_failed ts ≡ true
      → all_ok (go db schedule ts h).0 ≡ false
  unfolding go
  go_failed [] ts h p = finish_failed db ts h p
  go_failed (i ∷ schedule) ts h p =
      go_failed schedule (step_at db i ts h).0 (step_at db i ts h).1 (step_failed i ts h p)

  go_pending :
      (schedule : Schedule) {ts : List (Task (Unit {0}))} {qss : List (List Text)} (h : History)
      → IsPending ts qss
      → all_ok (go db schedule ts h).0 ≡ true
      → (zs : List Text) × IsShuffle qss zs × ((go db schedule ts h).1 ≡ h ++ map plain zs)
  unfolding go
  go_pending [] h w p = finish_pending db h w p
  go_pending (i ∷ schedule) h w p = elim (step_at-IsStep i h w) [
    | IsStep.idle v e ↦
        let (zs, s, f) = go_pending schedule _ v p in
        (zs, s, f ∙ ap (λ (x : History). x ++ map plain zs) e)
    | IsStep.sent {q} t v e ↦
        let (zs, s, f) = go_pending schedule _ v p in
        (
          q ∷ zs,
          IsShuffle.taken t s,
          f
              ∙ (ap (λ (x : History). x ++ map plain zs) e
                  ∙ append_assoc h (plain q ∷ []) (map plain zs)),
        )
    | IsStep.failed e ↦ absurd_of (p) (go_failed schedule _ _ e)
  ]

  -- Goroutines that all succeed have sent all their statements and nothing else, each in its order,
  -- whatever the schedule.
  pub wait-IsShuffle :
      (schedule : Schedule) {ts : List (Task (Unit {0}))} {qss : List (List Text)} (h : History)
      → IsPending ts qss
      → (wait db schedule ts h).0 ≡ ok tt
      → (zs : List Text) × IsShuffle qss zs × ((wait db schedule ts h).1 ≡ h ++ map plain zs)
  unfolding wait
  wait-IsShuffle schedule h w p = go_pending schedule h w (receive_ok (go db schedule _ h).0 p)

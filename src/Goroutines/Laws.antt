-- ===== src/Goroutines/Laws.antt =====
-- Goroutines that each send their statements, one after the other.
use crossplane_provider_hana.Prelude.{
  Bool, true, false, Option, none, some, List, [], ◌∷◌, ◌++◌, map, ◌≡◌, refl, sym, ap, ◌∙◌,
  append-nil, append_assoc,
}
use crossplane_provider_hana.Text.{Text}
use crossplane_provider_hana.Errors.{Err, Result, ok, err, bind}
use crossplane_provider_hana.Sql.{Database, History, Stmt, plain}
use crossplane_provider_hana.Goroutines.{
  Task, finish, finish_all, receive, send_all, nothing, goes_on,
}

-- One of the lists gives its first statement.
pub data IsTaken : List (List Text) → Text → List (List Text) → Type 0 where
  here :
      {q : Text} {qs : List Text} {qss : List (List Text)} → IsTaken ((q ∷ qs) ∷ qss) q (qs ∷ qss)
  there :
      {qs : List Text} {qss rest : List (List Text)} {q : Text}
      → IsTaken qss q rest
      → IsTaken (qs ∷ qss) q (qs ∷ rest)

-- A sequence that takes all statements of all lists, of each in its order.
pub data IsShuffle : List (List Text) → List Text → Type 0 where
  none_left : IsShuffle [] []
  empty : {qss : List (List Text)} {zs : List Text} → IsShuffle qss zs → IsShuffle ([] ∷ qss) zs
  taken :
      {qss rest : List (List Text)} {q : Text} {zs : List Text}
      → IsTaken qss q rest
      → IsShuffle rest zs
      → IsShuffle qss (q ∷ zs)

-- The goroutines that have these statements ahead of them.
pub data IsPending : List (Task (Unit {0})) → List (List Text) → Type 0 where
  none_left : IsPending [] []
  sending :
      (failure : Err → Err) (qs : List Text) {ts : List (Task (Unit {0}))} {qss : List (List Text)}
      → IsPending ts qss
      → IsPending (send_all failure qs ∷ ts) (qs ∷ qss)

drained :
    (qs : List Text) {qss : List (List Text)} {zs : List Text}
    → IsShuffle qss zs
    → IsShuffle (qs ∷ qss) (qs ++ zs)
drained [] s = IsShuffle.empty s
drained (q ∷ qs) s = IsShuffle.taken IsTaken.here (drained qs s)

abbrev pub all_ok : List (Result (Unit {0})) → Bool
all_ok [] = true
all_ok (ok u ∷ rs) = all_ok rs
all_ok (err e ∷ rs) = false

abbrev pub has_failed : List (Task (Unit {0})) → Bool
has_failed [] = false
has_failed (Task.done (err e) ∷ ts) = true
has_failed (t ∷ ts) = has_failed ts

all_ok_cons :
    (r : Result (Unit {0})) (rs : List (Result (Unit {0})))
    → all_ok (r ∷ rs) ≡ true
    → (r ≡ ok tt) × (all_ok rs ≡ true)
all_ok_cons (ok tt) rs h = (refl, h)
all_ok_cons (err e) rs h = cc

all_ok-false :
    (r : Result (Unit {0})) (rs : List (Result (Unit {0})))
    → all_ok rs ≡ false
    → all_ok (r ∷ rs) ≡ false
all_ok-false (ok u) rs h = h
all_ok-false (err e) rs h = refl

map-append : (xs ys : List Text) → map plain (xs ++ ys) ≡ map plain xs ++ map plain ys
map-append [] ys = refl
map-append (x ∷ xs) ys = ap (λ (r : List Stmt). plain x ∷ r) (map-append xs ys)

module _ (db : Database) where
  finish-goes_on :
      (failure : Err → Err) (qs : List Text) (r : Option Err) (h : History)
      → (finish db (goes_on failure (send_all failure qs) r) h).0 ≡ ok tt
      → (finish db (goes_on failure (send_all failure qs) r) h).1 ≡ h ++ map plain qs
  unfolding finish send_all
  finish-goes_on failure [] none h p = sym (append-nil h)
  finish-goes_on failure (q ∷ qs) none h p =
      finish-goes_on failure qs (db.on_exec h (plain q)) (h ++ plain q ∷ []) p
      ∙ append_assoc h (plain q ∷ []) (map plain qs)
  finish-goes_on failure qs (some e) h p = cc

  later_failed :
      (t : Task (Unit {0})) (ts : List (Task (Unit {0}))) (h : History)
      → ((x : History) → all_ok (finish_all db ts x).0 ≡ false)
      → all_ok (finish_all db (t ∷ ts) h).0 ≡ false
  unfolding finish_all
  later_failed t ts h f =
      all_ok-false (finish db t h).0 (finish_all db ts (finish db t h).1).0 (f (finish db t h).1)

  pub finish_failed :
      (ts : List (Task (Unit {0}))) (h : History)
      → has_failed ts ≡ true
      → all_ok (finish_all db ts h).0 ≡ false
  unfolding finish_all finish
  finish_failed [] h p = cc
  finish_failed (Task.done (err e) ∷ ts) h p = refl
  finish_failed (Task.done (ok u) ∷ ts) h p = finish_failed ts h p
  finish_failed (Task.send q k ∷ ts) h p =
      later_failed (Task.send q k) ts h (λ x. finish_failed ts x p)
  finish_failed (Task.ask q args k ∷ ts) h p =
      later_failed (Task.ask q args k) ts h (λ x. finish_failed ts x p)

  pub finish_pending :
      {ts : List (Task (Unit {0}))} {qss : List (List Text)} (h : History)
      → IsPending ts qss
      → all_ok (finish_all db ts h).0 ≡ true
      → (zs : List Text) × IsShuffle qss zs × ((finish_all db ts h).1 ≡ h ++ map plain zs)
  unfolding finish_all
  finish_pending h IsPending.none_left p = ([], IsShuffle.none_left, sym (append-nil h))
  finish_pending h (IsPending.sending failure qs w) p =
      let (a, b) = all_ok_cons _ _ p in
      let e = finish-goes_on failure qs none h a in
      let (zs, s, f) = finish_pending _ w b in
      (
        qs ++ zs,
        drained qs s,
        f
            ∙ (ap (λ (x : History). x ++ map plain zs) e
                ∙ (append_assoc h (map plain qs) (map plain zs)
                    ∙ ap (λ (x : History). h ++ x) (sym (map-append qs zs)))),
      )

pub absurd_of : {P : Type 0} {b : Bool} → b ≡ true → b ≡ false → P
absurd_of h k = cc

received_tail :
    {u : Unit {0}} (r : Result (List (Unit {0})))
    → nothing (bind r λ us. ok (u ∷ us)) ≡ ok tt
    → nothing r ≡ ok tt
received_tail (ok us) h = refl
received_tail (err e) h = cc

pub receive_ok : (rs : List (Result (Unit {0}))) → nothing (receive rs) ≡ ok tt → all_ok rs ≡ true
unfolding receive
receive_ok [] h = refl
receive_ok (ok u ∷ rs) h = receive_ok rs (received_tail (receive rs) h)
receive_ok (err e ∷ rs) h = cc

pub has_failed_cons :
    (t : Task (Unit {0})) (ts : List (Task (Unit {0})))
    → has_failed ts ≡ true
    → has_failed (t ∷ ts) ≡ true
has_failed_cons (Task.done (err e)) ts h = refl
has_failed_cons (Task.done (ok u)) ts h = h
has_failed_cons (Task.send q k) ts h = h
has_failed_cons (Task.ask q args k) ts h = h

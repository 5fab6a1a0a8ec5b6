-- ===== src/Store/Fold/Replay.antt =====
-- The fold one event at a time, and the ledgers that it accepts.
use pointlock.Prelude.{
  ℕ, ◌<◌, ◌≡◌, refl, ◌∙◌, true, false, none, some, Option, List, [], ◌∷◌, ok, err, ◌>>=◌, >>=-eq-ok,
  arith, str_eq_iff, push,
}
use pointlock.Ir.RunLog.{RunLogPayload, RunLogEvent}
use pointlock.Store.Fold.State.{RunMeta, FoldState, seed}
use pointlock.Store.Fold.Steps.{Folded}
use pointlock.Store.Fold.Apply.{dispatch, is_run_started, fold_step, fold_from, fold_state}
use pointlock.Store.Fold.Ledger.{fold_step-eq_ok, started_lem}

-- The sequence number that the next event has to pass.
abbrev pub seq_after : Option ℕ → List RunLogEvent → Option ℕ
seq_after prev [] = prev
seq_after prev (e ∷ events) = seq_after (some e.seq) events

fold_from-push :
    (meta : RunMeta) (prev : Option ℕ) (s : FoldState) (events : List RunLogEvent) (e : RunLogEvent)
    → fold_from meta prev s (push events e)
      ≡ (fold_from meta prev s events >>= λ t. fold_step meta (seq_after prev events) t e)
unfolding fold_from
fold_from-push meta prev s [] e = step_only (fold_step meta prev s e)
  where
    step_only : (r : Folded) → (r >>= λ t. ok t) ≡ r
    step_only (ok t) = refl
    step_only (err x) = refl
fold_from-push meta prev s (f ∷ events) e =
    through (fold_step meta prev s f) (λ t. fold_from-push meta (some f.seq) t events e)
  where
    through :
        (r : Folded)
        → ((t : FoldState)
            → fold_from meta (some f.seq) t (push events e) ≡ (
                fold_from meta (some f.seq) t events >>= λ u.
                fold_step meta (seq_after (some f.seq) events) u e))
        → (r >>= λ t. fold_from meta (some f.seq) t (push events e)) ≡ (
            r >>= (λ t. fold_from meta (some f.seq) t events) >>= λ u.
            fold_step meta (seq_after (some f.seq) events) u e)
    through (ok t) ih = ih t
    through (err x) ih = refl

-- Folding a ledger with one more event is folding the ledger and then that event.
pub fold_state-push :
    (meta : RunMeta) (events : List RunLogEvent) (e : RunLogEvent)
    → fold_state meta (push events e)
      ≡ (fold_state meta events >>= λ t. fold_step meta (seq_after none events) t e)
unfolding fold_state
fold_state-push meta events e = fold_from-push meta none (seed meta) events e

-- Whether an event may come after `prev`: its run, its number, and no second start.
abbrev pub Follows : RunMeta → Option ℕ → RunLogEvent → Type 0
Follows meta none e = e.run_id ≡ meta.run_id
Follows meta (some prev) e = (e.run_id ≡ meta.run_id) × (prev < e.seq)

-- The events of one run, numbered upwards.
abbrev pub IsNumbered : RunMeta → Option ℕ → List RunLogEvent → Type 0
IsNumbered meta prev [] = Unit
IsNumbered meta prev (e ∷ events) = Follows meta prev e × IsNumbered meta (some e.seq) events

-- No event starts the run.
abbrev pub HasNoStart : List RunLogEvent → Type 0
HasNoStart [] = Unit
HasNoStart (e ∷ events) = (is_run_started e.payload ≡ false) × HasNoStart events

-- A ledger starts its run once, with its first event, if it has one.
abbrev pub StartsOnce : List RunLogEvent → Type 0
StartsOnce [] = Unit
StartsOnce (e ∷ events) = (is_run_started e.payload ≡ true) × HasNoStart events

-- A start is refused once the run has started.
no_restart :
    (s t : FoldState) (e : RunLogEvent) (p : RunLogPayload)
    → s.started ≡ true
    → dispatch s e p ≡ ok t
    → is_run_started p ≡ false
unfolding dispatch
no_restart s t e (RunLogPayload.run_started h l v w) a q = ground arith
no_restart s t e _ a q = refl

step-Follows :
    (meta : RunMeta) (prev : Option ℕ) (s t : FoldState) (e : RunLogEvent)
    → fold_step meta prev s e ≡ ok t
    → Follows meta prev e
step-Follows meta none s t e q =
    let (_, _, same, _) = fold_step-eq_ok meta none s t e q in (str_eq_iff _ _).0 same
step-Follows meta (some prev) s t e q =
    let (_, _, same, late) = fold_step-eq_ok meta (some prev) s t e q in
    ((str_eq_iff _ _).0 same, ground arith)

fold_from-IsNumbered :
    (meta : RunMeta) (prev : Option ℕ) (s t : FoldState) (events : List RunLogEvent)
    → fold_from meta prev s events ≡ ok t
    → IsNumbered meta prev events
unfolding fold_from
fold_from-IsNumbered meta prev s t [] q = tt
fold_from-IsNumbered meta prev s t (e ∷ events) q =
    let (next, first, rest) = >>=-eq-ok (fold_step meta prev s e) _ q in
    (
      step-Follows meta prev s next e first,
      fold_from-IsNumbered meta (some e.seq) next t events rest,
    )

fold_from-HasNoStart :
    (meta : RunMeta) (prev : Option ℕ) (s t : FoldState) (events : List RunLogEvent)
    → s.started ≡ true
    → fold_from meta prev s events ≡ ok t
    → HasNoStart events
unfolding fold_from
fold_from-HasNoStart meta prev s t [] a q = tt
fold_from-HasNoStart meta prev s t (e ∷ events) a q =
    let (next, first, rest) = >>=-eq-ok (fold_step meta prev s e) _ q in
    let step = (fold_step-eq_ok meta prev s next e first).1 in
    let fresh = no_restart s next e e.payload a step in
    (
      fresh,
      fold_from-HasNoStart meta (some e.seq) next t events
          (started_lem s next e e.payload step ∙ rw fresh a) rest,
    )

fold_from-StartsOnce :
    (meta : RunMeta) (prev : Option ℕ) (s t : FoldState) (events : List RunLogEvent)
    → s.started ≡ false
    → fold_from meta prev s events ≡ ok t
    → StartsOnce events
unfolding fold_from
fold_from-StartsOnce meta prev s t [] a q = tt
fold_from-StartsOnce meta prev s t (e ∷ events) a q =
    let (next, first, rest) = >>=-eq-ok (fold_step meta prev s e) _ q in
    let (early, step, _, _) = fold_step-eq_ok meta prev s next e first in
    let start : is_run_started e.payload ≡ true = ground arith in
    (
      start,
      fold_from-HasNoStart meta (some e.seq) next t events
          (started_lem s next e e.payload step ∙ rw start refl) rest,
    )

-- A ledger that folds holds the events of its run alone, in strictly increasing order, and starts
-- the run with its first event and never again.
pub fold_state-IsNumbered :
    (meta : RunMeta) (events : List RunLogEvent) (t : FoldState)
    → fold_state meta events ≡ ok t
    → IsNumbered meta none events × StartsOnce events
unfolding fold_state seed
fold_state-IsNumbered meta events t q = (
  fold_from-IsNumbered meta none (seed meta) t events q,
  fold_from-StartsOnce meta none (seed meta) t events refl q,
)

-- ===== src/Store/Fold/Quiet.antt =====
-- The run status and the pending human request.
use pointlock.Prelude.{
  ℕ, ◌≡◌, true, false, none, some, Option, List, [], ◌∷◌, ok, ok-injective, subst, >>=-eq-ok, arith,
}
use pointlock.Ir.RunLog.{RunLogPayload, RunLogEvent}
use pointlock.Store.Fold.State.{RunMeta, RunStatus, FoldState, seed}
use pointlock.Store.Fold.Apply.{dispatch, fold_step, fold_from, fold_state}
use pointlock.Store.Fold.Ledger.{fold_step-eq_ok}

abbrev pub IsQuiet : FoldState → Type 0
IsQuiet s = s.status ≡ RunStatus.suspended → s.view.human_pending ≡ none

dispatch-IsQuiet :
    (s t : FoldState) (e : RunLogEvent) (p : RunLogPayload)
    → IsQuiet s
    → dispatch s e p ≡ ok t
    → IsQuiet t
unfolding dispatch
dispatch-IsQuiet s t e (RunLogPayload.preflight_probed []) a q h = ground arith
dispatch-IsQuiet s t e (RunLogPayload.preflight_probed (o ∷ os)) a q h = ground arith
dispatch-IsQuiet s t e (RunLogPayload.call_frame_pushed f false) a q h = ground arith
dispatch-IsQuiet s t e (RunLogPayload.call_frame_pushed f true) a q h = ground arith
dispatch-IsQuiet s t e (RunLogPayload.run_resumed r p none) a q h = ground arith
dispatch-IsQuiet s t e (RunLogPayload.run_resumed r p (some c)) a q h = ground arith
dispatch-IsQuiet s t e _ a q h = ground arith

fold_from-IsQuiet :
    (meta : RunMeta) (prev : Option ℕ) (s t : FoldState) (events : List RunLogEvent)
    → IsQuiet s
    → fold_from meta prev s events ≡ ok t
    → IsQuiet t
unfolding fold_from
fold_from-IsQuiet meta prev s t [] a q = subst IsQuiet (ok-injective q) a
fold_from-IsQuiet meta prev s t (e ∷ events) a q =
    let (next, first, rest) = >>=-eq-ok (fold_step meta prev s e) _ q in
    fold_from-IsQuiet meta (some e.seq) next t events
      (dispatch-IsQuiet s next e e.payload a (fold_step-eq_ok meta prev s next e first).1) rest

-- A run that a ledger leaves suspended has no human request pending.
pub fold_state-IsQuiet :
    (meta : RunMeta) (events : List RunLogEvent) (t : FoldState)
    → fold_state meta events ≡ ok t
    → t.status ≡ RunStatus.suspended
    → t.view.human_pending ≡ none
unfolding fold_state seed
fold_state-IsQuiet meta events t q = fold_from-IsQuiet meta none (seed meta) t events (λ h. cc) q

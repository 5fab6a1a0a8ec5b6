-- ===== src/Store/Fold/Clean.antt =====
-- The optional values that the fold gathers from a ledger of which each event comes back as written.
use pointlock.Prelude.{
  ℕ, zero, suc, ◌≡◌, refl, Bool, true, false, Option, none, some, List, [], ◌∷◌, ok, ok-injective,
  arith, Option-cases, inl, inr, push, init, last?, modify_at, modify_last, lookup, or_option, all,
  rposition, subst,
}
use pointlock.Ir.Json.{Value}
use pointlock.Ir.RunLog.{RunLogPayload, RunLogEvent}
use pointlock.Ir.Wire.{carried, carried_payload, carried_records, reread_view, reread_view-carried}
use pointlock.Store.Fold.Sites.{same_instance}
use pointlock.Store.Fold.State.{InFlightStep, FoldState}
use pointlock.Store.Fold.Attempts.{attempt_record}
use pointlock.Store.Fold.Steps.{or_default, push_some}
use pointlock.Store.Fold.Exits.{judge_step, judge_record, complete_step}
use pointlock.Store.Fold.Frames.{give_outputs}
use pointlock.Store.Fold.Apply.{apply, dispatch}
use pointlock.Store.Fold.Finish.{finish}

module _ {ℓ} {A : Type ℓ} (p : A → Bool) where
  all-push : (xs : List A) (x : A) → all p xs ≡ true → p x ≡ true → all p (push xs x) ≡ true
  all-push [] x h k = ground arith
  all-push (y ∷ xs) x h k = ground (arith, all-push xs x)

  all-init : (xs : List A) → all p xs ≡ true → all p (init xs) ≡ true
  all-init [] h = refl
  all-init (x ∷ []) h = refl
  all-init (x ∷ y ∷ xs) h = ground (arith, all-init (y ∷ xs))

  all-last : (xs : List A) (x : A) → all p xs ≡ true → last? xs ≡ some x → p x ≡ true
  all-last [] x h k = ground arith
  all-last (y ∷ []) x h k = ground arith
  all-last (y ∷ z ∷ xs) x h k = ground (arith, all-last (z ∷ xs) x)

  all-modify_last :
      (f : A → A) (xs : List A)
      → ((x : A) → p x ≡ true → p (f x) ≡ true)
      → all p xs ≡ true
      → all p (modify_last f xs) ≡ true
  all-modify_last f [] k h = refl
  all-modify_last f (x ∷ []) k h = ground (arith, k x)
  all-modify_last f (x ∷ y ∷ xs) k h = ground (arith, all-modify_last f (y ∷ xs) k)

  all-modify_at :
      (i : ℕ) (f : A → A) (xs : List A)
      → ((x : A) → p x ≡ true → p (f x) ≡ true)
      → all p xs ≡ true
      → all p (modify_at i f xs) ≡ true
  all-modify_at i f [] k h = refl
  all-modify_at zero f (x ∷ xs) k h = ground (arith, k x)
  all-modify_at (suc i) f (x ∷ xs) k h = ground (arith, all-modify_at i f xs k)

abbrev carried_steps : List InFlightStep → Bool
carried_steps steps = all (λ step. carried step.call_outputs) steps

-- No output of a completed step or of a step in flight is a present `null`.
abbrev pub IsClean : FoldState → Type 0
IsClean s = (carried_records s.view.completed ≡ true) × (carried_steps s.in_flight ≡ true)

carried-or_option :
    (a b : Option Value) → carried a ≡ true → carried b ≡ true → carried (or_option a b) ≡ true
carried-or_option none b h k = k
carried-or_option (some v) b h k = h

-- A write to the innermost step that leaves its outputs.
rewritten-IsClean :
    (s t : FoldState) (f : InFlightStep → InFlightStep)
    → ((x : InFlightStep) → carried x.call_outputs ≡ true → carried (f x).call_outputs ≡ true)
    → IsClean s
    → t.view.completed ≡ s.view.completed
    → t.in_flight ≡ modify_last f s.in_flight
    → IsClean t
rewritten-IsClean s t f k a completed flight = (
  rw completed a.0,
  rw flight (all-modify_last (λ step. carried step.call_outputs) f s.in_flight k a.1),
)

dispatch-IsClean :
    (s t : FoldState) (e : RunLogEvent) (p : RunLogPayload)
    → IsClean s
    → carried_payload p ≡ true
    → dispatch s e p ≡ ok t
    → IsClean t
unfolding dispatch
dispatch-IsClean s t e (RunLogPayload.verdict_recorded v l g r) a c q =
    elim (Option-cases (rposition (λ step. same_instance step.run_path e.run_path) s.in_flight)) [
      | inr (index, found) ↦ ground (
        arith,
        all-modify_at (λ step. carried step.call_outputs) index (judge_step v l) s.in_flight
            (λ x h. h),
      )
      | inl open_missed ↦
          elim (Option-cases
            (rposition (λ done. same_instance done.run_path e.run_path) s.view.completed)) [
              | inl missed ↦ absurd (ground arith)
              | inr (index, found) ↦ ground (
                arith,
                all-modify_at (λ step. carried step.output) index (judge_record v l)
                    s.view.completed (λ x h. h),
              )
            ]
    ]
dispatch-IsClean s t e (RunLogPayload.step_exited x o p l g) a c q =
    elim (Option-cases (last? s.in_flight)) [
      | inl empty ↦ absurd (ground arith)
      | inr (step, found) ↦ ground (
        arith,
        all-init (λ step. carried step.call_outputs) s.in_flight,
        all-push (λ step. carried step.output) s.view.completed (complete_step step l o),
        carried-or_option o step.call_outputs c
            (all-last (λ step. carried step.call_outputs) s.in_flight step a.1 found),
      )
    ]
dispatch-IsClean s t e (RunLogPayload.step_entered i f j r) a c q =
    subst IsClean (ok-injective q)
      (a.0, all-push (λ step. carried step.call_outputs) s.in_flight _ a.1 refl)
dispatch-IsClean s t e (RunLogPayload.action_settled i o) a c q =
    elim (Option-cases (last? s.in_flight)) [
      | inl empty ↦ absurd (ground arith)
      | inr (step, found) ↦
          rewritten-IsClean s t
            (λ step. record step {
              attempts =
                  push step.attempts (attempt_record i o (or_default (lookup i s.intent_dispatch)));
            })
            (λ x h. h) a (ground arith) (ground arith)
    ]
dispatch-IsClean s t e (RunLogPayload.observation_recorded o) a c q =
    elim (Option-cases (last? s.in_flight)) [
      | inl empty ↦ absurd (ground arith)
      | inr (step, found) ↦
          rewritten-IsClean s t
            (λ step. record step {
              evidence = push_some (push_some step.evidence o.screenshot) o.ui_snapshot;
              observations = push step.observations o;
            })
            (λ x h. h) a (ground arith) (ground arith)
    ]
dispatch-IsClean s t e (RunLogPayload.assertion_evaluated o) a c q =
    elim (Option-cases (last? s.in_flight)) [
      | inl empty ↦ absurd (ground arith)
      | inr (step, found) ↦
          rewritten-IsClean s t
            (λ step. record step { assertion_outcomes = push step.assertion_outcomes o }) (λ x h. h)
            a (ground arith) (ground arith)
    ]
dispatch-IsClean s t e (RunLogPayload.call_frame_popped o) a c q = ground (
  arith,
  all-modify_last (λ step. carried step.call_outputs) (give_outputs o) s.in_flight (λ x h. c) a.1,
)
dispatch-IsClean s t e (RunLogPayload.preflight_probed []) a c q = ground arith
dispatch-IsClean s t e (RunLogPayload.preflight_probed (o ∷ os)) a c q = ground arith
dispatch-IsClean s t e (RunLogPayload.call_frame_pushed f false) a c q = ground arith
dispatch-IsClean s t e (RunLogPayload.call_frame_pushed f true) a c q = ground arith
dispatch-IsClean s t e (RunLogPayload.run_resumed r p none) a c q = ground arith
dispatch-IsClean s t e (RunLogPayload.run_resumed r p (some k)) a c q = ground arith
dispatch-IsClean s t e _ a c q = ground arith

pub apply-IsClean :
    (s t : FoldState) (e : RunLogEvent)
    → IsClean s
    → carried_payload e.payload ≡ true
    → apply s e ≡ ok t
    → IsClean t
unfolding apply
apply-IsClean s t e a c q = dispatch-IsClean s t e e.payload a c (ground arith)

-- The view of a clean state comes back as it was.
pub finish-carried : (s : FoldState) → IsClean s → reread_view (finish s).view ≡ (finish s).view
unfolding finish
finish-carried s a = reread_view-carried (finish s).view a.0

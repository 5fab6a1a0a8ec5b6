-- ===== src/Store/Fold/Records.antt =====
-- What later events may do to a completed record.
use pointlock.Prelude.{
  ℕ, suc, ◌≡◌, ◌⊎◌, refl, sym, ◌∙◌, Bool, true, false, ◌&&◌, ◌||◌, Option, none, some, List, [],
  ◌∷◌, ◌++◌, ok, ok-injective, subst, >>=-eq-ok, arith, Option-cases, inl, inr, push, any, last?,
  rposition, modify_at,
}
use mathlib.Core.List.{append-nil, append_assoc}
use pointlock.Ir.RunPath.{RunPath}
use pointlock.Ir.Record.{EvidenceRef, EvidenceGap, ProviderStateSummary, StepRecord, Verdict}
use pointlock.Ir.Vocab.{StepState}
use pointlock.Ir.Json.{Value}
use pointlock.Ir.RunLog.{RunLogPayload, RunLogEvent}
use pointlock.Store.Fold.Sites.{same_instance}
use pointlock.Store.Fold.State.{RunMeta, FoldState, InFlightStep}
use pointlock.Store.Fold.Exits.{judge_record, complete_step}
use pointlock.Store.Fold.Apply.{dispatch, fold_step, fold_from}
use pointlock.Store.Fold.Ledger.{fold_step-eq_ok}
use pointlock.Store.Fold.Evidence.{merge_evidence-dedups}

abbrev pub is_verdict : RunLogPayload → Bool
is_verdict (RunLogPayload.verdict_recorded _ _ _ _) = true
is_verdict _ = false

-- Whether the ledger records a verdict at this run path, hashes aside.
abbrev pub judged_in : List RunLogEvent → RunPath → Bool
judged_in events run_path =
    any (λ e. is_verdict e.payload && same_instance run_path e.run_path) events

-- `y` is `x` after a run of events: all but the evidence and the verdict is kept, the evidence
-- only grows, and either the step was judged or nothing changed.
pub record Keeps (judged : Bool) (x y : StepRecord) : Type 0 where
  pub run_path : y.run_path ≡ x.run_path
  pub step_id : y.step_id ≡ x.step_id
  pub effect_hash : y.effect_hash ≡ x.effect_hash
  pub judge_hash : y.judge_hash ≡ x.judge_hash
  pub attempts : y.attempts ≡ x.attempts
  pub resolved_inputs : y.resolved_inputs ≡ x.resolved_inputs
  pub output : y.output ≡ x.output
  pub observations : y.observations ≡ x.observations
  pub assertion_outcomes : y.assertion_outcomes ≡ x.assertion_outcomes
  pub evidence : (added : List EvidenceRef) × (y.evidence ≡ x.evidence ++ added)
  pub change : (judged ≡ true) ⊎ (y ≡ x)

-- Each record is kept at its place, and records are only added behind.
abbrev pub AllKept : List RunLogEvent → List StepRecord → List StepRecord → Type 0
AllKept events [] ys = Unit
AllKept events (x ∷ xs) [] = ⊥
AllKept events (x ∷ xs) (y ∷ ys) = Keeps (judged_in events x.run_path) x y × AllKept events xs ys

Keeps-refl : (judged : Bool) (x : StepRecord) → Keeps judged x x
Keeps-refl judged x = record {
  run_path = refl;
  step_id = refl;
  effect_hash = refl;
  judge_hash = refl;
  attempts = refl;
  resolved_inputs = refl;
  output = refl;
  observations = refl;
  assertion_outcomes = refl;
  evidence = ([], sym (append-nil x.evidence));
  change = inr refl;
}

Keeps-trans :
    (i j k : Bool) (x y z : StepRecord)
    → (i ≡ true → k ≡ true)
    → (j ≡ true → k ≡ true)
    → Keeps i x y
    → Keeps j y z
    → Keeps k x z
Keeps-trans i j k x y z ki kj f g =
    let (first, e) = f.evidence in
    let (second, d) = g.evidence in
    record {
      run_path = g.run_path ∙ f.run_path;
      step_id = g.step_id ∙ f.step_id;
      effect_hash = g.effect_hash ∙ f.effect_hash;
      judge_hash = g.judge_hash ∙ f.judge_hash;
      attempts = g.attempts ∙ f.attempts;
      resolved_inputs = g.resolved_inputs ∙ f.resolved_inputs;
      output = g.output ∙ f.output;
      observations = g.observations ∙ f.observations;
      assertion_outcomes = g.assertion_outcomes ∙ f.assertion_outcomes;
      evidence = (first ++ second, d ∙ rw e (append_assoc x.evidence first second));
      change = elim f.change [
        | inl judged ↦ inl (ki judged)
        | inr same ↦ elim g.change [ inl judged ↦ inl (kj judged) | inr still ↦ inr (still ∙ same) ]
      ];
    }

AllKept-refl : (events : List RunLogEvent) (xs : List StepRecord) → AllKept events xs xs
AllKept-refl events [] = tt
AllKept-refl events (x ∷ xs) = (Keeps-refl _ x, AllKept-refl events xs)

AllKept-push :
    (events : List RunLogEvent) (xs : List StepRecord) (x : StepRecord)
    → AllKept events xs (push xs x)
AllKept-push events [] x = tt
AllKept-push events (y ∷ xs) x = (Keeps-refl _ y, AllKept-push events xs x)

later : (a b : Bool) → b ≡ true → (a || b) ≡ true
later a b h = ground arith

AllKept-trans :
    (e : RunLogEvent) (events : List RunLogEvent) (xs ys zs : List StepRecord)
    → AllKept (e ∷ []) xs ys
    → AllKept events ys zs
    → AllKept (e ∷ events) xs zs
AllKept-trans e events [] ys zs f g = tt
AllKept-trans e events (x ∷ xs) [] zs f g = absurd f
AllKept-trans e events (x ∷ xs) (y ∷ ys) [] f g = absurd g
AllKept-trans e events (x ∷ xs) (y ∷ ys) (z ∷ zs) f g = (
  Keeps-trans (judged_in (e ∷ []) x.run_path) (judged_in events y.run_path)
      (judged_in (e ∷ events) x.run_path) x y z (λ h. ground arith)
      (λ h.
        later (is_verdict e.payload && same_instance x.run_path e.run_path)
          (judged_in events x.run_path) (rw f.0.run_path at h))
      f.0 g.0,
  AllKept-trans e events xs ys zs f.1 g.1,
)

unchanged : (e : RunLogEvent) {xs ys : List StepRecord} → ys ≡ xs → AllKept (e ∷ []) xs ys
unchanged e {xs} h = subst (AllKept (e ∷ []) xs) (sym h) (AllKept-refl (e ∷ []) xs)

-- A judged record keeps all but its evidence and verdict.
judge_record-Keeps :
    (verdict : Verdict) (localized : List EvidenceRef) (x : StepRecord)
    → Keeps true x (judge_record verdict localized x)
judge_record-Keeps verdict localized x =
    let (added, e, _) = (merge_evidence-dedups x.evidence localized).0 in
    record {
      run_path = refl;
      step_id = refl;
      effect_hash = refl;
      judge_hash = refl;
      attempts = refl;
      resolved_inputs = refl;
      output = refl;
      observations = refl;
      assertion_outcomes = refl;
      evidence = (added, e);
      change = inl refl;
    }

-- The record that `rposition` finds is one that the event judges, and the others are left.
AllKept-modify_at :
    (e : RunLogEvent) (f : StepRecord → StepRecord) (xs : List StepRecord) (i : ℕ)
    → is_verdict e.payload ≡ true
    → ((x : StepRecord) → Keeps true x (f x))
    → rposition (λ done. same_instance done.run_path e.run_path) xs ≡ some i
    → AllKept (e ∷ []) xs (modify_at i f xs)
AllKept-modify_at e f [] i v k q = tt
AllKept-modify_at e f (x ∷ xs) i v k q =
    elim (Option-cases (rposition (λ done. same_instance done.run_path e.run_path) xs)) [
      | inr (j, found) ↦
          let at : i ≡ suc j = ground arith in
          rw at (Keeps-refl _ x, AllKept-modify_at e f xs j v k found)
      | inl missed ↦
          let hit : same_instance x.run_path e.run_path ≡ true = ground arith in
          let at : i ≡ 0 = ground arith in rw at (rw (v, hit) (k x), AllKept-refl (e ∷ []) xs)
    ]

exit_completed :
    (s t : FoldState) (e : RunLogEvent) (x : StepState) (o : Option Value)
    (p : Option ProviderStateSummary) (l : List EvidenceRef) (g : List EvidenceGap)
    (step : InFlightStep)
    → last? s.in_flight ≡ some step
    → dispatch s e (RunLogPayload.step_exited x o p l g) ≡ ok t
    → t.view.completed ≡ push s.view.completed (complete_step step l o)
unfolding dispatch
exit_completed s t e x o p l g step found q = ground arith

dispatch-AllKept :
    (s t : FoldState) (e : RunLogEvent) (p : RunLogPayload)
    → e.payload ≡ p
    → dispatch s e p ≡ ok t
    → AllKept (e ∷ []) s.view.completed t.view.completed
unfolding dispatch
dispatch-AllKept s t e (RunLogPayload.verdict_recorded v l g r) m q =
    elim (Option-cases (rposition (λ step. same_instance step.run_path e.run_path) s.in_flight)) [
      | inr (index, found) ↦ unchanged e (ground arith)
      | inl open_missed ↦
          elim (Option-cases
            (rposition (λ done. same_instance done.run_path e.run_path) s.view.completed)) [
              | inl missed ↦ absurd (ground arith)
              | inr (index, found) ↦ subst (AllKept (e ∷ []) s.view.completed) (ground arith) (
                  AllKept-modify_at e (judge_record v l) s.view.completed index (rw m refl)
                    (judge_record-Keeps v l) found)
            ]
    ]
dispatch-AllKept s t e (RunLogPayload.step_exited x o p l g) m q =
    elim (Option-cases (last? s.in_flight)) [
      | inl empty ↦ absurd (ground arith)
      | inr (step, found) ↦
          subst (AllKept (e ∷ []) s.view.completed)
            (sym (exit_completed s t e x o p l g step found q))
            (AllKept-push (e ∷ []) s.view.completed (complete_step step l o))
    ]
dispatch-AllKept s t e (RunLogPayload.preflight_probed []) m q = unchanged e (ground arith)
dispatch-AllKept s t e (RunLogPayload.preflight_probed (o ∷ os)) m q = unchanged e (ground arith)
dispatch-AllKept s t e (RunLogPayload.call_frame_pushed f false) m q = unchanged e (ground arith)
dispatch-AllKept s t e (RunLogPayload.call_frame_pushed f true) m q = unchanged e (ground arith)
dispatch-AllKept s t e (RunLogPayload.run_resumed r p none) m q = unchanged e (ground arith)
dispatch-AllKept s t e (RunLogPayload.run_resumed r p (some c)) m q = unchanged e (ground arith)
dispatch-AllKept s t e _ m q = unchanged e (ground arith)

-- After more events every completed record stands at its place. Its path, id, hashes, attempts,
-- inputs, output, observations and assertion outcomes are as before, its evidence has only
-- grown, and unless one of the events is a verdict at its own run path it has not changed at all.
pub fold_from-AllKept :
    (meta : RunMeta) (prev : Option ℕ) (s t : FoldState) (events : List RunLogEvent)
    → fold_from meta prev s events ≡ ok t
    → AllKept events s.view.completed t.view.completed
unfolding fold_from
fold_from-AllKept meta prev s t [] q =
    subst (λ u. AllKept [] s.view.completed u.view.completed) (ok-injective q)
      (AllKept-refl [] s.view.completed)
fold_from-AllKept meta prev s t (e ∷ events) q =
    let (next, first, rest) = >>=-eq-ok (fold_step meta prev s e) _ q in
    AllKept-trans e events s.view.completed next.view.completed t.view.completed
      (dispatch-AllKept s next e e.payload refl (fold_step-eq_ok meta prev s next e first).1)
      (fold_from-AllKept meta (some e.seq) next t events rest)

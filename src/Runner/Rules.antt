-- ===== src/Runner/Rules.antt =====
-- judge.rs: what the folding rules decide.
use pointlock.Prelude.{
  suc, ◌≡◌, refl, sym, ◌∙◌, ap, Bool, true, false, not, ◌&&◌, ◌||◌, Option, none, some, List, [],
  ◌∷◌, if◌then◌else◌, length, String-discrete, any, all, count, find, ltb, arith, map, ◌↔◌,
}
use mathlib.Core.Logic.{∥∥₁_elim}
use mathlib.Core.HLevel.{hedberg}
use mathlib.Core.List.{Perm, Permᴰ}
use pointlock.Ir.Vocab.{VerdictStatus, VerdictPolicy, status_eq, is_strict}
use pointlock.Ir.Record.{AssertionOutcomeRecord}
use pointlock.Runner.Judge.{
  FoldedVerdict, has_result, judge_outcomes, fold_step_verdict, fold_flow_verdict, overrules,
  flow_verdict,
}

-- Any fail fails, else any unknown leaves it open, else it passes.
abbrev by_priority : Bool → Bool → VerdictStatus
by_priority any_fail any_unknown =
    if any_fail
    then VerdictStatus.fail
    else if any_unknown
    then VerdictStatus.unknown
    else VerdictStatus.pass

module _ {ℓ} {A : Type ℓ} where
  find-any :
      (p : A → Bool) (xs : List A) → any p xs ≡ elim (find p xs) [ none ↦ false | some x ↦ true ]
  find-any p [] = refl
  find-any p (x ∷ xs) = ground (arith, find-any p xs)

  count-any : (p : A → Bool) (xs : List A) → ltb 0 (count p xs) ≡ any p xs
  count-any p [] = refl
  count-any p (x ∷ xs) = ground (arith, count-any p xs)

judge_outcomes-status :
    (outcomes : List AssertionOutcomeRecord)
    → (judge_outcomes outcomes).0
      ≡ by_priority
          (any (has_result VerdictStatus.fail) outcomes)
          (any (has_result VerdictStatus.unknown) outcomes)
unfolding judge_outcomes
judge_outcomes-status outcomes = ground (
  arith,
  find-any (has_result VerdictStatus.fail) outcomes,
  find-any (has_result VerdictStatus.unknown) outcomes,
)

all_pass :
    (outcomes : List AssertionOutcomeRecord)
    → all (has_result VerdictStatus.pass) outcomes ≡ (
        not (any (has_result VerdictStatus.fail) outcomes)
        && not (any (has_result VerdictStatus.unknown) outcomes))
all_pass [] = refl
all_pass (o ∷ os) = ground (arith, all_pass os)

-- A step fails exactly when an assertion failed, and passes exactly when every assertion passed
-- and the pass is not a degraded one under the strict policy.
pub fold_step_verdict-decides :
    (outcomes : List AssertionOutcomeRecord) (degraded_execution degraded_verify : Bool)
    (policy : VerdictPolicy)
    → (((fold_step_verdict outcomes degraded_execution degraded_verify policy).status
          ≡ VerdictStatus.fail)
        ↔ (any (has_result VerdictStatus.fail) outcomes ≡ true))
      × (((fold_step_verdict outcomes degraded_execution degraded_verify policy).status
            ≡ VerdictStatus.pass)
          ↔ ((all (has_result VerdictStatus.pass) outcomes
                && not ((degraded_execution || degraded_verify) && is_strict policy))
              ≡ true))
unfolding fold_step_verdict
fold_step_verdict-decides outcomes degraded_execution degraded_verify policy =
    ground (arith, judge_outcomes-status outcomes, all_pass outcomes)

same_any :
    (status : VerdictStatus) (verdicts : List (VerdictStatus × Bool))
    (outcomes : List AssertionOutcomeRecord)
    → map (λ (v : VerdictStatus × Bool). v.0) verdicts
      ≡ map (λ (o : AssertionOutcomeRecord). o.result) outcomes
    → any (λ (v : VerdictStatus × Bool). status_eq v.0 status) verdicts
      ≡ any (has_result status) outcomes
same_any status [] [] h = refl
same_any status [] (o ∷ os) h = cc
same_any status (v ∷ vs) [] h = cc
same_any status (v ∷ vs) (o ∷ os) h = ground (arith, same_any status vs os)

-- The status of a list of statuses, degradation included.
abbrev ruled : Bool → Bool → Bool → VerdictPolicy → VerdictStatus
ruled any_fail any_unknown degraded policy =
    if overrules degraded (by_priority any_fail any_unknown) policy
    then VerdictStatus.unknown
    else by_priority any_fail any_unknown

fold_step_verdict-ruled :
    (outcomes : List AssertionOutcomeRecord) (degraded_execution degraded_verify : Bool)
    (policy : VerdictPolicy)
    → (fold_step_verdict outcomes degraded_execution degraded_verify policy).status
      ≡ ruled
          (any (has_result VerdictStatus.fail) outcomes)
          (any (has_result VerdictStatus.unknown) outcomes)
          (degraded_execution || degraded_verify)
          policy
unfolding fold_step_verdict
fold_step_verdict-ruled outcomes degraded_execution degraded_verify policy =
    rw (judge_outcomes-status outcomes) refl

abbrev any_status : VerdictStatus → List (VerdictStatus × Bool) → Bool
any_status status verdicts = any (λ (v : VerdictStatus × Bool). status_eq v.0 status) verdicts

fold_flow_verdict-ruled :
    (verdicts : List (VerdictStatus × Bool)) (policy : VerdictPolicy) (flow : FoldedVerdict)
    → fold_flow_verdict verdicts policy ≡ some flow
    → (flow.status
        ≡ ruled
            (any_status VerdictStatus.fail verdicts)
            (any_status VerdictStatus.unknown verdicts)
            (any (λ (v : VerdictStatus × Bool). v.1) verdicts)
            policy)
      × (flow.degraded ≡ any (λ (v : VerdictStatus × Bool). v.1) verdicts)
unfolding fold_flow_verdict flow_verdict
fold_flow_verdict-ruled [] policy flow h = cc
fold_flow_verdict-ruled (v ∷ vs) policy flow h = ground (
  arith,
  count-any (λ (d : VerdictStatus × Bool). status_eq d.0 VerdictStatus.fail) (v ∷ vs),
  count-any (λ (d : VerdictStatus × Bool). status_eq d.0 VerdictStatus.unknown) (v ∷ vs),
)

-- A flow is judged by the rule of a step: where the judged steps have the statuses of a list of
-- assertion outcomes, and one of them is degraded exactly when the outcomes' step is, the flow
-- verdict has the status and the degradation of the step verdict.
pub fold_flow_verdict-as_step :
    (verdicts : List (VerdictStatus × Bool)) (outcomes : List AssertionOutcomeRecord)
    (degraded_execution degraded_verify : Bool) (policy : VerdictPolicy) (flow : FoldedVerdict)
    → map (λ (v : VerdictStatus × Bool). v.0) verdicts
      ≡ map (λ (o : AssertionOutcomeRecord). o.result) outcomes
    → any (λ (v : VerdictStatus × Bool). v.1) verdicts ≡ (degraded_execution || degraded_verify)
    → fold_flow_verdict verdicts policy ≡ some flow
    → (flow.status ≡ (fold_step_verdict outcomes degraded_execution degraded_verify policy).status)
      × (flow.degraded
          ≡ (fold_step_verdict outcomes degraded_execution degraded_verify policy).degraded)
unfolding fold_step_verdict
fold_flow_verdict-as_step verdicts outcomes degraded_execution degraded_verify policy flow same
      degraded h =
    let (status, flag) = fold_flow_verdict-ruled verdicts policy flow h in
    (
      status
          ∙ rw
              (
                same_any VerdictStatus.fail verdicts outcomes same,
                same_any VerdictStatus.unknown verdicts outcomes same,
                degraded,
              )
              (sym (fold_step_verdict-ruled outcomes degraded_execution degraded_verify policy)),
      flag ∙ degraded,
    )

module _ {ℓ} {A : Type ℓ} where
  Permᴰ-length : {xs ys : List A} → Permᴰ xs ys → length xs ≡ length ys
  Permᴰ-length Permᴰ.nil = refl
  Permᴰ-length (Permᴰ.cons h p) = ap suc (Permᴰ-length p)
  Permᴰ-length (Permᴰ.swap h k) = refl
  Permᴰ-length (Permᴰ.trans p q) = Permᴰ-length p ∙ Permᴰ-length q

  Permᴰ-count : (f : A → Bool) {xs ys : List A} → Permᴰ xs ys → count f xs ≡ count f ys
  Permᴰ-count f Permᴰ.nil = refl
  Permᴰ-count f (Permᴰ.cons h p) = rw (h, Permᴰ-count f p) refl
  Permᴰ-count f (Permᴰ.swap h k) = rw (h, k) (omega arith)
  Permᴰ-count f (Permᴰ.trans p q) = Permᴰ-count f p ∙ Permᴰ-count f q

  count_same_any : (p : A → Bool) (xs ys : List A) → count p xs ≡ count p ys → any p xs ≡ any p ys
  count_same_any p xs ys h = sym (count-any p xs) ∙ ap (λ n. ltb 0 n) h ∙ count-any p ys

-- A flow verdict depends on the counts alone.
fold_flow_verdict-counts :
    (xs ys : List (VerdictStatus × Bool)) (policy : VerdictPolicy)
    → length xs ≡ length ys
    → ((p : VerdictStatus × Bool → Bool) → count p xs ≡ count p ys)
    → fold_flow_verdict xs policy ≡ fold_flow_verdict ys policy
unfolding fold_flow_verdict
fold_flow_verdict-counts [] [] policy l c = refl
fold_flow_verdict-counts [] (y ∷ ys) policy l c = absurd (omega arith)
fold_flow_verdict-counts (x ∷ xs) [] policy l c = absurd (omega arith)
fold_flow_verdict-counts (x ∷ xs) (y ∷ ys) policy l c =
    rw
      (
        l,
        c (λ v. status_eq v.0 VerdictStatus.fail),
        c (λ v. status_eq v.0 VerdictStatus.unknown),
        c (λ v. status_eq v.0 VerdictStatus.pass),
        count_same_any (λ v. v.1) (x ∷ xs) (y ∷ ys) (c (λ v. v.1)),
      )
      refl

FoldedVerdict-set : IsSet (Option FoldedVerdict)
FoldedVerdict-set = hedberg (hlevel (String-discrete))

-- The empty list alone has no verdict.
fold_flow_verdict-none :
    (verdicts : List (VerdictStatus × Bool)) (policy : VerdictPolicy)
    → (fold_flow_verdict verdicts policy ≡ none) ↔ (verdicts ≡ [])
unfolding fold_flow_verdict
fold_flow_verdict-none [] policy = (λ h. refl, λ h. refl)
fold_flow_verdict-none (v ∷ vs) policy = (λ h. cc, λ h. cc)

-- Only a flow without judged steps has no verdict, and the order of the steps does not matter.
pub fold_flow_verdict-order :
    (verdicts reordered : List (VerdictStatus × Bool)) (policy : VerdictPolicy)
    → Perm verdicts reordered
    → ((fold_flow_verdict verdicts policy ≡ none) ↔ (verdicts ≡ []))
      × (fold_flow_verdict verdicts policy ≡ fold_flow_verdict reordered policy)
fold_flow_verdict-order verdicts reordered policy p = (
  fold_flow_verdict-none verdicts policy,
  ∥∥₁_elim p (FoldedVerdict-set _ _) (λ d.
      fold_flow_verdict-counts verdicts reordered policy (Permᴰ-length d) (λ f. Permᴰ-count f d)),
)

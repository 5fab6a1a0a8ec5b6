-- ===== src/Tests/Judge.antt =====
-- The theorems on verdicts, at two judged assertions.
use pointlock.Prelude.{
  ◌≡◌, ◌↔◌, refl, Bool, true, false, not, ◌&&◌, ◌||◌, none, some, Option, List, [], ◌∷◌, any, all,
}
use mathlib.Core.List.Perm
use pointlock.Ir.Vocab.{VerdictStatus, VerdictPolicy, is_strict}
use pointlock.Ir.Record.{AssertionOutcomeRecord}
use pointlock.Runner.Judge.{
  FoldedVerdict, has_result, fold_step_verdict, fold_flow_verdict, flow_verdict, judge_outcomes,
}
use pointlock.Runner.Rules.{
  fold_step_verdict-decides, fold_flow_verdict-as_step, fold_flow_verdict-order,
}

abbrev outcome : VerdictStatus → AssertionOutcomeRecord
outcome status = record { assert_id = "visible"; result = status; channel = none; reason = "seen" }

abbrev passes : List AssertionOutcomeRecord
passes = outcome VerdictStatus.pass ∷ outcome VerdictStatus.pass ∷ []

fold_step_verdict-decides_example :
    (((fold_step_verdict passes true false VerdictPolicy.strict).status ≡ VerdictStatus.fail)
      ↔ (any (has_result VerdictStatus.fail) passes ≡ true))
    × (((fold_step_verdict passes true false VerdictPolicy.strict).status ≡ VerdictStatus.pass) ↔ (
        (all (has_result VerdictStatus.pass) passes
          && not ((true || false) && is_strict VerdictPolicy.strict))
        ≡ true))
fold_step_verdict-decides_example = fold_step_verdict-decides passes true false VerdictPolicy.strict

abbrev judged : List (VerdictStatus × Bool)
judged = (VerdictStatus.pass, true) ∷ (VerdictStatus.pass, false) ∷ []

abbrev or_empty : Option FoldedVerdict → FoldedVerdict
or_empty none = record { status = VerdictStatus.pass; degraded = false; summary = "" }
or_empty (some v) = v

abbrev flow : FoldedVerdict
flow = or_empty (fold_flow_verdict judged VerdictPolicy.strict)

judged_lem : fold_flow_verdict judged VerdictPolicy.strict ≡ some flow
unfolding fold_flow_verdict
judged_lem = refl

fold_flow_verdict-as_step_example :
    (flow.status ≡ (fold_step_verdict passes true false VerdictPolicy.strict).status)
    × (flow.degraded ≡ (fold_step_verdict passes true false VerdictPolicy.strict).degraded)
fold_flow_verdict-as_step_example =
    fold_flow_verdict-as_step judged passes true false VerdictPolicy.strict flow refl refl
      judged_lem

abbrev swapped : List (VerdictStatus × Bool)
swapped = (VerdictStatus.pass, false) ∷ (VerdictStatus.pass, true) ∷ []

fold_flow_verdict-order_example :
    ((fold_flow_verdict judged VerdictPolicy.strict ≡ none) ↔ (judged ≡ []))
    × (fold_flow_verdict judged VerdictPolicy.strict
        ≡ fold_flow_verdict swapped VerdictPolicy.strict)
fold_flow_verdict-order_example =
    fold_flow_verdict-order judged swapped VerdictPolicy.strict
      (Perm.swap (VerdictStatus.pass, false) (VerdictStatus.pass, true) [])

-- A failed assertion outranks an open one, and the summary names it.
summary_test :
    (fold_step_verdict
      (outcome VerdictStatus.unknown ∷ outcome VerdictStatus.fail ∷ [])
      false
      true
      VerdictPolicy.strict).summary
    ≡ "assertion 'visible' failed: seen; verification was degraded to a non-preferred channel"
unfolding fold_step_verdict judge_outcomes
summary_test = refl

-- The flow's summary at three judged steps.
flow_summary_test :
    (flow_verdict 12 10 0 2 true VerdictPolicy.standard).summary
    ≡ "flow verdict over 12 judged step(s): 10 pass, 0 fail, 2 unknown; at least one verdict is degraded"
unfolding flow_verdict
flow_summary_test = refl

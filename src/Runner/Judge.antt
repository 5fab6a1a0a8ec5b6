-- ===== src/Runner/Judge.antt =====
-- crates/pointlock-runner/src/judge.rs, 81-183: folding outcomes into verdicts. The evaluation of
-- an assertion's expression and the output projection are not modelled.
use pointlock.Prelude.{
  ℕ, String, Bool, ◌&&◌, ◌||◌, Option, none, some, List, [], ◌∷◌, if◌then◌else◌, length, any, count,
  find, ltb, ◌<>◌, show_nat,
}
use pointlock.Ir.Vocab.{VerdictStatus, VerdictPolicy, status_eq, is_strict}
use pointlock.Ir.Record.{AssertionOutcomeRecord}

pub record FoldedVerdict : Type 0 where
  pub status : VerdictStatus
  pub degraded : Bool
  pub summary : String

abbrev pub has_result : VerdictStatus → AssertionOutcomeRecord → Bool
has_result status outcome = status_eq outcome.result status

abbrev fail_summary : AssertionOutcomeRecord → String
fail_summary failed = "assertion '" <> failed.assert_id <> "' failed: " <> failed.reason

abbrev unknown_summary : AssertionOutcomeRecord → String
unknown_summary unclear = "assertion '" <> unclear.assert_id <> "' unknown: " <> unclear.reason

-- The status and the summary before degradation is looked at.
unfoldable pub judge_outcomes : List AssertionOutcomeRecord → VerdictStatus × String
judge_outcomes outcomes = elim (find (has_result VerdictStatus.fail) outcomes) [
  | some failed ↦ (VerdictStatus.fail, fail_summary failed)
  | none ↦ elim (find (has_result VerdictStatus.unknown) outcomes) [
    | some unclear ↦ (VerdictStatus.unknown, unknown_summary unclear)
    | none ↦ (VerdictStatus.pass, "all " <> show_nat (length outcomes) <> " assertion(s) passed")
  ]
]

abbrev strict_note : String
strict_note = "; strict verdict policy folds a degraded pass to unknown"

abbrev note : Bool → String → String → String
note condition text summary = if condition then summary <> text else summary

-- Whether a degraded pass folds to unknown.
abbrev pub overrules : Bool → VerdictStatus → VerdictPolicy → Bool
overrules degraded status policy =
    degraded && status_eq status VerdictStatus.pass && is_strict policy

unfoldable pub fold_step_verdict :
    List AssertionOutcomeRecord → Bool → Bool → VerdictPolicy → FoldedVerdict
fold_step_verdict outcomes degraded_execution degraded_verify policy =
    let (status, summary) = judge_outcomes outcomes in
    let noted = note degraded_verify "; verification was degraded to a non-preferred channel" (
      note degraded_execution "; execution was degraded by the provider (unauthorized mode)"
        summary) in
    let degraded = degraded_execution || degraded_verify in
    let strict = overrules degraded status policy in
    record {
      status = (if strict then VerdictStatus.unknown else status);
      degraded = degraded;
      summary = note strict strict_note noted;
    }

-- `count(step_verdicts, status)`.
abbrev pub count_status : List (VerdictStatus × Bool) → VerdictStatus → ℕ
count_status verdicts status = count (λ (v : VerdictStatus × Bool). status_eq v.0 status) verdicts

abbrev flow_status : ℕ → ℕ → VerdictStatus
flow_status fails unknowns =
    if ltb 0 fails
    then VerdictStatus.fail
    else if ltb 0 unknowns
    then VerdictStatus.unknown
    else VerdictStatus.pass

-- The flow verdict from the counts of the judged steps.
unfoldable pub flow_verdict : ℕ → ℕ → ℕ → ℕ → Bool → VerdictPolicy → FoldedVerdict
flow_verdict judged passes fails unknowns degraded policy =
    let status = flow_status fails unknowns in
    let strict = overrules degraded status policy in
    let summary =
      "flow verdict over "
      <> show_nat judged
      <> " judged step(s): "
      <> show_nat passes
      <> " pass, "
      <> show_nat fails
      <> " fail, "
      <> show_nat unknowns
      <> " unknown" in
    record {
      status = (if strict then VerdictStatus.unknown else status);
      degraded = degraded;
      summary =
          note strict strict_note (note degraded "; at least one verdict is degraded" summary);
    }

unfoldable pub fold_flow_verdict :
    List (VerdictStatus × Bool) → VerdictPolicy → Option FoldedVerdict
fold_flow_verdict [] policy = none
fold_flow_verdict (v ∷ vs) policy =
    let verdicts = v ∷ vs in
    some (
      flow_verdict (length verdicts) (count_status verdicts VerdictStatus.pass)
        (count_status verdicts VerdictStatus.fail) (count_status verdicts VerdictStatus.unknown)
        (any (λ (d : VerdictStatus × Bool). d.1) verdicts) policy)

-- ===== src/Tests/Verdicts.antt =====
-- The theorems on predicates and projections, at a scope with one parameter and one judged step.
use pointlock.Prelude.{
  String, ◌≡◌, ◌↔◌, refl, true, false, not, ◌&&◌, ◌||◌, some, List, [], ◌∷◌, any, all, ok,
}
use pointlock.Ir.Vocab.{AssertId, VerdictStatus, VerdictPolicy, is_strict}
use pointlock.Ir.Json.{Value, Fields, get}
use pointlock.Expr.Syntax.{Expr, EvalError, PureFn}
use pointlock.Expr.Eval.{eval}
use pointlock.Tests.Expr.{engines, scope, verdict_is, lab, both}
use pointlock.Runner.Judge.{fold_step_verdict}
use pointlock.Runner.Predicates.{ExprMap, project_fields, project_output}
use pointlock.Runner.Verdicts.{
  gives, outcomes_of, fold_step_verdict-predicates, Gives, project_output-Gives,
}

abbrev show_value : Value → String
show_value value = "a value"

abbrev show_error : EvalError → String
show_error error = "an error"

abbrev assertions : List (AssertId × Expr)
assertions = ("is-lab", lab) ∷ ("both", Expr.call PureFn.and both) ∷ []

fold_step_verdict-predicates_example :
    (((fold_step_verdict
          (outcomes_of engines show_value show_error scope assertions)
          true
          false
          VerdictPolicy.strict).status
        ≡ VerdictStatus.fail)
      ↔ (any (λ (a : AssertId × Expr). gives false (eval engines scope a.1)) assertions ≡ true))
    × (((fold_step_verdict
            (outcomes_of engines show_value show_error scope assertions)
            true
            false
            VerdictPolicy.strict).status
          ≡ VerdictStatus.pass)
        ↔ ((all (λ (a : AssertId × Expr). gives true (eval engines scope a.1)) assertions
              && not ((true || false) && is_strict VerdictPolicy.strict))
            ≡ true))
fold_step_verdict-predicates_example =
    fold_step_verdict-predicates engines show_value show_error scope assertions true false
      VerdictPolicy.strict

abbrev outputs : ExprMap
outputs = ("connected", verdict_is "pass") ∷ ("ssid", Expr.ref ("params" ∷ "ssid" ∷ [])) ∷ []

abbrev projected : Value
projected = Value.object (
    Fields.field "connected" (Value.bool true)
      (Fields.field "ssid" (Value.string "lab-5g") Fields.end_fields))

projected_test : project_output engines (some outputs) Value.null scope ≡ ok projected
unfolding project_output eval project_fields
projected_test = refl

project_output-Gives_example :
    Gives engines scope (some (Expr.ref ("params" ∷ "ssid" ∷ []))) (get "ssid" projected)
project_output-Gives_example =
    project_output-Gives engines Value.null projected outputs scope "ssid" projected_test

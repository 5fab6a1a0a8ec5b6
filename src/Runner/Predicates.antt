-- ===== src/Runner/Predicates.antt =====
-- judge.rs, 16-74: the projection of a step's output and the judgment of an expression predicate.
use pointlock.Prelude.{
  String, true, false, Option, none, some, List, [], ◌∷◌, Result, ok, err, ◌>>=◌, ◌<>◌,
}
use pointlock.Ir.Vocab.{AssertId, VerdictStatus}
use pointlock.Ir.Json.{Value, Fields}
use pointlock.Ir.Record.{AssertionOutcomeRecord}
use pointlock.Expr.Syntax.{Expr, EvalError}
use pointlock.Expr.Scope.{Scope, Resolved}
use pointlock.Expr.Eval.{Engines, eval}

-- An expression map: its entries in the order of the keys, which are different.
abbrev pub ExprMap : Type 0
ExprMap = List (String × Expr)

module _ (engines : Engines) where
  -- The fields of the projection, which the first failure ends. The keys of a map are different, so an
  -- inserted field replaces none.
  unfoldable pub project_fields : ExprMap → Scope → Result Fields EvalError
  project_fields [] scope = ok Fields.end_fields
  project_fields ((name, e) ∷ outputs) scope = eval engines scope e >>= λ value.
      project_fields outputs scope >>= λ rest. ok (Fields.field name value rest)

  -- `project_output`, from the step's `outputs`.
  unfoldable pub project_output : Option ExprMap → Value → Scope → Resolved
  project_output none raw scope = ok raw
  project_output (some outputs) raw scope =
      project_fields outputs scope >>= λ fields. ok (Value.object fields)

-- `Display` of values and of evaluation errors.
module _ (show_value : Value → String) (show_error : EvalError → String) where
  unfoldable pub judge_predicate : Resolved → VerdictStatus × String
  judge_predicate (ok (Value.bool true)) = (VerdictStatus.pass, "expr predicate evaluated to true")
  judge_predicate (ok (Value.bool false)) =
      (VerdictStatus.fail, "expr predicate evaluated to false")
  judge_predicate (ok other) = (
    VerdictStatus.unknown,
    "expr predicate evaluated to a non-boolean value: " <> show_value other,
  )
  judge_predicate (err error) =
      (VerdictStatus.unknown, "expr predicate could not be evaluated: " <> show_error error)

  -- `eval_expr_assertion`: an expression consumes no observation channel.
  unfoldable pub eval_expr_assertion : Engines → AssertId → Expr → Scope → AssertionOutcomeRecord
  eval_expr_assertion engines assert_id e scope =
      let (result, reason) = judge_predicate (eval engines scope e) in
      record { assert_id = assert_id; result = result; channel = none; reason = reason }

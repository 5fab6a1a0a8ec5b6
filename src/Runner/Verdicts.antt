-- ===== src/Runner/Verdicts.antt =====
-- judge.rs, from the predicates of a step to its verdict.
use pointlock.Prelude.{
  String, ◌≡◌, ◌↔◌, refl, subst, Bool, true, false, ◌&&◌, ◌||◌, not, Option, none, some, List, [],
  ◌∷◌, any, all, ok, err, if◌then◌else◌, >>=-eq-ok, ok-injective, str_eq, lookup, arith,
}
use pointlock.Ir.Vocab.{AssertId, VerdictStatus, VerdictPolicy, status_eq, is_strict}
use pointlock.Ir.Json.{Value, Fields, get_field, get}
use pointlock.Ir.Record.{AssertionOutcomeRecord}
use pointlock.Expr.Syntax.{Expr, EvalError}
use pointlock.Expr.Scope.{Scope, Resolved}
use pointlock.Expr.Eval.{Engines, eval}
use pointlock.Runner.Judge.{has_result, fold_step_verdict}
use pointlock.Runner.Rules.{fold_step_verdict-decides}
use pointlock.Runner.Predicates.{
  ExprMap, project_fields, project_output, judge_predicate, eval_expr_assertion,
}

-- The predicate gave this Boolean.
abbrev pub gives : Bool → Resolved → Bool
gives true (ok (Value.bool b)) = b
gives false (ok (Value.bool b)) = not b
gives _ _ = false

module _ (engines : Engines) (show_value : Value → String) (show_error : EvalError → String) where
  judge_predicate-gives :
      (r : Resolved)
      → (status_eq (judge_predicate show_value show_error r).0 VerdictStatus.pass ≡ gives true r)
        × (status_eq (judge_predicate show_value show_error r).0 VerdictStatus.fail ≡ gives false r)
  unfolding judge_predicate
  judge_predicate-gives (ok (Value.bool true)) = (refl, refl)
  judge_predicate-gives (ok (Value.bool false)) = (refl, refl)
  judge_predicate-gives (ok Value.null) = (refl, refl)
  judge_predicate-gives (ok (Value.number n)) = (refl, refl)
  judge_predicate-gives (ok (Value.string t)) = (refl, refl)
  judge_predicate-gives (ok (Value.array x)) = (refl, refl)
  judge_predicate-gives (ok (Value.object x)) = (refl, refl)
  judge_predicate-gives (err x) = (refl, refl)

  -- The outcomes of a step whose assertions are all expressions.
  abbrev pub outcomes_of : Scope → List (AssertId × Expr) → List AssertionOutcomeRecord
  outcomes_of scope [] = []
  outcomes_of scope ((id, e) ∷ assertions) =
      eval_expr_assertion show_value show_error engines id e scope ∷ outcomes_of scope assertions

  outcomes_of-gives :
      (scope : Scope) (assertions : List (AssertId × Expr))
      → (all (has_result VerdictStatus.pass) (outcomes_of scope assertions)
          ≡ all (λ (a : AssertId × Expr). gives true (eval engines scope a.1)) assertions)
        × (any (has_result VerdictStatus.fail) (outcomes_of scope assertions)
            ≡ any (λ (a : AssertId × Expr). gives false (eval engines scope a.1)) assertions)
  unfolding eval_expr_assertion
  outcomes_of-gives scope [] = (refl, refl)
  outcomes_of-gives scope ((id, e) ∷ assertions) =
      ground
        (arith, judge_predicate-gives (eval engines scope e), outcomes_of-gives scope assertions)

  -- A step whose assertions are expressions fails exactly when one of them evaluates to false, and passes
  -- exactly when all of them evaluate to true and the pass is not a degraded one under the strict policy:
  -- an error or a value that is no Boolean is neither.
  pub fold_step_verdict-predicates :
      (scope : Scope) (assertions : List (AssertId × Expr))
      (degraded_execution degraded_verify : Bool) (policy : VerdictPolicy)
      → (((fold_step_verdict
              (outcomes_of scope assertions)
              degraded_execution
              degraded_verify
              policy).status
            ≡ VerdictStatus.fail)
          ↔ (any (λ (a : AssertId × Expr). gives false (eval engines scope a.1)) assertions ≡ true))
        × (((fold_step_verdict
                (outcomes_of scope assertions)
                degraded_execution
                degraded_verify
                policy).status
              ≡ VerdictStatus.pass)
            ↔ ((all (λ (a : AssertId × Expr). gives true (eval engines scope a.1)) assertions
                  && not ((degraded_execution || degraded_verify) && is_strict policy))
                ≡ true))
  fold_step_verdict-predicates scope assertions degraded_execution degraded_verify policy =
      let (passes, fails) = outcomes_of-gives scope assertions in
      rw (← passes, ← fails)
        (fold_step_verdict-decides (outcomes_of scope assertions) degraded_execution degraded_verify
          policy)

module _ (engines : Engines) where
  -- The value of the expression, or nothing for none.
  abbrev pub Gives : Scope → Option Expr → Option Value → Type 0
  Gives scope none found = found ≡ none
  Gives scope (some e) found =
      (value : Value) × (eval engines scope e ≡ ok value) × (found ≡ some value)

  select-Gives :
      (scope : Scope) (here : Bool) (e : Expr) (value : Value) (later : Option Expr)
      (found : Option Value)
      → eval engines scope e ≡ ok value
      → Gives scope later found
      → Gives scope (if here then some e else later) (if here then some value else found)
  select-Gives scope true e value later found evaluated rest = (value, evaluated, refl)
  select-Gives scope false e value later found evaluated rest = rest

  project_fields-Gives :
      (outputs : ExprMap) (scope : Scope) (fields : Fields) (name : String)
      → project_fields engines outputs scope ≡ ok fields
      → Gives scope (lookup name outputs) (get_field name fields)
  unfolding project_fields
  project_fields-Gives [] scope fields name q =
      subst (λ f. get_field name f ≡ none) (ok-injective q) refl
  project_fields-Gives ((key, e) ∷ outputs) scope fields name q =
      let (value, evaluated, later) = >>=-eq-ok (eval engines scope e) _ q in
      let (rest, projected, made) = >>=-eq-ok (project_fields engines outputs scope) _ later in
      subst (λ f. Gives scope (lookup name ((key, e) ∷ outputs)) (get_field name f))
        (ok-injective made)
        (select-Gives scope (str_eq key name) e value (lookup name outputs) (get_field name rest)
          evaluated (project_fields-Gives outputs scope rest name projected))

  -- When the projection of a step's output by its map succeeds, the result has, under each name of the
  -- map, the value that the name's expression evaluates to, and under any other name nothing.
  pub project_output-Gives :
      (raw value : Value) (outputs : ExprMap) (scope : Scope) (name : String)
      → project_output engines (some outputs) raw scope ≡ ok value
      → Gives scope (lookup name outputs) (get name value)
  unfolding project_output
  project_output-Gives raw value outputs scope name q =
      let (fields, projected, made) = >>=-eq-ok (project_fields engines outputs scope) _ q in
      subst (λ v. Gives scope (lookup name outputs) (get name v)) (ok-injective made)
        (project_fields-Gives outputs scope fields name projected)

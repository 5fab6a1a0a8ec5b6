-- ===== src/Expr/Scope.antt =====
-- crates/pointlock-expr/src/scope.rs: the scope of an evaluation and the resolution of references.
use pointlock.Prelude.{
  String, Option, none, some, List, [], ◌∷◌, Result, ok, err, ◌>>=◌, if◌then◌else◌, str_eq, lookup,
  ◌<>◌,
}
use pointlock.Ir.Json.{Value, get_field}
use pointlock.Expr.Syntax.{RefPath, ScopeRoot, EvalError, type_of}

pub record StepScope : Type 0 where
  pub output : Option Value
  pub verdict : Option Value

pub record Scope : Type 0 where
  pub params : List (String × Value)
  pub env : List (String × Value)
  pub vars : List (String × Value)
  pub iter : List (String × Value)
  pub steps : List (String × StepScope)

abbrev pub Resolved : Type 0
Resolved = Result Value EvalError

abbrev pub or_missing : Option Value → EvalError → Resolved
or_missing none missing = err missing
or_missing (some value) missing = ok value

-- `traverse`: the remaining segments, from a value.
unfoldable pub traverse : RefPath → Value → List String → Resolved
traverse path value [] = ok value
traverse path (Value.object fields) (segment ∷ rest) =
    or_missing (get_field segment fields) (EvalError.missing_path path segment) >>= λ inner.
    traverse path inner rest
traverse path value (segment ∷ rest) = err (EvalError.not_an_object path segment (type_of value))

-- The roots that hold values by name. Without a dot the name is empty.
unfoldable pub resolve_name : RefPath → List (String × Value) → ScopeRoot → List String → Resolved
unfolding traverse
resolve_name path map root [] = or_missing (lookup "" map) (EvalError.missing_root path root "")
resolve_name path map root (name ∷ segments) =
    or_missing (lookup name map) (EvalError.missing_root path root name) >>= λ base.
    traverse path base segments

-- The text of the segments.
unfoldable pub dotted : List String → String
dotted [] = ""
dotted (s ∷ []) = s
dotted (s ∷ t ∷ rest) = s <> "." <> dotted (t ∷ rest)

-- `output`, or the fields of the output, from the value of the output.
unfoldable pub fields_of : RefPath → List String → Value → Resolved
unfolding traverse dotted
fields_of path [] output = err (EvalError.missing_path path "")
fields_of path (first ∷ fields) output =
    if str_eq first "output"
    then traverse path output fields
    else err (EvalError.missing_path path (dotted (first ∷ fields)))

unfoldable pub resolve_output : RefPath → StepScope → List String → Resolved
unfolding fields_of
resolve_output path entry tail =
    or_missing entry.output (EvalError.missing_path path "output") >>= fields_of path tail

-- What follows the step id: `verdict`, or a reference to the output.
unfoldable pub resolve_tail : RefPath → StepScope → List String → Resolved
unfolding resolve_output
resolve_tail path entry (only ∷ []) =
    if str_eq only "verdict"
    then or_missing entry.verdict (EvalError.missing_path path "verdict")
    else resolve_output path entry (only ∷ [])
resolve_tail path entry tail = resolve_output path entry tail

unfoldable pub resolve_entry : RefPath → Option StepScope → String → List String → Resolved
unfolding resolve_tail
resolve_entry path none step_id tail = err (EvalError.missing_root path ScopeRoot.steps step_id)
resolve_entry path (some entry) step_id tail = resolve_tail path entry tail

unfoldable pub resolve_step : RefPath → List (String × StepScope) → List String → Resolved
unfolding resolve_entry
resolve_step path steps [] = resolve_entry path (lookup "" steps) "" []
resolve_step path steps (step_id ∷ tail) = resolve_entry path (lookup step_id steps) step_id tail

unfoldable pub resolve_root : Scope → RefPath → String → List String → Resolved
unfolding resolve_name resolve_step
resolve_root scope path root rest =
    if str_eq root "params"
    then resolve_name path scope.params ScopeRoot.params rest
    else if str_eq root "env"
    then resolve_name path scope.env ScopeRoot.env rest
    else if str_eq root "vars"
    then resolve_name path scope.vars ScopeRoot.vars rest
    else if str_eq root "iter"
    then resolve_name path scope.iter ScopeRoot.iter rest
    else if str_eq root "steps"
    then resolve_step path scope.steps rest
    else err (EvalError.unknown_root path root)

-- `Scope::resolve`.
unfoldable pub resolve : Scope → RefPath → Resolved
unfolding resolve_root
resolve scope [] = resolve_root scope [] "" []
resolve scope (root ∷ rest) = resolve_root scope (root ∷ rest) root rest

-- ===== src/Expr/Dynamic.antt =====
-- eval.rs and scope.rs: resolution and the plain functions raise no error that lies in the expression.
use pointlock.Prelude.{
  ℕ, suc, ◌≡◌, refl, String, Bool, true, false, Option, none, some, List, [], ◌∷◌, Result, ok, err,
  ◌>>=◌, lookup, Bool-cases, inl, inr, arith,
}
use pointlock.Ir.Json.{Value, get_field}
use pointlock.Expr.Syntax.{RefPath, PureFn, ScopeRoot, EvalError}
use pointlock.Expr.Scope.{
  Scope, StepScope, Resolved, resolve, resolve_root, resolve_name, resolve_step, resolve_entry,
  resolve_tail, resolve_output, fields_of, traverse, or_missing,
}
use pointlock.Expr.Eval.{
  Evaluated, bool_of, expect_bool, expect_string, eval_len, is_absent, eval_and, eval_or,
  eval_concat, eval_coalesce,
}

-- The errors that lie in the expression itself: a wrong number of arguments, a computed literal,
-- a query that does not parse and an unknown flag.
abbrev pub is_static : EvalError → Bool
is_static (EvalError.arity_mismatch _ _ _) = true
is_static (EvalError.lit_required _ _) = true
is_static (EvalError.invalid_json_path _ _) = true
is_static (EvalError.invalid_regex_flags _) = true
is_static _ = false

abbrev pub fails_static {ℓ} : {A : Type ℓ} → Result A EvalError → Bool
fails_static (ok a) = false
fails_static (err x) = is_static x

-- A chain of parts that do not fail so does not fail so.
pub chain_dynamic {ℓ} :
    {A B : Type ℓ} (r : Result A EvalError) (next : A → Result B EvalError)
    → fails_static r ≡ false
    → ((a : A) → fails_static (next a) ≡ false)
    → fails_static (r >>= next) ≡ false
chain_dynamic (ok a) next h k = k a
chain_dynamic (err x) next h k = h

pub or_missing_dynamic :
    (v : Option Value) (x : EvalError) → is_static x ≡ false → fails_static (or_missing v x) ≡ false
or_missing_dynamic none x h = h
or_missing_dynamic (some v) x h = refl

pub traverse_dynamic :
    (path : RefPath) (v : Value) (rest : List String) → fails_static (traverse path v rest) ≡ false
unfolding traverse
traverse_dynamic path v [] = refl
traverse_dynamic path (Value.object fields) (s ∷ rest) =
    chain_dynamic (or_missing (get_field s fields) (EvalError.missing_path path s)) _
      (or_missing_dynamic (get_field s fields) (EvalError.missing_path path s) refl)
      (λ v. traverse_dynamic path v rest)
traverse_dynamic path _ (s ∷ rest) = refl

pub resolve_name_dynamic :
    (path : RefPath) (map : List (String × Value)) (root : ScopeRoot) (rest : List String)
    → fails_static (resolve_name path map root rest) ≡ false
unfolding resolve_name
resolve_name_dynamic path map root [] =
    or_missing_dynamic (lookup "" map) (EvalError.missing_root path root "") refl
resolve_name_dynamic path map root (name ∷ rest) =
    chain_dynamic (or_missing (lookup name map) (EvalError.missing_root path root name)) _
      (or_missing_dynamic (lookup name map) (EvalError.missing_root path root name) refl)
      (λ v. traverse_dynamic path v rest)

pub fields_of_dynamic :
    (path : RefPath) (tail : List String) (v : Value) → fails_static (fields_of path tail v) ≡ false
unfolding fields_of
fields_of_dynamic path [] v = refl
fields_of_dynamic path (first ∷ fields) v = ground (arith, traverse_dynamic path v fields)

pub resolve_output_dynamic :
    (path : RefPath) (entry : StepScope) (tail : List String)
    → fails_static (resolve_output path entry tail) ≡ false
unfolding resolve_output
resolve_output_dynamic path entry tail =
    chain_dynamic (or_missing entry.output (EvalError.missing_path path "output"))
      (fields_of path tail)
      (or_missing_dynamic entry.output (EvalError.missing_path path "output") refl)
      (fields_of_dynamic path tail)

pub resolve_tail_dynamic :
    (path : RefPath) (entry : StepScope) (tail : List String)
    → fails_static (resolve_tail path entry tail) ≡ false
unfolding resolve_tail
resolve_tail_dynamic path entry [] = resolve_output_dynamic path entry []
resolve_tail_dynamic path entry (only ∷ []) = ground (
  arith,
  resolve_output_dynamic path entry (only ∷ []),
  or_missing_dynamic entry.verdict (EvalError.missing_path path "verdict") refl,
)
resolve_tail_dynamic path entry (a ∷ b ∷ rest) = resolve_output_dynamic path entry (a ∷ b ∷ rest)

pub resolve_entry_dynamic :
    (path : RefPath) (entry : Option StepScope) (step_id : String) (tail : List String)
    → fails_static (resolve_entry path entry step_id tail) ≡ false
unfolding resolve_entry
resolve_entry_dynamic path none step_id tail = refl
resolve_entry_dynamic path (some entry) step_id tail = resolve_tail_dynamic path entry tail

pub resolve_step_dynamic :
    (path : RefPath) (steps : List (String × StepScope)) (rest : List String)
    → fails_static (resolve_step path steps rest) ≡ false
unfolding resolve_step
resolve_step_dynamic path steps [] = resolve_entry_dynamic path (lookup "" steps) "" []
resolve_step_dynamic path steps (step_id ∷ tail) =
    resolve_entry_dynamic path (lookup step_id steps) step_id tail

pub resolve_root_dynamic :
    (scope : Scope) (path : RefPath) (root : String) (rest : List String)
    → fails_static (resolve_root scope path root rest) ≡ false
unfolding resolve_root
resolve_root_dynamic scope path root rest = ground (
  arith,
  resolve_name_dynamic path scope.params ScopeRoot.params rest,
  resolve_name_dynamic path scope.env ScopeRoot.env rest,
  resolve_name_dynamic path scope.vars ScopeRoot.vars rest,
  resolve_name_dynamic path scope.iter ScopeRoot.iter rest,
  resolve_step_dynamic path scope.steps rest,
)

pub resolve_dynamic : (scope : Scope) (path : RefPath) → fails_static (resolve scope path) ≡ false
unfolding resolve
resolve_dynamic scope [] = resolve_root_dynamic scope [] "" []
resolve_dynamic scope (root ∷ rest) = resolve_root_dynamic scope (root ∷ rest) root rest

abbrev pub AllDynamic : List Evaluated → Type 0
AllDynamic [] = Unit
AllDynamic ((e, r) ∷ rest) = (fails_static r ≡ false) × AllDynamic rest

pub expect_bool_dynamic :
    (f : PureFn) (i : ℕ) (v : Value) → fails_static (expect_bool f i v) ≡ false
expect_bool_dynamic f i (Value.bool b) = refl
expect_bool_dynamic f i _ = refl

pub expect_string_dynamic :
    (f : PureFn) (i : ℕ) (v : Value) → fails_static (expect_string f i v) ≡ false
expect_string_dynamic f i (Value.string s) = refl
expect_string_dynamic f i _ = refl

pub bool_of_dynamic :
    (f : PureFn) (i : ℕ) (r : Resolved)
    → fails_static r ≡ false
    → fails_static (bool_of f i r) ≡ false
bool_of_dynamic f i r h = chain_dynamic r _ h (expect_bool_dynamic f i)

pub eval_and_dynamic :
    (i : ℕ) (args : List Evaluated) → AllDynamic args → fails_static (eval_and i args) ≡ false
unfolding eval_and
eval_and_dynamic i [] h = refl
eval_and_dynamic i ((e, r) ∷ rest) h =
    let later = eval_and_dynamic (suc i) rest h.1 in
    chain_dynamic (bool_of PureFn.and i r) _ (bool_of_dynamic PureFn.and i r h.0)
      (λ b. ground (arith, later))

pub eval_or_dynamic :
    (i : ℕ) (args : List Evaluated) → AllDynamic args → fails_static (eval_or i args) ≡ false
unfolding eval_or
eval_or_dynamic i [] h = refl
eval_or_dynamic i ((e, r) ∷ rest) h =
    let later = eval_or_dynamic (suc i) rest h.1 in
    chain_dynamic (bool_of PureFn.or i r) _ (bool_of_dynamic PureFn.or i r h.0)
      (λ b. ground (arith, later))

pub eval_concat_dynamic :
    (i : ℕ) (out : String) (args : List Evaluated)
    → AllDynamic args
    → fails_static (eval_concat i out args) ≡ false
unfolding eval_concat
eval_concat_dynamic i out [] h = refl
eval_concat_dynamic i out ((e, r) ∷ rest) h =
    chain_dynamic (r >>= expect_string PureFn.concat i) _
      (chain_dynamic r _ h.0 (expect_string_dynamic PureFn.concat i))
      (λ s. eval_concat_dynamic (suc i) _ rest h.1)

pub eval_coalesce_dynamic :
    (args : List Evaluated) → AllDynamic args → fails_static (eval_coalesce args) ≡ false
unfolding eval_coalesce
eval_coalesce_dynamic [] h = refl
eval_coalesce_dynamic ((e, r) ∷ rest) h = elim (Bool-cases (is_absent (e, r))) [
  | inl absent ↦ rw absent (eval_coalesce_dynamic rest h.1)
  | inr present ↦ rw present h.0
]

pub eval_len_dynamic : (v : Value) → fails_static (eval_len v) ≡ false
eval_len_dynamic (Value.string s) = refl
eval_len_dynamic (Value.array x) = refl
eval_len_dynamic _ = refl

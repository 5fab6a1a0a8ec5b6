-- ===== src/Expr/Types.antt =====
-- eval.rs: the type of what each function gives, where every value of the function has one type.
use pointlock.Prelude.{
  ℕ, suc, ◌≡◌, String, true, false, Option, none, some, List, [], ◌∷◌, ok, err, ◌>>=◌, >>=-eq-ok,
  arith, length, Bool-cases, inl, inr,
}
use pointlock.Ir.Json.{Value}
use pointlock.Expr.Syntax.{PureFn, Expr, Args, JsonType, type_of, admits, EvalError}
use pointlock.Expr.Scope.{Scope, Resolved}
use pointlock.Expr.Eval.{
  Engines, Evaluated, bool_of, expect_string, eval_len, arity_of, eval_and, eval_or, eval_concat,
  eval_regex_match, build_regex, apply_fn, eval_fn, eval, eval_args, lit_string, lit_flags,
}

-- The one type of a function's values, if it has one.
abbrev pub result_type : PureFn → Option JsonType
result_type PureFn.eq = some JsonType.boolean
result_type PureFn.ne = some JsonType.boolean
result_type PureFn.not = some JsonType.boolean
result_type PureFn.and = some JsonType.boolean
result_type PureFn.or = some JsonType.boolean
result_type PureFn.concat = some JsonType.string
result_type PureFn.len = some JsonType.number
result_type PureFn.coalesce = none
result_type PureFn.json_path = none
result_type PureFn.regex_match = some JsonType.boolean

-- A value of the type, or any value where none is known.
abbrev pub HasType : Option JsonType → Value → Type 0
HasType none v = Unit
HasType (some t) v = type_of v ≡ t

eval_and-HasType :
    (index : ℕ) (args : List Evaluated) (v : Value)
    → eval_and index args ≡ ok v
    → type_of v ≡ JsonType.boolean
unfolding eval_and
eval_and-HasType index [] v h = ground arith
eval_and-HasType index ((e, err x) ∷ rest) v h = cc
eval_and-HasType index ((e, ok (Value.bool true)) ∷ rest) v h =
    eval_and-HasType (suc index) rest v h
eval_and-HasType index ((e, ok (Value.bool false)) ∷ rest) v h = ground arith
eval_and-HasType index ((e, ok _) ∷ rest) v h = cc

eval_or-HasType :
    (index : ℕ) (args : List Evaluated) (v : Value)
    → eval_or index args ≡ ok v
    → type_of v ≡ JsonType.boolean
unfolding eval_or
eval_or-HasType index [] v h = ground arith
eval_or-HasType index ((e, err x) ∷ rest) v h = cc
eval_or-HasType index ((e, ok (Value.bool true)) ∷ rest) v h = ground arith
eval_or-HasType index ((e, ok (Value.bool false)) ∷ rest) v h = eval_or-HasType (suc index) rest v h
eval_or-HasType index ((e, ok _) ∷ rest) v h = cc

eval_concat-HasType :
    (index : ℕ) (out : String) (args : List Evaluated) (v : Value)
    → eval_concat index out args ≡ ok v
    → type_of v ≡ JsonType.string
unfolding eval_concat
eval_concat-HasType index out [] v h = ground arith
eval_concat-HasType index out ((e, r) ∷ rest) v h =
    let (s, _, q) = >>=-eq-ok (r >>= expect_string PureFn.concat index) _ h in
    eval_concat-HasType (suc index) _ rest v q

eval_len-HasType : (x v : Value) → eval_len x ≡ ok v → type_of v ≡ JsonType.number
eval_len-HasType (Value.string s) v h = ground arith
eval_len-HasType (Value.array x) v h = ground arith
eval_len-HasType _ v h = cc

module _ (engines : Engines) where
  eval_regex_match-HasType :
      (subject : Resolved) (pattern : Expr) (flags : Option Expr) (v : Value)
      → eval_regex_match engines subject pattern flags ≡ ok v
      → type_of v ≡ JsonType.boolean
  unfolding eval_regex_match
  eval_regex_match-HasType subject pattern flags v h =
      let (text, _, h1) = >>=-eq-ok (lit_string PureFn.regex_match 1 pattern) _ h in
      let (options, _, h2) = >>=-eq-ok (lit_flags engines flags) _ h1 in
      let (is_match, _, h3) = >>=-eq-ok (build_regex engines text options) _ h2 in
      let (s, _, h4) = >>=-eq-ok (subject >>= expect_string PureFn.regex_match 0) _ h3 in
      ground arith

  apply_fn-HasType :
      (f : PureFn) (args : List Evaluated) (v : Value)
      → apply_fn engines f args ≡ ok v
      → HasType (result_type f) v
  unfolding apply_fn
  apply_fn-HasType PureFn.coalesce args v h = tt
  apply_fn-HasType PureFn.json_path args v h = tt
  apply_fn-HasType PureFn.and args v h = eval_and-HasType 0 args v h
  apply_fn-HasType PureFn.or args v h = eval_or-HasType 0 args v h
  apply_fn-HasType PureFn.concat args v h = eval_concat-HasType 0 "" args v h
  apply_fn-HasType PureFn.eq ((_, a) ∷ (_, b) ∷ []) v h =
      let (x, _, q) = >>=-eq-ok a _ h in let (y, _, k) = >>=-eq-ok b _ q in ground arith
  apply_fn-HasType PureFn.eq [] v h = cc
  apply_fn-HasType PureFn.eq (a ∷ []) v h = cc
  apply_fn-HasType PureFn.eq (a ∷ b ∷ c ∷ rest) v h = cc
  apply_fn-HasType PureFn.ne ((_, a) ∷ (_, b) ∷ []) v h =
      let (x, _, q) = >>=-eq-ok a _ h in let (y, _, k) = >>=-eq-ok b _ q in ground arith
  apply_fn-HasType PureFn.ne [] v h = cc
  apply_fn-HasType PureFn.ne (a ∷ []) v h = cc
  apply_fn-HasType PureFn.ne (a ∷ b ∷ c ∷ rest) v h = cc
  apply_fn-HasType PureFn.not ((_, a) ∷ []) v h =
      let (x, _, q) = >>=-eq-ok (bool_of PureFn.not 0 a) _ h in ground arith
  apply_fn-HasType PureFn.not [] v h = cc
  apply_fn-HasType PureFn.not (a ∷ b ∷ rest) v h = cc
  apply_fn-HasType PureFn.len [] v h = cc
  apply_fn-HasType PureFn.len (a ∷ b ∷ rest) v h = cc
  apply_fn-HasType PureFn.len ((_, err x) ∷ []) v h = cc
  apply_fn-HasType PureFn.len ((_, ok x) ∷ []) v h = eval_len-HasType x v h
  apply_fn-HasType PureFn.regex_match ((_, subject) ∷ (pattern, _) ∷ []) v h =
      eval_regex_match-HasType subject pattern none v h
  apply_fn-HasType PureFn.regex_match ((_, subject) ∷ (pattern, _) ∷ (flags, _) ∷ []) v h =
      eval_regex_match-HasType subject pattern (some flags) v h
  apply_fn-HasType PureFn.regex_match [] v h = cc
  apply_fn-HasType PureFn.regex_match (a ∷ []) v h = cc
  apply_fn-HasType PureFn.regex_match (a ∷ b ∷ c ∷ d ∷ rest) v h = cc

  pub admitted_applies :
      (f : PureFn) (args : List Evaluated) (v : Value)
      → eval_fn engines f args ≡ ok v
      → apply_fn engines f args ≡ ok v
  unfolding eval_fn
  admitted_applies f args v h = elim (Bool-cases (admits (arity_of f) (length args))) [
    | inl fits ↦ rw fits at h
    | inr misfit ↦ absurd (clash (rw misfit at h))
  ]
    where
      clash :
          ◌≡◌ {A = Resolved} (err (EvalError.arity_mismatch f (arity_of f) (length args))) (ok v)
          → ⊥
      clash q = cc

  -- What evaluation gives for a function application: a Boolean for comparisons, connectives and matches, a text for concat, a number for len.
  pub eval-call-HasType :
      (scope : Scope) (f : PureFn) (args : Args) (v : Value)
      → eval engines scope (Expr.call f args) ≡ ok v
      → HasType (result_type f) v
  unfolding eval eval_fn
  eval-call-HasType scope f args v h =
      apply_fn-HasType f (eval_args engines scope args) v
        (admitted_applies f (eval_args engines scope args) v h)

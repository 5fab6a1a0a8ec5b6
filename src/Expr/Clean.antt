-- ===== src/Expr/Clean.antt =====
-- check.rs and eval.rs: what a clean check rules out.
use pointlock.Prelude.{
  suc, ◌≡◌, refl, sym, ◌∙◌, ap, String, Bool, true, false, none, some, List, [], ◌∷◌, ◌++◌, ok,
  ◌>>=◌, length, Bool-cases, Option-cases, inl, inr, arith,
}
use pointlock.Ir.Json.{Value}
use pointlock.Expr.Syntax.{PureFn, Expr, Args, admits}
use pointlock.Expr.Scope.{Scope, Resolved}
use pointlock.Expr.Flags.{RegexFlags, no_flags, set_flags, known_flags-ne-none}
use pointlock.Expr.Eval.{
  Engines, Evaluated, arity_of, bool_of, expect_string, eval_len, eval_json_path, eval_regex_match,
  build_regex, parse_query, compile_with, apply_fn, eval_fn, eval, eval_args,
}
use pointlock.Expr.Check.{
  ScopeShape, LitPosition, check_text, check_lit_string, check_literals, check_arity, args_list,
  check, check_args,
}
use pointlock.Expr.Dynamic.{
  fails_static, chain_dynamic, resolve_dynamic, AllDynamic, expect_string_dynamic, bool_of_dynamic,
  eval_and_dynamic, eval_or_dynamic, eval_concat_dynamic, eval_coalesce_dynamic, eval_len_dynamic,
}

abbrev exprs_of : List Evaluated → List Expr
exprs_of [] = []
exprs_of ((e, r) ∷ rest) = e ∷ exprs_of rest

-- Two lists that append to nothing are empty.
append_nil : {A : Type 0} (xs ys : List A) → xs ++ ys ≡ [] → (xs ≡ []) × (ys ≡ [])
append_nil [] ys h = (refl, h)
append_nil (x ∷ xs) ys h = cc

module _ (engines : Engines) where
  parse_query_dynamic :
      (text : String)
      → check_text engines LitPosition.json_path_query text ≡ []
      → fails_static (parse_query engines text) ≡ false
  unfolding check_text
  parse_query_dynamic text h = ground arith

  eval_json_path_dynamic :
      (root : Resolved) (path : Expr)
      → check_lit_string engines PureFn.json_path 1 LitPosition.json_path_query (some path) ≡ []
      → fails_static root ≡ false
      → fails_static (eval_json_path engines root path) ≡ false
  unfolding check_lit_string eval_json_path
  eval_json_path_dynamic root (Expr.lit (Value.string text)) h k =
      chain_dynamic (parse_query engines text) _ (parse_query_dynamic text h)
        (λ query. chain_dynamic root _ k (λ v. refl))
  eval_json_path_dynamic root (Expr.lit _) h k = cc
  eval_json_path_dynamic root (Expr.ref _) h k = cc
  eval_json_path_dynamic root (Expr.call _ _) h k = cc

  compile_with_dynamic :
      (text : String) (options : RegexFlags)
      → fails_static (compile_with engines text options) ≡ false
  compile_with_dynamic text options = ground arith

  build_regex_dynamic :
      (pattern flags : String)
      → check_text engines LitPosition.regex_flags flags ≡ []
      → fails_static (build_regex engines pattern (some flags)) ≡ false
  unfolding check_text build_regex
  build_regex_dynamic pattern flags h = elim (Option-cases (set_flags flags no_flags)) [
    | inl unset ↦ absurd (ground (arith, known_flags-ne-none flags no_flags, unset))
    | inr (options, isset) ↦ ground (arith, isset, compile_with_dynamic pattern options)
  ]

  build_plain_dynamic : (pattern : String) → fails_static (build_regex engines pattern none) ≡ false
  unfolding build_regex
  build_plain_dynamic pattern = compile_with_dynamic pattern no_flags

  -- A match, once the expression has been built.
  abbrev matched : Resolved → (String → Bool) → Resolved
  matched subject is_match =
      (subject >>= expect_string PureFn.regex_match 0) >>= λ s. ok (Value.bool (is_match s))

  matched_dynamic :
      (subject : Resolved) (is_match : String → Bool)
      → fails_static subject ≡ false
      → fails_static (matched subject is_match) ≡ false
  matched_dynamic subject is_match h =
      chain_dynamic (subject >>= expect_string PureFn.regex_match 0) _
        (chain_dynamic subject _ h (expect_string_dynamic PureFn.regex_match 0)) (λ s. refl)

  plain_match_dynamic :
      (subject : Resolved) (pattern : Expr)
      → check_lit_string engines PureFn.regex_match 1 LitPosition.regex_pattern (some pattern) ≡ []
      → fails_static subject ≡ false
      → fails_static (eval_regex_match engines subject pattern none) ≡ false
  unfolding check_lit_string eval_regex_match
  plain_match_dynamic subject (Expr.lit (Value.string text)) h k =
      chain_dynamic (build_regex engines text none) (matched subject) (build_plain_dynamic text)
        (λ is_match. matched_dynamic subject is_match k)
  plain_match_dynamic subject (Expr.lit _) h k = cc
  plain_match_dynamic subject (Expr.ref _) h k = cc
  plain_match_dynamic subject (Expr.call _ _) h k = cc

  flagged_match_dynamic :
      (subject : Resolved) (pattern flags : Expr)
      → check_lit_string engines PureFn.regex_match 1 LitPosition.regex_pattern (some pattern) ≡ []
      → check_lit_string engines PureFn.regex_match 2 LitPosition.regex_flags (some flags) ≡ []
      → fails_static subject ≡ false
      → fails_static (eval_regex_match engines subject pattern (some flags)) ≡ false
  unfolding check_lit_string eval_regex_match
  flagged_match_dynamic subject (Expr.lit (Value.string text)) (Expr.lit (Value.string flags)) h g
        k =
      chain_dynamic (build_regex engines text (some flags)) (matched subject)
        (build_regex_dynamic text flags g) (λ is_match. matched_dynamic subject is_match k)
  flagged_match_dynamic subject (Expr.lit (Value.string text)) (Expr.lit _) h g k = cc
  flagged_match_dynamic subject (Expr.lit (Value.string text)) (Expr.ref _) h g k = cc
  flagged_match_dynamic subject (Expr.lit (Value.string text)) (Expr.call _ _) h g k = cc
  flagged_match_dynamic subject (Expr.lit _) flags h g k = cc
  flagged_match_dynamic subject (Expr.ref _) flags h g k = cc
  flagged_match_dynamic subject (Expr.call _ _) flags h g k = cc

  apply_fn_dynamic :
      (f : PureFn) (args : List Evaluated)
      → AllDynamic args
      → admits (arity_of f) (length args) ≡ true
      → check_literals engines f (exprs_of args) ≡ []
      → fails_static (apply_fn engines f args) ≡ false
  unfolding apply_fn check_literals
  apply_fn_dynamic PureFn.and args h n l = eval_and_dynamic 0 args h
  apply_fn_dynamic PureFn.or args h n l = eval_or_dynamic 0 args h
  apply_fn_dynamic PureFn.concat args h n l = eval_concat_dynamic 0 "" args h
  apply_fn_dynamic PureFn.coalesce args h n l = eval_coalesce_dynamic args h
  apply_fn_dynamic PureFn.eq ((_, a) ∷ (_, b) ∷ []) h n l =
      chain_dynamic a _ h.0 (λ x. chain_dynamic b _ h.1.0 (λ y. refl))
  apply_fn_dynamic PureFn.ne ((_, a) ∷ (_, b) ∷ []) h n l =
      chain_dynamic a _ h.0 (λ x. chain_dynamic b _ h.1.0 (λ y. refl))
  apply_fn_dynamic PureFn.not ((_, a) ∷ []) h n l =
      chain_dynamic (bool_of PureFn.not 0 a) _ (bool_of_dynamic PureFn.not 0 a h.0) (λ b. refl)
  apply_fn_dynamic PureFn.len ((_, a) ∷ []) h n l = chain_dynamic a eval_len h.0 eval_len_dynamic
  apply_fn_dynamic PureFn.json_path ((_, root) ∷ (path, _) ∷ []) h n l =
      eval_json_path_dynamic root path l h.0
  apply_fn_dynamic PureFn.regex_match ((_, subject) ∷ (pattern, _) ∷ []) h n l =
      plain_match_dynamic subject pattern (append_nil _ _ l).0 h.0
  apply_fn_dynamic PureFn.regex_match ((_, subject) ∷ (pattern, _) ∷ (flags, _) ∷ []) h n l =
      flagged_match_dynamic subject pattern flags (append_nil _ _ l).0 (append_nil _ _ l).1 h.0
  apply_fn_dynamic f args h n l = ground arith

  exprs_of-eval_args :
      (scope : Scope) (args : Args) → exprs_of (eval_args engines scope args) ≡ args_list args
  unfolding eval
  exprs_of-eval_args scope Args.end_args = refl
  exprs_of-eval_args scope (Args.arg e rest) = ap (λ es. e ∷ es) (exprs_of-eval_args scope rest)

  length-exprs_of : (args : List Evaluated) → length (exprs_of args) ≡ length args
  length-exprs_of [] = refl
  length-exprs_of (a ∷ rest) = ap suc (length-exprs_of rest)

  eval_fn_dynamic :
      (f : PureFn) (args : List Evaluated)
      → AllDynamic args
      → check_arity engines f (length args) ≡ []
      → check_literals engines f (exprs_of args) ≡ []
      → fails_static (eval_fn engines f args) ≡ false
  unfolding eval_fn
  eval_fn_dynamic f args h n l = elim (Bool-cases (admits (arity_of f) (length args))) [
    | inl fits ↦ rw fits (apply_fn_dynamic f args h fits l)
    | inr misfit ↦ absurd (ground (arith, misfit))
  ]

  mutual
    unfolding check eval

    clean_dynamic :
        (scope : Scope) (shape : ScopeShape) (e : Expr)
        → check engines shape e ≡ []
        → fails_static (eval engines scope e) ≡ false
    clean_dynamic scope shape (Expr.lit v) h = refl
    clean_dynamic scope shape (Expr.ref path) h = resolve_dynamic scope path
    clean_dynamic scope shape (Expr.call f args) h =
        let list = args_list args in
        let (counted, others) =
          append_nil (check_arity engines f (length list))
            (check_literals engines f list ++ check_args engines shape args) h in
        let (literal, inner) =
          append_nil (check_literals engines f list) (check_args engines shape args) others in
        let same = exprs_of-eval_args scope args in
        let size = sym (length-exprs_of (eval_args engines scope args)) ∙ ap length same in
        eval_fn_dynamic f (eval_args engines scope args) (clean_args_dynamic scope shape args inner)
          (rw size counted) (rw same literal)

    clean_args_dynamic :
        (scope : Scope) (shape : ScopeShape) (args : Args)
        → check_args engines shape args ≡ []
        → AllDynamic (eval_args engines scope args)
    clean_args_dynamic scope shape Args.end_args h = tt
    clean_args_dynamic scope shape (Args.arg e rest) h =
        let (first, later) = append_nil (check engines shape e) (check_args engines shape rest) h in
        (clean_dynamic scope shape e first, clean_args_dynamic scope shape rest later)

  -- An expression whose check is clean, whatever names are declared, evaluates in every scope to a
  -- value or to an error of other kinds: never a wrong number of arguments, a literal that is
  -- computed, a query that does not parse or an unknown flag.
  pub check-clean :
      (scope : Scope) (shape : ScopeShape) (e : Expr)
      → check engines shape e ≡ []
      → fails_static (eval engines scope e) ≡ false
  check-clean scope shape e clean = clean_dynamic scope shape e clean

-- ===== src/Expr/Check.antt =====
-- crates/pointlock-expr/src/check.rs: the static check of an expression against declared names.
use pointlock.Prelude.{
  ℕ, String, Bool, Option, none, some, List, [], ◌∷◌, ◌++◌, ok, err, if◌then◌else◌, str_eq, any,
  length, get_elem?, leb,
}
use pointlock.Ir.Json.{Value}
use pointlock.Expr.Syntax.{RefPath, PureFn, Expr, Args, JsonType, type_of, ScopeRoot, Arity, admits}
use pointlock.Expr.Flags.{no_flags, known_flags}
use pointlock.Expr.Eval.{Engines, arity_of}

pub record ScopeShape : Type 0 where
  pub params : List String
  pub env : List String
  pub vars : List String
  pub iter : List String
  pub steps : List String

pub data CheckDiagnostic : Type 0 where
  undeclared_name : (path : RefPath) (root : ScopeRoot) (name : String) → CheckDiagnostic
  undeclared_step : (path : RefPath) (step_id : String) → CheckDiagnostic
  arity_mismatch : (function : PureFn) (expected : Arity) (actual : ℕ) → CheckDiagnostic
  lit_required : (function : PureFn) (arg_index : ℕ) → CheckDiagnostic
  lit_not_string : (function : PureFn) (arg_index : ℕ) (actual : JsonType) → CheckDiagnostic
  invalid_json_path_literal : (path message : String) → CheckDiagnostic
  invalid_regex_literal : (pattern message : String) → CheckDiagnostic
  invalid_regex_flags : (flags : String) → CheckDiagnostic
  argument_type :
      (function : PureFn) (position : ℕ) (expected : List JsonType) (actual : JsonType)
      → CheckDiagnostic
  not_comparable : (function : PureFn) (left right : JsonType) → CheckDiagnostic

abbrev contains : List String → String → Bool
contains names name = any (λ declared. str_eq declared name) names

abbrev undeclared : List String → RefPath → ScopeRoot → String → List CheckDiagnostic
undeclared names path root name =
    if contains names name then [] else CheckDiagnostic.undeclared_name path root name ∷ []

-- `check_ref`: a path without a dot is passed over.
unfoldable pub check_ref : ScopeShape → RefPath → List CheckDiagnostic
check_ref shape [] = []
check_ref shape (root ∷ []) = []
check_ref shape (root ∷ name ∷ rest) =
    let path = root ∷ name ∷ rest in
    if str_eq root "steps"
    then (if contains shape.steps name then [] else CheckDiagnostic.undeclared_step path name ∷ [])
    else if str_eq root "params"
    then undeclared shape.params path ScopeRoot.params name
    else if str_eq root "env"
    then undeclared shape.env path ScopeRoot.env name
    else if str_eq root "vars"
    then undeclared shape.vars path ScopeRoot.vars name
    else if str_eq root "iter"
    then undeclared shape.iter path ScopeRoot.iter name
    else []

pub data LitPosition : Type 0 where
  json_path_query regex_pattern regex_flags : LitPosition

abbrev pub args_list : Args → List Expr
args_list Args.end_args = []
args_list (Args.arg e rest) = e ∷ args_list rest

module _ (engines : Engines) where
  -- The content of a literal.
  unfoldable pub check_text : LitPosition → String → List CheckDiagnostic
  unfolding known_flags
  check_text LitPosition.json_path_query text = elim (engines.parse_path text) [
    | ok _ ↦ []
    | err message ↦ CheckDiagnostic.invalid_json_path_literal text message ∷ []
  ]
  check_text LitPosition.regex_pattern text = elim (engines.compile text no_flags) [
    | ok _ ↦ []
    | err message ↦ CheckDiagnostic.invalid_regex_literal text message ∷ []
  ]
  check_text LitPosition.regex_flags text =
      if known_flags text then [] else CheckDiagnostic.invalid_regex_flags text ∷ []

  -- `check_lit_string`, for the argument at the index, if there is one.
  unfoldable pub check_lit_string : PureFn → ℕ → LitPosition → Option Expr → List CheckDiagnostic
  unfolding check_text
  check_lit_string f index position none = []
  check_lit_string f index position (some (Expr.lit (Value.string text))) = check_text position text
  check_lit_string f index position (some (Expr.lit other)) =
      CheckDiagnostic.lit_not_string f index (type_of other) ∷ []
  check_lit_string f index position (some _) = CheckDiagnostic.lit_required f index ∷ []

  -- The literal positions of a function.
  unfoldable pub check_literals : PureFn → List Expr → List CheckDiagnostic
  unfolding check_lit_string
  check_literals PureFn.json_path args =
      check_lit_string PureFn.json_path 1 LitPosition.json_path_query (get_elem? args 1)
  check_literals PureFn.regex_match args =
      check_lit_string PureFn.regex_match 1 LitPosition.regex_pattern (get_elem? args 1)
      ++ (if leb 3 (length args)
          then check_lit_string PureFn.regex_match 2 LitPosition.regex_flags (get_elem? args 2)
          else [])
  check_literals f args = []

  abbrev pub check_arity : PureFn → ℕ → List CheckDiagnostic
  check_arity f n =
      if admits (arity_of f) n then [] else CheckDiagnostic.arity_mismatch f (arity_of f) n ∷ []

  unfoldable mutual
    unfolding check_ref check_literals

    -- `check`: the diagnostics of `walk`, in order.
    pub check : ScopeShape → Expr → List CheckDiagnostic
    check shape (Expr.lit value) = []
    check shape (Expr.ref path) = check_ref shape path
    check shape (Expr.call f args) =
        check_arity f (length (args_list args))
        ++ (check_literals f (args_list args) ++ check_args shape args)

    pub check_args : ScopeShape → Args → List CheckDiagnostic
    check_args shape Args.end_args = []
    check_args shape (Args.arg e rest) = check shape e ++ check_args shape rest

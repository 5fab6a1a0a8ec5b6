-- ===== src/Expr/Eval.antt =====
-- crates/pointlock-expr/src/eval.rs: the evaluation of expressions. Evaluation is pure, so each
-- argument of a function stands beside what it evaluates to; a function looks only at the
-- arguments that the source evaluates. The libraries are the parameter `engines`.
use pointlock.Prelude.{
  ℕ, suc, String, Bool, true, false, not, ◌&&◌, Option, none, some, List, [], ◌∷◌, Result, ok, err,
  ◌>>=◌, if◌then◌else◌, str_eq, ltb, ◌==◌, ◌<>◌, length,
}
use Prim.Native.Nat.{◌^◌}
use Prim.Native.String.{count as count_chars}
use pointlock.Ir.Json.{Number, Value, Items, Fields, get_field}
use pointlock.Expr.Syntax.{PureFn, Expr, Args, JsonType, type_of, Arity, admits, EvalError}
use pointlock.Expr.Flags.{RegexFlags, no_flags, set_flags}
use pointlock.Expr.Scope.{Scope, Resolved, resolve}

-- What the crates regex and serde_json_path do, and the comparison of two numbers as floats.
pub record Engines : Type 0 where
  pub compile : String → RegexFlags → Result (String → Bool) String
  pub parse_path : String → Result (Value → List Value) String
  pub same_float : Number → Number → Bool

abbrev exact : ℕ → Arity
exact n = record { min = n; max = some n }

abbrev at_least : ℕ → Arity
at_least n = record { min = n; max = none }

-- `arity_of`.
abbrev pub arity_of : PureFn → Arity
arity_of PureFn.eq = exact 2
arity_of PureFn.ne = exact 2
arity_of PureFn.json_path = exact 2
arity_of PureFn.not = exact 1
arity_of PureFn.len = exact 1
arity_of PureFn.and = at_least 2
arity_of PureFn.or = at_least 2
arity_of PureFn.coalesce = at_least 2
arity_of PureFn.concat = at_least 1
arity_of PureFn.regex_match = record { min = 2; max = some 3 }

-- An argument and its value.
abbrev pub Evaluated : Type 0
Evaluated = Expr × Resolved

abbrev pub mismatch : PureFn → ℕ → List JsonType → Value → EvalError
mismatch f index expected value = EvalError.type_mismatch f index expected (type_of value)

abbrev pub expect_bool : PureFn → ℕ → Value → Result Bool EvalError
expect_bool f index (Value.bool b) = ok b
expect_bool f index other = err (mismatch f index (JsonType.boolean ∷ []) other)

abbrev pub expect_string : PureFn → ℕ → Value → Result String EvalError
expect_string f index (Value.string s) = ok s
expect_string f index other = err (mismatch f index (JsonType.string ∷ []) other)

abbrev pub bool_of : PureFn → ℕ → Resolved → Result Bool EvalError
bool_of f index r = r >>= expect_bool f index

-- `and`: the first false argument decides, and the later ones are not looked at.
unfoldable pub eval_and : ℕ → List Evaluated → Resolved
eval_and index [] = ok (Value.bool true)
eval_and index ((_, r) ∷ rest) = bool_of PureFn.and index r >>= λ b.
    if b then eval_and (suc index) rest else ok (Value.bool false)

-- `or`: the first true argument decides.
unfoldable pub eval_or : ℕ → List Evaluated → Resolved
eval_or index [] = ok (Value.bool false)
eval_or index ((_, r) ∷ rest) =
    bool_of PureFn.or index r >>= λ b. if b then ok (Value.bool true) else eval_or (suc index) rest

unfoldable pub eval_concat : ℕ → String → List Evaluated → Resolved
eval_concat index out [] = ok (Value.string out)
eval_concat index out ((_, r) ∷ rest) =
    (r >>= expect_string PureFn.concat index) >>= λ s. eval_concat (suc index) (out <> s) rest

abbrev is_ref : Expr → Bool
is_ref (Expr.ref _) = true
is_ref _ = false

-- Absence: a null, or a reference that is missing.
abbrev pub is_absent : Evaluated → Bool
is_absent (_, ok Value.null) = true
is_absent (e, err (EvalError.missing_root _ _ _)) = is_ref e
is_absent (e, err (EvalError.missing_path _ _)) = is_ref e
is_absent _ = false

-- `eval_coalesce`.
unfoldable pub eval_coalesce : List Evaluated → Resolved
eval_coalesce [] = ok Value.null
eval_coalesce ((e, r) ∷ rest) =
    let later = eval_coalesce rest in if is_absent (e, r) then later else r

abbrev items_length : Items → ℕ
items_length Items.end_items = 0
items_length (Items.item _ rest) = suc (items_length rest)

abbrev fields_length : Fields → ℕ
fields_length Fields.end_fields = 0
fields_length (Fields.field _ _ rest) = suc (fields_length rest)

abbrev count_of : ℕ → Value
count_of n = Value.number (Number.pos_int n)

abbrev pub eval_len : Value → Resolved
eval_len (Value.string s) = ok (count_of (count_chars s))
eval_len (Value.array items) = ok (count_of (items_length items))
eval_len other = err (mismatch PureFn.len 0 (JsonType.string ∷ JsonType.array ∷ []) other)

-- `lit_string_arg`.
abbrev pub lit_string : PureFn → ℕ → Expr → Result String EvalError
lit_string f index (Expr.lit (Value.string s)) = ok s
lit_string f index (Expr.lit other) = err (mismatch f index (JsonType.string ∷ []) other)
lit_string f index _ = err (EvalError.lit_required f index)

abbrev fits_i64 : ℕ → Bool
fits_i64 n = ltb n (2 ^ 63)

module _ (engines : Engines) where
  -- `number_eq`: within `i64`, within `u64`, else as floats.
  abbrev number_eq : Number → Number → Bool
  number_eq (Number.pos_int a) (Number.pos_int b) = a == b
  number_eq (Number.neg_int a) (Number.neg_int b) = a == b
  number_eq (Number.pos_int a) (Number.neg_int b) =
      if fits_i64 a then false else engines.same_float (Number.pos_int a) (Number.neg_int b)
  number_eq (Number.neg_int a) (Number.pos_int b) =
      if fits_i64 b then false else engines.same_float (Number.neg_int a) (Number.pos_int b)
  number_eq x y = engines.same_float x y

  unfoldable mutual
    -- `json_eq`.
    pub json_eq : Value → Value → Bool
    json_eq Value.null Value.null = true
    json_eq (Value.bool true) (Value.bool b) = b
    json_eq (Value.bool false) (Value.bool b) = not b
    json_eq (Value.number x) (Value.number y) = number_eq x y
    json_eq (Value.string a) (Value.string b) = str_eq a b
    json_eq (Value.array x) (Value.array y) = items_length x == items_length y && items_eq x y
    json_eq (Value.object x) (Value.object y) = fields_length x == fields_length y && fields_in x y
    json_eq _ _ = false

    pub items_eq : Items → Items → Bool
    items_eq (Items.item a x) (Items.item b y) = json_eq a b && items_eq x y
    items_eq _ _ = true

    pub fields_in : Fields → Fields → Bool
    fields_in Fields.end_fields y = true
    fields_in (Fields.field key a x) y =
        elim (get_field key y) [ none ↦ false | some b ↦ json_eq a b ] && fields_in x y

  -- The nodes of a query: none is null, one is itself.
  abbrev pub collapse : List Value → Value
  collapse [] = Value.null
  collapse (node ∷ []) = node
  collapse (a ∷ b ∷ nodes) = Value.array (Items.item a (Items.item b (items_of nodes)))
    where
      items_of : List Value → Items
      items_of [] = Items.end_items
      items_of (v ∷ vs) = Items.item v (items_of vs)

  abbrev pub parse_query : String → Result (Value → List Value) EvalError
  parse_query path = elim (engines.parse_path path) [
    | ok query ↦ ok query
    | err message ↦ err (EvalError.invalid_json_path path message)
  ]

  -- `eval_json_path`.
  unfoldable pub eval_json_path : Resolved → Expr → Resolved
  eval_json_path root path = lit_string PureFn.json_path 1 path >>= λ text.
      parse_query text >>= λ query. root >>= λ value. ok (collapse (query value))

  abbrev pub compile_with : String → RegexFlags → Result (String → Bool) EvalError
  compile_with pattern options = elim (engines.compile pattern options) [
    | ok is_match ↦ ok is_match
    | err message ↦ err (EvalError.invalid_regex pattern message)
  ]

  -- `build_regex`, its errors as those of an evaluation.
  unfoldable pub build_regex : String → Option String → Result (String → Bool) EvalError
  unfolding set_flags
  build_regex pattern none = compile_with pattern no_flags
  build_regex pattern (some flags) = elim (set_flags flags no_flags) [
    | none ↦ err (EvalError.invalid_regex_flags flags)
    | some options ↦ compile_with pattern options
  ]

  abbrev pub lit_flags : Option Expr → Result (Option String) EvalError
  lit_flags none = ok none
  lit_flags (some flags) = lit_string PureFn.regex_match 2 flags >>= λ text. ok (some text)

  -- `eval_regex_match`.
  unfoldable pub eval_regex_match : Resolved → Expr → Option Expr → Resolved
  unfolding build_regex
  eval_regex_match subject pattern flags = lit_string PureFn.regex_match 1 pattern >>= λ text.
      lit_flags flags >>= λ options. build_regex text options >>= λ is_match.
      (subject >>= expect_string PureFn.regex_match 0) >>= λ s. ok (Value.bool (is_match s))

  -- The function's case, for a number of arguments that it admits.
  unfoldable pub apply_fn : PureFn → List Evaluated → Resolved
  unfolding eval_and eval_or eval_concat eval_coalesce eval_json_path eval_regex_match json_eq
  apply_fn PureFn.eq ((_, a) ∷ (_, b) ∷ []) = a >>= λ x. b >>= λ y. ok (Value.bool (json_eq x y))
  apply_fn PureFn.ne ((_, a) ∷ (_, b) ∷ []) =
      a >>= λ x. b >>= λ y. ok (Value.bool (not (json_eq x y)))
  apply_fn PureFn.not ((_, a) ∷ []) = bool_of PureFn.not 0 a >>= λ b. ok (Value.bool (not b))
  apply_fn PureFn.and args = eval_and 0 args
  apply_fn PureFn.or args = eval_or 0 args
  apply_fn PureFn.concat args = eval_concat 0 "" args
  apply_fn PureFn.len ((_, a) ∷ []) = a >>= eval_len
  apply_fn PureFn.coalesce args = eval_coalesce args
  apply_fn PureFn.json_path ((_, root) ∷ (path, _) ∷ []) = eval_json_path root path
  apply_fn PureFn.regex_match ((_, subject) ∷ (pattern, _) ∷ []) =
      eval_regex_match subject pattern none
  apply_fn PureFn.regex_match ((_, subject) ∷ (pattern, _) ∷ (flags, _) ∷ []) =
      eval_regex_match subject pattern (some flags)
  apply_fn f args = err (EvalError.arity_mismatch f (arity_of f) (length args))

  -- `eval_fn`.
  unfoldable pub eval_fn : PureFn → List Evaluated → Resolved
  unfolding apply_fn
  eval_fn f args =
      if admits (arity_of f) (length args)
      then apply_fn f args
      else err (EvalError.arity_mismatch f (arity_of f) (length args))

  unfoldable mutual
    unfolding resolve eval_fn

    -- `eval`.
    pub eval : Scope → Expr → Resolved
    eval scope (Expr.lit value) = ok value
    eval scope (Expr.ref path) = resolve scope path
    eval scope (Expr.call f args) = eval_fn f (eval_args scope args)

    pub eval_args : Scope → Args → List Evaluated
    eval_args scope Args.end_args = []
    eval_args scope (Args.arg e rest) = (e, eval scope e) ∷ eval_args scope rest

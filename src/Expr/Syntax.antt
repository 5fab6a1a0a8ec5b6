-- ===== src/Expr/Syntax.antt =====
-- crates/pointlock-ir/src/expr.rs: expressions; crates/pointlock-expr/src/error.rs: JSON types,
-- arities and the errors of evaluation. A `RefPath` is kept as the segments between its dots.
use pointlock.Prelude.{ℕ, String, Bool, true, ◌&&◌, Option, none, some, List, leb}
use pointlock.Ir.Json.{Value}

abbrev pub RefPath : Type 0
RefPath = List String

pub data PureFn : Type 0 where
  eq ne not and or concat len coalesce json_path regex_match : PureFn

mutual
  pub data Expr : Type 0 where
    lit : Value → Expr
    ref : RefPath → Expr
    call : PureFn → Args → Expr

  pub data Args : Type 0 where
    end_args : Args
    arg : Expr → Args → Args

pub data JsonType : Type 0 where
  null boolean number string array object : JsonType

-- `JsonType::of`.
abbrev pub type_of : Value → JsonType
type_of Value.null = JsonType.null
type_of (Value.bool _) = JsonType.boolean
type_of (Value.number _) = JsonType.number
type_of (Value.string _) = JsonType.string
type_of (Value.array _) = JsonType.array
type_of (Value.object _) = JsonType.object

pub data ScopeRoot : Type 0 where
  params env vars iter steps : ScopeRoot

pub record Arity : Type 0 where
  pub min : ℕ
  pub max : Option ℕ

abbrev pub within : Option ℕ → ℕ → Bool
within none n = true
within (some max) n = leb n max

-- `Arity::admits`.
abbrev pub admits : Arity → ℕ → Bool
admits arity n = leb arity.min n && within arity.max n

pub data EvalError : Type 0 where
  unknown_root : (path : RefPath) (root : String) → EvalError
  missing_root : (path : RefPath) (root : ScopeRoot) (name : String) → EvalError
  missing_path : (path : RefPath) (segment : String) → EvalError
  not_an_object : (path : RefPath) (segment : String) (actual : JsonType) → EvalError
  arity_mismatch : (function : PureFn) (expected : Arity) (actual : ℕ) → EvalError
  type_mismatch :
      (function : PureFn) (arg_index : ℕ) (expected : List JsonType) (actual : JsonType) → EvalError
  lit_required : (function : PureFn) (arg_index : ℕ) → EvalError
  invalid_json_path : (path message : String) → EvalError
  invalid_regex : (pattern message : String) → EvalError
  invalid_regex_flags : (flags : String) → EvalError

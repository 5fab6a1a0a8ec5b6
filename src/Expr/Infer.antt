-- ===== src/Expr/Infer.antt =====
-- check.rs, infer: the static type of an expression, as far as it is known, and the definite
-- contradictions of the signatures.
use pointlock.Prelude.{
  ℕ, suc, ◌+◌, Bool, true, false, Option, none, some, List, [], ◌∷◌, ◌++◌, if◌then◌else◌, any,
}
use pointlock.Expr.Syntax.{RefPath, PureFn, Expr, Args, JsonType, type_of}
use pointlock.Expr.Check.{CheckDiagnostic}

pub data ExprType : Type 0 where
  known : JsonType → ExprType
  unknown : ExprType

-- The trait `RefTypes`, whose one method the caller gives.
abbrev pub RefTypes : Type 0
RefTypes = RefPath → ExprType

-- The derived equality of `JsonType` and of `ExprType`.
unfoldable pub json_type_eq : JsonType → JsonType → Bool
json_type_eq JsonType.null JsonType.null = true
json_type_eq JsonType.boolean JsonType.boolean = true
json_type_eq JsonType.number JsonType.number = true
json_type_eq JsonType.string JsonType.string = true
json_type_eq JsonType.array JsonType.array = true
json_type_eq JsonType.object JsonType.object = true
json_type_eq _ _ = false

unfoldable pub expr_type_eq : ExprType → ExprType → Bool
expr_type_eq (ExprType.known s) (ExprType.known t) = json_type_eq s t
expr_type_eq ExprType.unknown ExprType.unknown = true
expr_type_eq _ _ = false

-- What inference gives: the type and the diagnostics.
abbrev pub Inferred : Type 0
Inferred = ExprType × List CheckDiagnostic

-- `expect`: a known type that is not admitted at the position.
unfoldable pub expect : PureFn → ℕ → ExprType → List JsonType → List CheckDiagnostic
expect f position ExprType.unknown admitted = []
expect f position (ExprType.known actual) admitted =
    if any (λ t. json_type_eq t actual) admitted
    then []
    else CheckDiagnostic.argument_type f (position + 1) admitted actual ∷ []

-- The same type expected of every argument, from a position on.
unfoldable pub expect_all : PureFn → ℕ → JsonType → List ExprType → List CheckDiagnostic
expect_all f position t [] = []
expect_all f position t (actual ∷ types) =
    expect f position actual (t ∷ []) ++ expect_all f (suc position) t types

unfoldable pub expect_first : PureFn → List JsonType → List ExprType → List CheckDiagnostic
expect_first f admitted [] = []
expect_first f admitted (actual ∷ types) = expect f 0 actual admitted

-- Two known types that differ are never comparable.
unfoldable pub comparable : PureFn → List ExprType → List CheckDiagnostic
comparable f (ExprType.known left ∷ ExprType.known right ∷ types) =
    if json_type_eq left right then [] else CheckDiagnostic.not_comparable f left right ∷ []
comparable f _ = []

-- The join of the argument types, from what was seen of them.
unfoldable pub join_from : Option ExprType → List ExprType → Option ExprType
join_from joined [] = joined
join_from none (actual ∷ types) = join_from (some actual) types
join_from (some seen) (actual ∷ types) =
    join_from (some (if expr_type_eq seen actual then seen else ExprType.unknown)) types

abbrev pub or_unknown : Option ExprType → ExprType
or_unknown none = ExprType.unknown
or_unknown (some t) = t

-- The function's own part, from the types of its arguments.
unfoldable pub infer_fn : PureFn → List ExprType → Inferred
infer_fn PureFn.eq types = (ExprType.known JsonType.boolean, comparable PureFn.eq types)
infer_fn PureFn.ne types = (ExprType.known JsonType.boolean, comparable PureFn.ne types)
infer_fn PureFn.not types =
    (ExprType.known JsonType.boolean, expect_all PureFn.not 0 JsonType.boolean types)
infer_fn PureFn.and types =
    (ExprType.known JsonType.boolean, expect_all PureFn.and 0 JsonType.boolean types)
infer_fn PureFn.or types =
    (ExprType.known JsonType.boolean, expect_all PureFn.or 0 JsonType.boolean types)
infer_fn PureFn.concat types =
    (ExprType.known JsonType.string, expect_all PureFn.concat 0 JsonType.string types)
infer_fn PureFn.len types = (
  ExprType.known JsonType.number,
  expect_first PureFn.len (JsonType.string ∷ JsonType.array ∷ []) types,
)
infer_fn PureFn.coalesce types = (or_unknown (join_from none types), [])
infer_fn PureFn.json_path types = (ExprType.unknown, [])
infer_fn PureFn.regex_match types =
    (ExprType.known JsonType.boolean, expect_first PureFn.regex_match (JsonType.string ∷ []) types)

unfoldable mutual
  -- `infer`: the diagnostics of the arguments stand in front of the function's own.
  pub infer : RefTypes → Expr → Inferred
  infer refs (Expr.lit value) = (ExprType.known (type_of value), [])
  infer refs (Expr.ref path) = (refs path, [])
  infer refs (Expr.call f args) =
      let (types, inner) = infer_args refs args in
      let (result, own) = infer_fn f types in (result, inner ++ own)

  pub infer_args : RefTypes → Args → List ExprType × List CheckDiagnostic
  infer_args refs Args.end_args = ([], [])
  infer_args refs (Args.arg e rest) =
      let (first, found) = infer refs e in
      let (types, later) = infer_args refs rest in (first ∷ types, found ++ later)

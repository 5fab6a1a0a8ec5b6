-- ===== src/Tests/Expr.antt =====
-- The theorems on expressions, at a scope with one parameter and one judged step.
use pointlock.Prelude.{
  ap, subst, sym, ◌∙◌, inl, arith, str_eq, str_eq_iff, ok-injective, if◌then◌else◌, ◌≡◌, ◌↔◌, refl,
  String, true, false, ◌&&◌, none, some, [], ◌∷◌, ok, length, all, leb,
}
use pointlock.Ir.Json.{Value}
use pointlock.Expr.Syntax.{RefPath, PureFn, Expr, Args, JsonType, type_of}
use pointlock.Expr.Scope.{Scope, resolve}
use pointlock.Expr.Eval.{Engines, is_absent, eval, eval_args}
use pointlock.Expr.Laws.{negation, negate_all, eval-de_morgan, coalesce-null}
use pointlock.Expr.Check.{CheckDiagnostic, ScopeShape, check}
use pointlock.Expr.Infer.{
  ExprType, RefTypes, json_type_eq, expr_type_eq, expect, expect_all, comparable, join_from,
  infer_fn, infer, infer_args,
}
use pointlock.Expr.Soundness.{Fits, RefsFit, infer-Fits}
use pointlock.Expr.Dynamic.{fails_static}
use pointlock.Expr.Clean.{check-clean}

-- Engines that match everything and select nothing.
abbrev pub engines : Engines
engines = record {
  compile = λ pattern flags. ok (λ subject. true);
  parse_path = λ path. ok (λ root. []);
  same_float = λ x y. false;
}

abbrev pub scope : Scope
scope = record {
  params = ("ssid", Value.string "lab-5g") ∷ [];
  env = [];
  vars = [];
  iter = [];
  steps = ("connect", record { output = none; verdict = some (Value.string "pass") }) ∷ [];
}

abbrev pub verdict_is : String → Expr
verdict_is status = Expr.call PureFn.eq (
    Args.arg (Expr.ref ("steps" ∷ "connect" ∷ "verdict" ∷ []))
      (Args.arg (Expr.lit (Value.string status)) Args.end_args))

abbrev pub lab : Expr
lab = Expr.call PureFn.regex_match (
    Args.arg (Expr.ref ("params" ∷ "ssid" ∷ [])) (
      Args.arg (Expr.lit (Value.string "^lab"))
        (Args.arg (Expr.lit (Value.string "im")) Args.end_args)))

abbrev pub both : Args
both = Args.arg (verdict_is "pass") (Args.arg lab Args.end_args)

both_test : eval engines scope (Expr.call PureFn.and both) ≡ ok (Value.bool true)
unfolding eval
both_test = refl

eval-de_morgan_example :
    (eval engines scope (negation (Expr.call PureFn.and both)) ≡ ok (Value.bool false))
    ↔ (eval engines scope (Expr.call PureFn.or (negate_all both)) ≡ ok (Value.bool false))
eval-de_morgan_example = eval-de_morgan engines scope both false

abbrev absent : Args
absent =
    Args.arg (Expr.ref ("params" ∷ "password" ∷ []))
      (Args.arg (Expr.ref ("steps" ∷ "connect" ∷ "output" ∷ "element" ∷ [])) Args.end_args)

coalesce-null_example : (eval engines scope (Expr.call PureFn.coalesce absent) ≡ ok Value.null) ↔ (
    (leb 2 (length (eval_args engines scope absent))
      && all is_absent (eval_args engines scope absent))
    ≡ true)
coalesce-null_example = coalesce-null engines scope absent

abbrev shape : ScopeShape
shape = record { params = "ssid" ∷ []; env = []; vars = []; iter = []; steps = "connect" ∷ [] }

both_clean : check engines shape (Expr.call PureFn.and both) ≡ []
unfolding check
both_clean = refl

check-clean_example : fails_static (eval engines scope (Expr.call PureFn.and both)) ≡ false
check-clean_example = check-clean engines scope shape (Expr.call PureFn.and both) both_clean

-- A caller that knows the type of one reference.
abbrev refs : RefTypes
refs (root ∷ name ∷ field ∷ []) =
    if str_eq root "steps" && (str_eq name "connect" && str_eq field "verdict")
    then ExprType.known JsonType.string
    else ExprType.unknown
refs _ = ExprType.unknown

abbrev verdict_path : RefPath
verdict_path = "steps" ∷ "connect" ∷ "verdict" ∷ []

refs-known : (path : RefPath) (t : JsonType) → refs path ≡ ExprType.known t → path ≡ verdict_path
refs-known (root ∷ name ∷ field ∷ []) t h =
    ground (arith, str_eq_iff root "steps", str_eq_iff name "connect", str_eq_iff field "verdict")
refs-known [] t h = absurd cc
refs-known (a ∷ []) t h = absurd cc
refs-known (a ∷ b ∷ []) t h = absurd cc
refs-known (a ∷ b ∷ c ∷ d ∷ path) t h = absurd cc

pass_lem : resolve scope verdict_path ≡ ok (Value.string "pass")
unfolding resolve
pass_lem = refl

refs-RefsFit : RefsFit refs scope
refs-RefsFit path t v h q =
    let here = refs-known path t h in
    let value = ok-injective (sym pass_lem ∙ subst (λ p. resolve scope p ≡ ok v) here q) in
    let named : ExprType.known JsonType.string ≡ ExprType.known t =
      subst (λ p. refs p ≡ ExprType.known t) here h in
    inl (ap type_of (sym value) ∙ known_lem named)
  where
    known_lem : {s t : JsonType} → ExprType.known s ≡ ExprType.known t → s ≡ t
    known_lem e = cc

abbrev default_verdict : Expr
default_verdict =
    Expr.call PureFn.coalesce (
      Args.arg (Expr.ref verdict_path) (Args.arg (Expr.lit (Value.string "unknown")) Args.end_args))

default_runs :
    ((infer refs default_verdict).0 ≡ ExprType.known JsonType.string)
    × (eval engines scope default_verdict ≡ ok (Value.string "pass"))
unfolding infer infer_fn infer_args join_from expr_type_eq json_type_eq eval
default_runs = (refl, refl)

infer-Fits_example : Fits JsonType.string (Value.string "pass")
infer-Fits_example =
    infer-Fits engines refs scope refs-RefsFit default_verdict JsonType.string (Value.string "pass")
      default_runs.0 default_runs.1

-- Two contradictions in one expression, in the order in which they are found.
contradictions :
    infer refs (
      Expr.call PureFn.and (
        Args.arg
          (Expr.call PureFn.eq
            (Args.arg (Expr.lit (Value.bool true)) (Args.arg (Expr.lit Value.null) Args.end_args)))
          (Args.arg (Expr.ref verdict_path) Args.end_args)))
    ≡ (
      ExprType.known JsonType.boolean,
      CheckDiagnostic.not_comparable PureFn.eq JsonType.boolean JsonType.null
          ∷ CheckDiagnostic.argument_type PureFn.and 2 (JsonType.boolean ∷ []) JsonType.string
          ∷ [],
    )
unfolding infer infer_fn infer_args expect_all expect comparable json_type_eq
contradictions = refl

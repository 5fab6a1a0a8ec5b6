-- ===== src/Expr/Soundness.antt =====
-- check.rs, infer, beside eval.rs: an inferred type is the type of what evaluation gives.
use pointlock.Prelude.{
  ◌≡◌, ◌⊎◌, refl, sym, ap, ◌∙◌, inl, inr, true, Option, none, some, List, [], ◌∷◌, ok, Bool-cases,
  ok-injective, arith,
}
use pointlock.Ir.Json.{Value}
use pointlock.Expr.Syntax.{RefPath, PureFn, Expr, Args, JsonType, type_of}
use pointlock.Expr.Scope.{Scope, resolve}
use pointlock.Expr.Eval.{Engines, is_absent, eval_coalesce, apply_fn, eval, eval_args}
use pointlock.Expr.Types.{eval-call-HasType, admitted_applies}
use pointlock.Expr.Infer.{
  ExprType, RefTypes, json_type_eq, expr_type_eq, join_from, or_unknown, infer_fn, infer,
  infer_args,
}

-- A value of the type, or null, which stands for an absent value.
abbrev pub Fits : JsonType → Value → Type 0
Fits t v = (type_of v ≡ t) ⊎ (v ≡ Value.null)

-- The caller's reference types hold in the scope.
abbrev pub RefsFit : RefTypes → Scope → Type 0
RefsFit refs scope =
    (path : RefPath) (t : JsonType) (v : Value)
    → refs path ≡ ExprType.known t
    → resolve scope path ≡ ok v
    → Fits t v

known-injective : {s t : JsonType} → ExprType.known s ≡ ExprType.known t → s ≡ t
known-injective q = cc

json_type_eq_sound : (s t : JsonType) → json_type_eq s t ≡ true → s ≡ t
unfolding json_type_eq
json_type_eq_sound JsonType.null JsonType.null h = refl
json_type_eq_sound JsonType.boolean JsonType.boolean h = refl
json_type_eq_sound JsonType.number JsonType.number h = refl
json_type_eq_sound JsonType.string JsonType.string h = refl
json_type_eq_sound JsonType.array JsonType.array h = refl
json_type_eq_sound JsonType.object JsonType.object h = refl
json_type_eq_sound _ _ h = absurd cc

expr_type_eq_sound : (s t : ExprType) → expr_type_eq s t ≡ true → s ≡ t
unfolding expr_type_eq
expr_type_eq_sound (ExprType.known s) (ExprType.known t) h =
    ap ExprType.known (json_type_eq_sound s t h)
expr_type_eq_sound ExprType.unknown ExprType.unknown h = refl
expr_type_eq_sound _ _ h = absurd cc

-- Every type of the list is this known one.
abbrev AllKnown : JsonType → List ExprType → Type 0
AllKnown t [] = Unit
AllKnown t (s ∷ types) = (s ≡ ExprType.known t) × AllKnown t types

-- A known join is the type of everything that was joined.
join_from-known :
    (seen : ExprType) (types : List ExprType) (t : JsonType)
    → join_from (some seen) types ≡ some (ExprType.known t)
    → (seen ≡ ExprType.known t) × AllKnown t types
unfolding join_from
join_from-known seen [] t h = (ground arith, tt)
join_from-known seen (actual ∷ types) t h = elim (Bool-cases (expr_type_eq seen actual)) [
  | inl same ↦
      let (now, later) = join_from-known seen types t (rw same at h) in
      (now, (sym (expr_type_eq_sound seen actual same) ∙ now, later))
  | inr apart ↦
      let (now, later) = join_from-known ExprType.unknown types t (rw apart at h) in absurd cc
]

or_unknown-known :
    (o : Option ExprType) (t : JsonType)
    → or_unknown o ≡ ExprType.known t
    → o ≡ some (ExprType.known t)
or_unknown-known none t h = absurd cc
or_unknown-known (some s) t h = ap some h

joined-AllKnown :
    (types : List ExprType) (t : JsonType)
    → or_unknown (join_from none types) ≡ ExprType.known t
    → AllKnown t types
unfolding join_from
joined-AllKnown [] t h = tt
joined-AllKnown (seen ∷ types) t h =
    let (now, later) =
      join_from-known seen types t (or_unknown-known (join_from (some seen) types) t h) in
    (now, later)

module _ (engines : Engines) (refs : RefTypes) (scope : Scope) where
  mutual
    unfolding infer infer_args infer_fn eval eval_args apply_fn eval_coalesce

    infers :
        RefsFit refs scope
        → (e : Expr) (t : JsonType) (v : Value) → (infer refs e).0 ≡ ExprType.known t
        → eval engines scope e ≡ ok v
        → Fits t v
    infers fit (Expr.lit value) t v h q =
        inl (ap type_of (sym (ok-injective q)) ∙ known-injective h)
    infers fit (Expr.ref path) t v h q = fit path t v h q
    infers fit (Expr.call PureFn.eq args) t v h q =
        inl (eval-call-HasType engines scope PureFn.eq args v q ∙ known-injective h)
    infers fit (Expr.call PureFn.ne args) t v h q =
        inl (eval-call-HasType engines scope PureFn.ne args v q ∙ known-injective h)
    infers fit (Expr.call PureFn.not args) t v h q =
        inl (eval-call-HasType engines scope PureFn.not args v q ∙ known-injective h)
    infers fit (Expr.call PureFn.and args) t v h q =
        inl (eval-call-HasType engines scope PureFn.and args v q ∙ known-injective h)
    infers fit (Expr.call PureFn.or args) t v h q =
        inl (eval-call-HasType engines scope PureFn.or args v q ∙ known-injective h)
    infers fit (Expr.call PureFn.concat args) t v h q =
        inl (eval-call-HasType engines scope PureFn.concat args v q ∙ known-injective h)
    infers fit (Expr.call PureFn.len args) t v h q =
        inl (eval-call-HasType engines scope PureFn.len args v q ∙ known-injective h)
    infers fit (Expr.call PureFn.regex_match args) t v h q =
        inl (eval-call-HasType engines scope PureFn.regex_match args v q ∙ known-injective h)
    infers fit (Expr.call PureFn.json_path args) t v h q = absurd cc
    infers fit (Expr.call PureFn.coalesce args) t v h q =
        coalesces fit args t v (joined-AllKnown (infer_args refs args).0 t h)
          (admitted_applies engines PureFn.coalesce (eval_args engines scope args) v q)

    coalesces :
        RefsFit refs scope
        → (args : Args) (t : JsonType) (v : Value) → AllKnown t (infer_args refs args).0
        → eval_coalesce (eval_args engines scope args) ≡ ok v
        → Fits t v
    coalesces fit Args.end_args t v h q = inr (sym (ok-injective q))
    coalesces fit (Args.arg e rest) t v h q =
        elim (Bool-cases (is_absent (e, eval engines scope e))) [
          | inl absent ↦ coalesces fit rest t v h.1 (rw absent at q)
          | inr there ↦ infers fit e t v h.0 (rw there at q)
        ]

  -- An expression whose type is inferred as a known one evaluates to a value of that type or to null,
  -- whenever the reference types that the caller gave hold in the scope in the same sense.
  pub infer-Fits :
      RefsFit refs scope
      → (e : Expr) (t : JsonType) (v : Value) → (infer refs e).0 ≡ ExprType.known t
      → eval engines scope e ≡ ok v
      → Fits t v
  infer-Fits fit e t v h q = infers fit e t v h q

-- ===== src/Expr/Laws.antt =====
-- eval.rs: the laws of the whitelisted functions.
use pointlock.Prelude.{
  ℕ, suc, ◌≡◌, refl, ap, ◌↔◌, Bool, true, false, not, ◌&&◌, List, [], ◌∷◌, ok, err, ◌>>=◌,
  if◌then◌else◌, length, all, inl, inr, arith, leb, Bool-cases,
}
use pointlock.Ir.Json.{Value}
use pointlock.Expr.Syntax.{PureFn, Expr, Args}
use pointlock.Expr.Scope.{Scope, Resolved}
use pointlock.Expr.Eval.{
  Engines, Evaluated, is_absent, bool_of, eval_and, eval_or, eval_coalesce, apply_fn, eval_fn, eval,
  eval_args,
}

-- Every argument negated.
abbrev pub negate_all : Args → Args
negate_all Args.end_args = Args.end_args
negate_all (Args.arg e rest) =
    Args.arg (Expr.call PureFn.not (Args.arg e Args.end_args)) (negate_all rest)

abbrev pub negation : Expr → Expr
negation e = Expr.call PureFn.not (Args.arg e Args.end_args)

abbrev bool_result : Bool → Resolved
bool_result b = ok (Value.bool b)

-- One step of the duality, at what the first argument gives.
dual_step :
    (i j : ℕ) (r : Resolved) (both one : Resolved) (b : Bool)
    → ((both ≡ bool_result b) ↔ (one ≡ bool_result (not b)))
    → ((bool_of PureFn.and i r >>= λ x. if x then both else bool_result false) ≡ bool_result b) ↔ (
        (bool_of PureFn.or j (bool_of PureFn.not 0 r >>= λ x. bool_result (not x)) >>= λ x.
        if x then bool_result true else one)
        ≡ bool_result (not b))
dual_step i j (err x) both one b h = (λ q. cc, λ q. cc)
dual_step i j (ok (Value.bool true)) both one b h = h
dual_step i j (ok (Value.bool false)) both one true h = (λ q. ground arith, λ q. ground arith)
dual_step i j (ok (Value.bool false)) both one false h = (λ q. refl, λ q. refl)
dual_step i j (ok _) both one b h = (λ q. cc, λ q. cc)

-- A negation is a Boolean exactly when its argument is the other one.
not_result :
    (r : Resolved) (b : Bool)
    → ((bool_of PureFn.not 0 r >>= λ x. bool_result (not x)) ≡ bool_result b)
      ↔ (r ≡ bool_result (not b))
not_result (err x) b = (λ q. cc, λ q. cc)
not_result (ok (Value.bool true)) true = (λ q. ground arith, λ q. ground arith)
not_result (ok (Value.bool true)) false = (λ q. refl, λ q. refl)
not_result (ok (Value.bool false)) true = (λ q. refl, λ q. refl)
not_result (ok (Value.bool false)) false = (λ q. ground arith, λ q. ground arith)
not_result (ok _) b = (λ q. cc, λ q. cc)

coalesce_absent :
    (evaluated : List Evaluated)
    → (eval_coalesce evaluated ≡ ok Value.null) ↔ (all is_absent evaluated ≡ true)
unfolding eval_coalesce
coalesce_absent [] = (λ q. refl, λ q. refl)
coalesce_absent ((e, ok Value.null) ∷ rest) = coalesce_absent rest
coalesce_absent ((e, ok (Value.bool b)) ∷ rest) = (λ q. cc, λ q. cc)
coalesce_absent ((e, ok (Value.number n)) ∷ rest) = (λ q. cc, λ q. cc)
coalesce_absent ((e, ok (Value.string s)) ∷ rest) = (λ q. cc, λ q. cc)
coalesce_absent ((e, ok (Value.array x)) ∷ rest) = (λ q. cc, λ q. cc)
coalesce_absent ((e, ok (Value.object x)) ∷ rest) = (λ q. cc, λ q. cc)
coalesce_absent ((e, err x) ∷ rest) =
    let later = coalesce_absent rest in
    elim (Bool-cases (is_absent (e, err x))) [
      | inl absent ↦ rw absent later
      | inr present ↦ rw present (λ q. cc, λ q. cc)
    ]

module _ (engines : Engines) where
  and_or_dual :
      (scope : Scope) (args : Args) (i j : ℕ) (b : Bool)
      → (eval_and i (eval_args engines scope args) ≡ bool_result b)
        ↔ (eval_or j (eval_args engines scope (negate_all args)) ≡ bool_result (not b))
  unfolding eval_and eval_or eval eval_fn apply_fn
  and_or_dual scope Args.end_args i j true = (λ q. refl, λ q. refl)
  and_or_dual scope Args.end_args i j false = (λ q. ground arith, λ q. ground arith)
  and_or_dual scope (Args.arg e rest) i j b =
      dual_step i j (eval engines scope e) _ _ b (and_or_dual scope rest (suc i) (suc j) b)

  length-negate_all :
      (scope : Scope) (args : Args)
      → length (eval_args engines scope (negate_all args)) ≡ length (eval_args engines scope args)
  unfolding eval
  length-negate_all scope Args.end_args = refl
  length-negate_all scope (Args.arg e rest) = ap suc (length-negate_all scope rest)

  -- De Morgan: negating a conjunction yields a Boolean exactly when the disjunction of the negated
  -- arguments yields the same one.
  pub eval-de_morgan :
      (scope : Scope) (args : Args) (b : Bool)
      → (eval engines scope (negation (Expr.call PureFn.and args)) ≡ ok (Value.bool b))
        ↔ (eval engines scope (Expr.call PureFn.or (negate_all args)) ≡ ok (Value.bool b))
  unfolding eval eval_fn apply_fn
  eval-de_morgan scope args true =
      let dual = and_or_dual scope args 0 0 false in
      let size = length-negate_all scope args in
      let denied = not_result (eval engines scope (Expr.call PureFn.and args)) true in
      (λ q. ground (arith, dual, size, denied), λ q. ground (arith, dual, size, denied))
  eval-de_morgan scope args false =
      let dual = and_or_dual scope args 0 0 true in
      let size = length-negate_all scope args in
      let denied = not_result (eval engines scope (Expr.call PureFn.and args)) false in
      (λ q. ground (arith, dual, size, denied), λ q. ground (arith, dual, size, denied))

  -- A coalesce is null exactly when it has two or more arguments and all of them are absent.
  pub coalesce-null :
      (scope : Scope) (args : Args)
      → (eval engines scope (Expr.call PureFn.coalesce args) ≡ ok Value.null) ↔ (
          (leb 2 (length (eval_args engines scope args))
            && all is_absent (eval_args engines scope args))
          ≡ true)
  unfolding eval eval_fn apply_fn
  coalesce-null scope args =
      let absent = coalesce_absent (eval_args engines scope args) in
      (λ q. ground (arith, absent), λ q. ground (arith, absent))

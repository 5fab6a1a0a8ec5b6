-- ===== src/Store/Fold/Instances.antt =====
-- fold.rs, 798-835: when two run paths address the same step instance.
use pointlock.Prelude.{
  ◌≡◌, ◌↔◌, refl, String, true, Option, none, some, [], ◌∷◌, map, arith, str_eq, str_eq_iff,
  option_eq, ==_iff,
}
use pointlock.Ir.Vocab.{HandlerHook, Phase, hook_eq, phase_eq}
use pointlock.Ir.RunPath.{PathFrame, RunPath}
use pointlock.Store.Fold.Sites.{same_site, same_instance}

-- The frame with its hash blotted out.
abbrev pub without_hash : PathFrame → PathFrame
without_hash (PathFrame.flow flow_id _) = PathFrame.flow flow_id ""
without_hash (PathFrame.call step_id callee _) = PathFrame.call step_id callee ""
without_hash frame = frame

option_eq_iff : (a b : Option String) → (option_eq str_eq a b ≡ true) ↔ (a ≡ b)
option_eq_iff none none = (λ h. refl, λ h. refl)
option_eq_iff none (some b) = (λ h. cc, λ h. cc)
option_eq_iff (some a) none = (λ h. cc, λ h. cc)
option_eq_iff (some a) (some b) =
    (λ h. ground (arith, str_eq_iff a b), λ h. ground (arith, str_eq_iff a b))

hook_eq_iff : (a b : HandlerHook) → (hook_eq a b ≡ true) ↔ (a ≡ b)
hook_eq_iff a b = (λ h. ground arith, λ h. ground arith)

phase_eq_iff : (a b : Phase) → (phase_eq a b ≡ true) ↔ (a ≡ b)
phase_eq_iff a b = (λ h. ground arith, λ h. ground arith)

same_site_iff : (a b : PathFrame) → (same_site a b ≡ true) ↔ (without_hash a ≡ without_hash b)
unfolding same_site
same_site_iff (PathFrame.flow f h) (PathFrame.flow g k) =
    (λ q. ground (arith, str_eq_iff f g), λ q. ground (arith, str_eq_iff f g))
same_site_iff (PathFrame.step s) (PathFrame.step t) =
    (λ q. ground (arith, str_eq_iff s t), λ q. ground (arith, str_eq_iff s t))
same_site_iff (PathFrame.call s f h) (PathFrame.call t g k) = (
  λ q. ground (arith, option_eq_iff s t, str_eq_iff f g),
  λ q. ground (arith, option_eq_iff s t, str_eq_iff f g),
)
same_site_iff (PathFrame.iteration i a) (PathFrame.iteration j b) = (
  λ q. ground (arith, option_eq_iff a b, ==_iff i j),
  λ q. ground (arith, option_eq_iff a b, ==_iff i j),
)
same_site_iff (PathFrame.hook a i) (PathFrame.hook b j) = (
  λ q. ground (arith, hook_eq_iff a b, ==_iff i j),
  λ q. ground (arith, hook_eq_iff a b, ==_iff i j),
)
same_site_iff (PathFrame.attempt i) (PathFrame.attempt j) =
    (λ q. ground (arith, ==_iff i j), λ q. ground (arith, ==_iff i j))
same_site_iff (PathFrame.phase p) (PathFrame.phase q) =
    (λ h. ground (arith, phase_eq_iff p q), λ h. ground (arith, phase_eq_iff p q))
same_site_iff (PathFrame.assertion a) (PathFrame.assertion b) =
    (λ q. ground (arith, str_eq_iff a b), λ q. ground (arith, str_eq_iff a b))
same_site_iff _ _ = (λ q. cc, λ q. cc)

-- Two run paths address the same step instance exactly when they are equal once the hashes of
-- their flow and call frames are blotted out.
pub same_instance_iff :
    (a b : RunPath) → (same_instance a b ≡ true) ↔ (map without_hash a ≡ map without_hash b)
unfolding same_instance
same_instance_iff [] [] = (λ q. refl, λ q. refl)
same_instance_iff [] (y ∷ b) = (λ q. ground arith, λ q. cc)
same_instance_iff (x ∷ a) [] = (λ q. ground arith, λ q. cc)
same_instance_iff (x ∷ a) (y ∷ b) =
    let heads = same_site_iff x y in
    let tails = same_instance_iff a b in
    (λ q. ground (arith, heads, tails), λ q. ground (arith, heads, tails))

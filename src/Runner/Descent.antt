-- ===== src/Runner/Descent.antt =====
-- crates/pointlock-runner/src/align.rs, 57-68 and 216-222: the pins of the live call frames, and which
-- step instances lie inside another.
use Prim.Native.String.append
use Prim.Native.Char.{code}
use mathlib.Core.List.{append_assoc}
use pointlock.Prelude.{
  ◌≡◌, refl, sym, ap, ◌∙◌, String, Bool, true, false, ◌||◌, Option, none, some, List, [], ◌∷◌, ◌++◌,
  ◌==◌, ◌<>◌, Text, codes, strip_prefix, last?, insert, if◌then◌else◌, arith,
}
use pointlock.Ir.Vocab.{Hash}
use pointlock.Ir.RunPath.{PathFrame, RunPath}
use pointlock.Runner.Facts.{Harvest}
use pointlock.Runner.Keys.{instance_key, key_text, key_segment, trimmed, is_attempt_suffix}

-- The key and the pin of a path that ends in a call.
abbrev pin_of : RunPath → Option PathFrame → Option (String × Hash)
pin_of path (some (PathFrame.call handle flow_id callee_ir_hash)) =
    some (instance_key path, callee_ir_hash)
pin_of path _ = none

unfoldable pub pins_of : List RunPath → List (String × Hash)
pins_of [] = []
pins_of (path ∷ paths) = elim (pin_of path (last? path)) [
  | none ↦ pins_of paths
  | some pin ↦ pin ∷ pins_of paths
]

-- Collected into a map: a later pin of a key replaces an earlier one.
abbrev collect_into : List (String × Hash) → List (String × Hash) → List (String × Hash)
collect_into pins [] = pins
collect_into pins ((key, pin) ∷ rest) = collect_into (insert key pin pins) rest

unfoldable pub live_frame_pins : Harvest → List (String × Hash)
unfolding pins_of
live_frame_pins facts = collect_into [] (pins_of facts.live_frames)

-- A key goes on with the segment of a step or call, or with a round.
unfoldable opens_segment : Option Text → Bool
opens_segment (some (c ∷ rest)) = c == b'/' || c == b'['
opens_segment _ = false

-- `is_instance_descendant`.
unfoldable pub is_instance_descendant : String → String → Bool
unfolding opens_segment
is_instance_descendant outer inner = opens_segment (strip_prefix (codes outer) (codes inner))

codes-append : (a b : String) → codes (a <> b) ≡ codes a ++ codes b
codes-append String.[] b = ap codes (λ i. append.nil b i)
codes-append (String.◌∷◌ c a) b =
    ap codes (λ i. append.cons c a b i) ∙ ap (λ s. code c ∷ s) (codes-append a b)

strip_prefix-append : (a t : Text) → strip_prefix a (a ++ t) ≡ some t
unfolding strip_prefix
strip_prefix-append [] t = refl
strip_prefix-append (x ∷ a) t = ground (arith, strip_prefix-append a t)

-- The frames whose segment of a key begins with `/` or `[`.
abbrev pub opens_place : PathFrame → Bool
opens_place (PathFrame.flow f h) = false
opens_place (PathFrame.step s) = true
opens_place (PathFrame.call handle f h) = true
opens_place (PathFrame.iteration i item) = true
opens_place (PathFrame.hook h n) = true
opens_place (PathFrame.attempt n) = false
opens_place (PathFrame.phase p) = false
opens_place (PathFrame.assertion a) = false

opens_segment-key :
    (f : PathFrame) (t : Text)
    → opens_place f ≡ true
    → opens_segment (some (codes (key_segment f) ++ t)) ≡ true
unfolding opens_segment key_segment
opens_segment-key (PathFrame.flow f h) t q = ground arith
opens_segment-key (PathFrame.step s) t q = rw (codes-append "/" s) refl
opens_segment-key (PathFrame.call (some s) f h) t q = rw (codes-append "/" s) refl
opens_segment-key (PathFrame.call none f h) t q = refl
opens_segment-key (PathFrame.iteration i (some item)) t q = rw (codes-append "[" _) refl
opens_segment-key (PathFrame.iteration i none) t q = rw (codes-append "[" _) refl
opens_segment-key (PathFrame.hook h n) t q = rw (codes-append "/hook:" _) refl
opens_segment-key (PathFrame.attempt n) t q = ground arith
opens_segment-key (PathFrame.phase p) t q = ground arith
opens_segment-key (PathFrame.assertion a) t q = ground arith

key_text-append :
    (p q : RunPath) → codes (key_text (p ++ q)) ≡ codes (key_text p) ++ codes (key_text q)
unfolding key_text
key_text-append [] q = refl
key_text-append (f ∷ p) q =
    rw
      (
        codes-append (key_segment f) (key_text (p ++ q)),
        key_text-append p q,
        codes-append (key_segment f) (key_text p),
      )
      (sym (append_assoc (codes (key_segment f)) (codes (key_text p)) (codes (key_text q))))

opens_place-kept : (f : PathFrame) → opens_place f ≡ true → is_attempt_suffix f ≡ false
unfolding is_attempt_suffix
opens_place-kept (PathFrame.attempt n) q = ground arith
opens_place-kept (PathFrame.phase p) q = ground arith
opens_place-kept (PathFrame.assertion a) q = ground arith
opens_place-kept _ q = refl

trim_in_front :
    (f : PathFrame) (rest : RunPath)
    → opens_place f ≡ true
    → (kept : RunPath) × ((elim rest [
      | [] ↦ if is_attempt_suffix f then [] else f ∷ []
      | next ∷ others ↦ f ∷ next ∷ others
    ])
        ≡ f ∷ kept)
trim_in_front f [] q = ([], rw (opens_place-kept f q) refl)
trim_in_front f (next ∷ others) q = (next ∷ others, refl)

-- Behind a frame that opens a place nothing in front of it is trimmed.
trimmed-opens :
    (f : PathFrame) (rest : RunPath)
    → opens_place f ≡ true
    → (kept : RunPath) × (trimmed (f ∷ rest) ≡ f ∷ kept)
unfolding trimmed
trimmed-opens f rest q = trim_in_front f (trimmed rest) q

trimmed-append :
    (p q : RunPath) (f : PathFrame) (kept : RunPath)
    → trimmed q ≡ f ∷ kept
    → trimmed (p ++ q) ≡ p ++ f ∷ kept
unfolding trimmed
trimmed-append [] q f kept h = h
trimmed-append (x ∷ []) q f kept h = rw h refl
trimmed-append (x ∷ (y ∷ p)) q f kept h = rw (trimmed-append (y ∷ p) q f kept h) refl

-- Every path that goes on from one that ends in no frame of an attempt, with a step, a call, a round or
-- a hook, has its instance inside that of the path.
pub is_instance_descendant_below :
    (p rest : RunPath) (f : PathFrame)
    → trimmed p ≡ p
    → opens_place f ≡ true
    → is_instance_descendant (instance_key p) (instance_key (p ++ f ∷ rest)) ≡ true
unfolding is_instance_descendant instance_key key_text
is_instance_descendant_below p rest f whole opens =
    let (kept, front) = trimmed-opens f rest opens in
    rw
      (
        whole,
        trimmed-append p (f ∷ rest) f kept front,
        key_text-append p (f ∷ kept),
        strip_prefix-append (codes (key_text p)) (codes (key_text (f ∷ kept))),
        codes-append (key_segment f) (key_text kept),
      )
      (opens_segment-key f (codes (key_text kept)) opens)

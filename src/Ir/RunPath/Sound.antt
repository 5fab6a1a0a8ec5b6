-- ===== src/Ir/RunPath/Sound.antt =====
-- run_path.rs: what each suffix and each name leaves behind when it is accepted.
use pointlock.Prelude.{
  ℕ, ◌≤◌, ◌<◌, ◌≡◌, ◌⊎◌, refl, subst, inl, inr, Bool, true, false, ◌&&◌, [], ◌∷◌, Option, none,
  some, Option-cases, Result, ok, err, >>=-eq-ok, ok-injective, Text, ltb, length, span, split_once,
  lacks, is_digit, is_lower, parse_u64, parse_u64-lt, u64_end, arith,
}
use pointlock.Ir.Ids.{IdFault, assert_id}
use pointlock.Ir.RunPath.Frames.{ParsedPathFrame}
use pointlock.Ir.RunPath.Parse.{
  Parsed, PathFault, checked_id, Suffix, attempt_number, attempt_suffix, phase_suffix,
  iteration_frame, iteration_body, iteration_suffix, assertion_suffix, suffix, parse_phase_name,
}
use pointlock.Ir.RunPath.Canonical.{Site, guard, is_ok, is_key, advance}
use pointlock.Ir.RunPath.Apart.{span-rest, split_once-parts}

-- The site behind an accepted suffix, and what the loop goes on with: a shorter text without a slash,
-- which is empty behind an assertion.
pub record Behind (before : Bool) (s : Text) (more : Suffix) : Type 0 where
  pub site : Site
  pub moved : advance (Site.suffixed before) more.frame ≡ some site
  pub known : (site ≡ Site.suffixed more.after_attempt) ⊎ ((site ≡ Site.opened) × (more.rest ≡ []))
  pub slash : lacks b'/' more.rest ≡ true
  pub shorter : length more.rest ≤ length s

pub small : (n : ℕ) → n < u64_end → ltb n u64_end ≡ true
small n h = ground arith

pub guard-true : (test : Bool) (site : Site) → test ≡ true → guard test site ≡ some site
guard-true test site h = rw h refl

attempt_number-lt : (at n : ℕ) (s : Text) → attempt_number at s ≡ ok n → ltb n u64_end ≡ true
unfolding attempt_number
attempt_number-lt at n [] h = absurd cc
attempt_number-lt at n (c ∷ s) h = elim (Option-cases (parse_u64 (c ∷ s))) [
  | inl q ↦ absurd (ground (arith, q))
  | inr (m, q) ↦ small n (parse_u64-lt (c ∷ s) n (ground (arith, q)))
]

pub attempt_suffix-Behind :
    (before : Bool) (at : ℕ) (s : Text) (more : Suffix)
    → lacks b'/' s ≡ true
    → attempt_suffix at s ≡ ok more
    → Behind before s more
unfolding attempt_suffix advance
attempt_suffix-Behind before at s more h q =
    let (n, read, made) = >>=-eq-ok (attempt_number at (span is_digit s).0) _ q in
    let (slash, shorter) = span-rest is_digit b'/' s h in
    subst (Behind before s) (ok-injective made) (record {
      site = Site.suffixed true;
      moved = guard-true (ltb n u64_end) _ (attempt_number-lt at n _ read);
      known = inl refl;
      slash = slash;
      shorter = shorter;
    })

pub phase_suffix-Behind :
    (before : Bool) (at : ℕ) (s : Text) (more : Suffix)
    → lacks b'/' s ≡ true
    → phase_suffix before at s ≡ ok more
    → Behind before s more
unfolding phase_suffix advance
phase_suffix-Behind false at s more h q = absurd cc
phase_suffix-Behind true at s more h q =
    elim (Option-cases (parse_phase_name (span is_lower s).0)) [
      | inl e ↦ absurd (ground (arith, e))
      | inr (p, e) ↦
          let (slash, shorter) = span-rest is_lower b'/' s h in
          let made : ◌≡◌ {A = Parsed Suffix}
              (ok (record {
                frame = ParsedPathFrame.phase p;
                rest = (span is_lower s).1;
                after_attempt = false;
              }))
              (ok more) =
            ground (arith, e) in
          subst (Behind true s) (ok-injective made) (record {
            site = Site.suffixed false;
            moved = refl;
            known = inl refl;
            slash = slash;
            shorter = shorter;
          })
    ]

-- The key of an iteration holds no slash and no bracket.
abbrev keeps_brackets : Option Text → Bool
keeps_brackets none = true
keeps_brackets (some key) = lacks b'/' key && lacks b']' key

iteration_frame-moved :
    (before : Bool) (at : ℕ) (index : Text) (key : Option Text) (frame : ParsedPathFrame)
    → keeps_brackets key ≡ true
    → iteration_frame at index key ≡ ok frame
    → advance (Site.suffixed before) frame ≡ some (Site.suffixed false)
unfolding iteration_frame advance is_key
iteration_frame-moved before at index none frame h q = elim (Option-cases (parse_u64 index)) [
  | inl e ↦ absurd (ground (arith, e))
  | inr (i, e) ↦
      let made : ◌≡◌ {A = Parsed ParsedPathFrame} (ok (ParsedPathFrame.iteration i none))
          (ok frame) =
        ground (arith, e) in
      subst (λ f. advance (Site.suffixed before) f ≡ some (Site.suffixed false)) (ok-injective made)
        (guard-true (ltb i u64_end && true) _ (ground (arith, small i (parse_u64-lt index i e))))
]
iteration_frame-moved before at index (some []) frame h q = elim (Option-cases (parse_u64 index)) [
  | inl e ↦ absurd (ground (arith, e))
  | inr (i, e) ↦ absurd (ground (arith, e))
]
iteration_frame-moved before at index (some (c ∷ key)) frame h q =
    elim (Option-cases (parse_u64 index)) [
      | inl e ↦ absurd (ground (arith, e))
      | inr (i, e) ↦
          let made : ◌≡◌ {A = Parsed ParsedPathFrame}
              (ok (ParsedPathFrame.iteration i (some (c ∷ key)))) (ok frame) =
            ground (arith, e) in
          subst (λ f. advance (Site.suffixed before) f ≡ some (Site.suffixed false))
            (ok-injective made)
            (guard-true (ltb i u64_end && keeps_brackets (some (c ∷ key))) _
              (rw (small i (parse_u64-lt index i e)) h))
    ]

iteration_body-moved :
    (before : Bool) (at : ℕ) (body : Text) (frame : ParsedPathFrame)
    → lacks b'/' body ≡ true
    → lacks b']' body ≡ true
    → iteration_body at body ≡ ok frame
    → advance (Site.suffixed before) frame ≡ some (Site.suffixed false)
unfolding iteration_body
iteration_body-moved before at body frame h k q = elim (Option-cases (split_once b':' body)) [
  | inl e ↦ iteration_frame-moved before at body none frame refl (ground (arith, e))
  | inr ((index, key), e) ↦
      let slash = split_once-parts b':' b'/' body index key h e in
      let bracket = split_once-parts b':' b']' body index key k e in
      iteration_frame-moved before at index (some key) frame
        (ground (arith, slash.back_other, bracket.back_other)) (ground (arith, e))
]

pub iteration_suffix-Behind :
    (before : Bool) (at : ℕ) (s : Text) (more : Suffix)
    → lacks b'/' s ≡ true
    → iteration_suffix at s ≡ ok more
    → Behind before s more
unfolding iteration_suffix
iteration_suffix-Behind before at s more h q = elim (Option-cases (split_once b']' s)) [
  | inl e ↦ absurd (ground (arith, e))
  | inr ((body, tail), e) ↦
      let parts = split_once-parts b']' b'/' s body tail h e in
      let (frame, read, made) =
        >>=-eq-ok (iteration_body at body) _ (rw (e, iteration_suffix) at q) in
      subst (Behind before s) (ok-injective made) (record {
        site = Site.suffixed false;
        moved = iteration_body-moved before at body frame parts.front_other parts.front_mark read;
        known = inl refl;
        slash = parts.back_other;
        shorter = parts.shorter;
      })
]

pub checked_id-ok :
    (at : ℕ) (why : IdFault → PathFault) (r : Result Text IdFault) (id : Text)
    → checked_id at why r ≡ ok id
    → r ≡ ok id
checked_id-ok at why (ok s) id q = cc
checked_id-ok at why (err fault) id q = absurd cc

-- A check gives back the text it was given.
accepted : (s id : Text) → assert_id s ≡ ok id → is_ok (assert_id id) ≡ true
unfolding assert_id
accepted s id h = ground arith

pub assertion_suffix-Behind :
    (before after : Bool) (at : ℕ) (s : Text) (more : Suffix)
    → assertion_suffix after at s ≡ ok more
    → Behind before s more
unfolding assertion_suffix advance
assertion_suffix-Behind before after at s more q =
    let (id, read, made) = >>=-eq-ok (checked_id at PathFault.bad_assert_id (assert_id s)) _ q in
    let valid = checked_id-ok at PathFault.bad_assert_id (assert_id s) id read in
    subst (Behind before s) (ok-injective made) (record {
      site = Site.opened;
      moved = guard-true (is_ok (assert_id id)) _ (accepted s id valid);
      known = inr (refl, refl);
      slash = refl;
      shorter = omega arith;
    })

pub suffix-Behind :
    (before : Bool) (at c : ℕ) (s : Text) (more : Suffix)
    → lacks b'/' s ≡ true
    → suffix before at c s ≡ ok more
    → Behind before s more
unfolding suffix
suffix-Behind before at c s more h q = ground (
  arith,
  attempt_suffix-Behind before at s more h,
  phase_suffix-Behind before at s more h,
  iteration_suffix-Behind before at s more h,
  assertion_suffix-Behind before before at s more,
)

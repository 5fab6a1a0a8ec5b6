-- ===== src/Ir/RunPath/Accepted.antt =====
-- run_path.rs: the frames of an accepted text follow the grammar, segment by segment.
use pointlock.Prelude.{
  ℕ, zero, suc, ◌≡◌, ◌≢◌, refl, ap, ◌∙◌, subst, inl, inr, Bool, true, false, ◌&&◌, [], ◌∷◌, Option,
  none, some, Option-cases, ok, >>=-eq-ok, ok-injective, Text, ◌==◌, ltb, all, length, byte_len,
  span, split_once, strip_prefix, lacks, parse_u64, parse_u64-lt, u64_end, arith,
}
use pointlock.Ir.Ids.{flow_id, step_id}
use pointlock.Ir.RunPath.Frames.{ParsedPathFrame, hook_mark}
use pointlock.Ir.RunPath.Parse.{
  Parsed, PathFault, is_hash_char, parse_name_at_hash, parse_hook_name, parse_hook_segment, suffix,
  parse_suffixes, is_id_char, segment_id, parse_step_segment,
}
use pointlock.Ir.RunPath.Canonical.{Site, is_ok, names_flow, names_step, new_segment, advance}
use pointlock.Ir.RunPath.Pieces.{Frames}
use pointlock.Ir.RunPath.Apart.{span-concat, span-rest, strip_prefix-front}
use pointlock.Ir.RunPath.Sound.{guard-true, small, checked_id-ok, suffix-Behind}

-- The site that frames lead to, newest first.
unfoldable pub site_of : Frames → Option Site
site_of [] = some Site.start
site_of (frame ∷ frames) = elim (site_of frames) [ none ↦ none | some site ↦ advance site frame ]

-- The frames keep to the grammar and have their root.
pub record IsBegun (frames : Frames) : Type 0 where
  pub site : Site
  pub leads : site_of frames ≡ some site
  pub begun : site ≢ Site.start

pub site_of-cons :
    (frame : ParsedPathFrame) (frames : Frames) (site next : Site)
    → site_of frames ≡ some site
    → advance site frame ≡ some next
    → site_of (frame ∷ frames) ≡ some next
unfolding site_of
site_of-cons frame frames site next h k = rw (h, site_of) k

parse_suffixes-ended :
    (fuel : ℕ) (after : Bool) (at : ℕ) (s : Text) (frames read : Frames)
    → s ≡ []
    → parse_suffixes fuel after at s frames ≡ ok read
    → frames ≡ read
unfolding parse_suffixes
parse_suffixes-ended fuel after at [] frames read h q = ok-injective q
parse_suffixes-ended fuel after at (c ∷ s) frames read h q = absurd cc

parse_suffixes-IsBegun :
    (fuel : ℕ) (after : Bool) (at : ℕ) (s : Text) (frames read : Frames)
    → site_of frames ≡ some (Site.suffixed after)
    → lacks b'/' s ≡ true
    → parse_suffixes fuel after at s frames ≡ ok read
    → IsBegun read
unfolding parse_suffixes
parse_suffixes-IsBegun fuel after at [] frames read h k q =
    subst IsBegun (ok-injective q)
      (record { site = Site.suffixed after; leads = h; begun = λ e. cc })
parse_suffixes-IsBegun zero after at (c ∷ s) frames read h k q = absurd cc
parse_suffixes-IsBegun (suc fuel) after at (c ∷ s) frames read h k q =
    let (more, taken, later) = >>=-eq-ok (suffix after at c s) _ q in
    let behind = suffix-Behind after at c s more (ground arith) taken in
    let leads = site_of-cons more.frame frames (Site.suffixed after) behind.site h behind.moved in
    elim behind.known [
      | inl same ↦
          parse_suffixes-IsBegun fuel more.after_attempt at more.rest (more.frame ∷ frames) read
            (leads ∙ ap some same) behind.slash later
      | inr (same, ended) ↦
          subst IsBegun
            (parse_suffixes-ended fuel more.after_attempt at more.rest (more.frame ∷ frames) read
              ended later)
            (record { site = Site.opened; leads = leads ∙ ap some same; begun = λ e. cc })
    ]

-- Behind a root a frame that opens a segment is always in its place.
pub advance-opens :
    (site : Site) (frame : ParsedPathFrame) (next : Site)
    → site ≢ Site.start
    → new_segment frame ≡ some next
    → advance site frame ≡ some next
unfolding advance new_segment
advance-opens Site.start frame next h k = absurd (h refl)
advance-opens _ (ParsedPathFrame.step id) next h k = k
advance-opens _ (ParsedPathFrame.call (some id) f g) next h k = k
advance-opens _ (ParsedPathFrame.hook m n) next h k = k
advance-opens _ _ next h k = absurd cc

pub IsBegun-opens :
    (frame : ParsedPathFrame) (frames : Frames) (next : Site)
    → IsBegun frames
    → new_segment frame ≡ some next
    → site_of (frame ∷ frames) ≡ some next
IsBegun-opens frame frames next b k =
    site_of-cons frame frames b.site next b.leads (advance-opens b.site frame next b.begun k)

-- What is accepted as a name.
segment_id-same :
    (at : ℕ) (front id : Text)
    → segment_id at front ≡ ok id
    → (front ≡ id) × (is_ok (step_id front) ≡ true)
unfolding segment_id step_id
segment_id-same at [] id h = absurd cc
segment_id-same at (c ∷ front) id h =
    let found = checked_id-ok at PathFault.bad_step_id (step_id (c ∷ front)) id h in
    ground (arith, found)

pub flow_id-same :
    (name id : Text) → flow_id name ≡ ok id → (name ≡ id) × (is_ok (flow_id name) ≡ true)
unfolding flow_id
flow_id-same [] id h = absurd cc
flow_id-same (c ∷ name) id h = ground arith

parse_name_at_hash-prefix :
    (segment : Text) (at : ℕ) (name prefix : Text)
    → parse_name_at_hash segment at ≡ ok (name, prefix)
    → (byte_len prefix == 8 && all is_hash_char prefix) ≡ true
unfolding parse_name_at_hash
parse_name_at_hash-prefix segment at name prefix h = elim (Option-cases (split_once b'@' segment)) [
  | inl e ↦ absurd (ground (arith, e))
  | inr ((n, p), e) ↦ ground (arith, e)
]

-- A name and a hash that are accepted together.
pub parse_name_at_hash-flow :
    (segment : Text) (at : ℕ) (name prefix id : Text)
    → parse_name_at_hash segment at ≡ ok (name, prefix)
    → flow_id name ≡ ok id
    → names_flow id prefix ≡ true
unfolding names_flow
parse_name_at_hash-flow segment at name prefix id h k =
    let (same, valid) = flow_id-same name id k in
    ground (arith, same, valid, parse_name_at_hash-prefix segment at name prefix h)

names_step-ok :
    (id : Text)
    → is_ok (step_id id) ≡ true
    → strip_prefix hook_mark id ≡ none
    → names_step id ≡ true
unfolding names_step
names_step-ok id h k = rw (h, k) refl

pub IsBegun-step :
    (segment : Text) (at : ℕ) (frames read : Frames)
    → lacks b'/' segment ≡ true
    → strip_prefix hook_mark segment ≡ none
    → IsBegun frames
    → parse_step_segment segment at frames ≡ ok read
    → IsBegun read
unfolding parse_step_segment new_segment
IsBegun-step segment at frames read h k b q =
    let front = (span is_id_char segment).0 in
    let rest = (span is_id_char segment).1 in
    let (id, named, later) = >>=-eq-ok (segment_id at front) _ q in
    let (same, valid) = segment_id-same at front id named in
    let no_hook = strip_prefix-front hook_mark front rest (rw (span-concat is_id_char segment) k) in
    let fits = subst (λ t. names_step t ≡ true) same (names_step-ok front valid no_hook) in
    parse_suffixes-IsBegun (length rest) false at rest (ParsedPathFrame.step id ∷ frames) read
      (IsBegun-opens (ParsedPathFrame.step id) frames (Site.suffixed false) b (guard-true _ _ fits))
      (span-rest is_id_char b'/' segment h).0 later

-- The trigger count of a hook is a `u64`.
pub parse_hook_segment-site :
    (rest : Text) (at : ℕ) (frame : ParsedPathFrame)
    → parse_hook_segment rest at ≡ ok frame
    → new_segment frame ≡ some Site.hooked
unfolding parse_hook_segment new_segment
parse_hook_segment-site rest at frame q = elim (Option-cases (split_once b':' rest)) [
  | inl e ↦ absurd (ground (arith, e))
  | inr ((name, trigger), e) ↦ elim (Option-cases (parse_hook_name name)) [
    | inl f ↦ absurd (ground (arith, e, f))
    | inr (hook, f) ↦ elim (Option-cases (parse_u64 trigger)) [
      | inl g ↦ absurd (ground (arith, e, f, g))
      | inr (n, g) ↦
          let made : ◌≡◌ {A = Parsed ParsedPathFrame} (ok (ParsedPathFrame.hook hook n))
              (ok frame) =
            ground (arith, e, f, g) in
          subst (λ k. new_segment k ≡ some Site.hooked) (ok-injective made)
            (guard-true (ltb n u64_end) _ (small n (parse_u64-lt trigger n g)))
    ]
  ]
]

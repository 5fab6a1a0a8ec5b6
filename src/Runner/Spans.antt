-- ===== src/Runner/Spans.antt =====
-- align.rs, harvest, beside fold.rs: the spans and the call frames that a ledger leaves open.
use pointlock.Prelude.{
  ℕ, String, subst, Option-cases, lookup, last?, rposition, Bool-cases, inl, inr, zero, suc, ◌≤◌,
  ◌≡◌, refl, ap, true, false, not, ◌&&◌, none, some, List, [], ◌∷◌, map, ok, ok-injective, length,
  push, init, modify_at, modify_last, arith,
}
use pointlock.Ir.Vocab.{HumanPurpose}
use pointlock.Ir.Json.{Value}
use pointlock.Ir.Record.{ActionOutcome, Verdict, EvidenceRef}
use pointlock.Ir.RunPath.{RunPath}
use pointlock.Ir.RunLog.{RunLogPayload, RunLogEvent}
use pointlock.Store.Fold.State.{FoldError, InFlightStep, FoldState}
use pointlock.Store.Fold.Sites.{same_instance}
use pointlock.Store.Fold.Steps.{in_step}
use pointlock.Store.Fold.Exits.{judge_step, verdict_recorded}
use pointlock.Store.Fold.Frames.{give_outputs}
use pointlock.Store.Fold.Apply.{dispatch, is_run_started}
use pointlock.Runner.Facts.{Scan}
use pointlock.Runner.Harvest.{
  harvest_entered, harvest_intent, harvest_result, harvest_settled, harvest_verdict,
  harvest_trigger, harvest_request, harvest_response, harvest_payload,
}

module _ {ℓ κ} {A : Type ℓ} {B : Type κ} (g : A → B) where
  map-push : (xs : List A) (x : A) → map g (push xs x) ≡ push (map g xs) (g x)
  map-push [] x = refl
  map-push (y ∷ xs) x = ap (λ l. g y ∷ l) (map-push xs x)

  map-init : (xs : List A) → map g (init xs) ≡ init (map g xs)
  map-init [] = refl
  map-init (x ∷ []) = refl
  map-init (x ∷ y ∷ xs) = ap (λ l. g x ∷ l) (map-init (y ∷ xs))

  map-modify_last :
      (f : A → A) → ((x : A) → g (f x) ≡ g x) → (xs : List A) → map g (modify_last f xs) ≡ map g xs
  map-modify_last f h [] = refl
  map-modify_last f h (x ∷ []) = ap (λ y. y ∷ []) (h x)
  map-modify_last f h (x ∷ y ∷ xs) = ap (λ l. g x ∷ l) (map-modify_last f h (y ∷ xs))

  map-modify_at :
      (i : ℕ) (f : A → A)
      → ((x : A) → g (f x) ≡ g x)
      → (xs : List A) → map g (modify_at i f xs) ≡ map g xs
  map-modify_at i f h [] = refl
  map-modify_at zero f h (x ∷ xs) = ap (λ y. y ∷ map g xs) (h x)
  map-modify_at (suc i) f h (x ∷ xs) = ap (λ l. g x ∷ l) (map-modify_at i f h xs)

abbrev pub span_path : InFlightStep → RunPath
span_path step = step.run_path

-- The frames above the root frame.
abbrev pub above_root : List RunPath → List RunPath
above_root [] = []
above_root (root ∷ paths) = paths

above_root-push :
    (paths : List RunPath) (path : RunPath)
    → 1 ≤ length paths
    → above_root (push paths path) ≡ push (above_root paths) path
above_root-push [] path h = absurd (omega arith)
above_root-push (root ∷ paths) path h = refl

above_root-init :
    (paths : List RunPath) → 2 ≤ length paths → above_root (init paths) ≡ init (above_root paths)
above_root-init [] h = absurd (omega arith)
above_root-init (root ∷ []) h = absurd (omega arith)
above_root-init (root ∷ path ∷ paths) h = refl

-- How an event moves a stack of open spans, and a stack of call frames without its root.
abbrev pub moved_spans : RunLogPayload → RunPath → List RunPath → List RunPath
moved_spans (RunLogPayload.step_entered _ _ _ _) path spans = push spans path
moved_spans (RunLogPayload.step_exited _ _ _ _ _) path spans = init spans
moved_spans _ path spans = spans

abbrev pub moved_frames : RunLogPayload → RunPath → List RunPath → List RunPath
moved_frames (RunLogPayload.call_frame_pushed _ false) path frames = push frames path
moved_frames (RunLogPayload.call_frame_popped _) path frames = init frames
moved_frames _ path frames = frames

-- The harvest of one event moves its stacks like that.
abbrev pub Moves : Scan → RunLogEvent → RunLogPayload → Scan → Type 0
Moves scan e p next =
    (next.facts.open_spans ≡ moved_spans p e.run_path scan.facts.open_spans)
    × (next.facts.live_frames ≡ moved_frames p e.run_path scan.facts.live_frames)

harvest_response-Moves :
    (scan : Scan) (e : RunLogEvent) (request_id : String) (purpose : HumanPurpose)
    (response : Value) (actor : String)
    → Moves scan e
        (RunLogPayload.human_responded request_id purpose response actor)
        (harvest_response scan request_id purpose response actor)
unfolding harvest_response
harvest_response-Moves scan e request_id purpose response actor =
    elim (Option-cases (lookup request_id scan.request_index)) [
      | inl q ↦ ground (arith, q)
      | inr (key, q) ↦ ground (arith, q)
    ]

pub harvest_payload-Moves :
    (scan : Scan) (e : RunLogEvent) (p : RunLogPayload) → Moves scan e p (harvest_payload scan e p)
unfolding harvest_payload harvest_entered harvest_intent harvest_settled harvest_result
    harvest_verdict harvest_trigger harvest_request
harvest_payload-Moves scan e (RunLogPayload.call_frame_pushed frame false) = (refl, refl)
harvest_payload-Moves scan e (RunLogPayload.call_frame_pushed frame true) = (refl, refl)
harvest_payload-Moves scan e (RunLogPayload.action_settled c (ActionOutcome.succeeded r)) =
    (refl, refl)
harvest_payload-Moves scan e (RunLogPayload.action_settled c (ActionOutcome.failed r)) =
    (refl, refl)
harvest_payload-Moves scan e (RunLogPayload.action_settled c (ActionOutcome.cancelled r)) =
    (refl, refl)
harvest_payload-Moves scan e (RunLogPayload.action_settled c (ActionOutcome.timed_out r)) =
    (refl, refl)
harvest_payload-Moves scan e (RunLogPayload.human_responded r p v a) =
    harvest_response-Moves scan e r p v a
harvest_payload-Moves scan e _ = (refl, refl)

in_step-paths :
    (s t : FoldState) (outside : FoldError) (f : InFlightStep → InFlightStep)
    → ((x : InFlightStep) → span_path (f x) ≡ span_path x)
    → in_step s outside f ≡ ok t
    → map span_path t.in_flight ≡ map span_path s.in_flight
in_step-paths s t outside f h q = elim (Option-cases (last? s.in_flight)) [
  | inl e ↦ absurd (ground (arith, e))
  | inr (x, e) ↦ ground (arith, e, map-modify_last span_path f h s.in_flight)
]

verdict_recorded-paths :
    (s t : FoldState) (seq : ℕ) (path : RunPath) (verdict : Verdict) (localized : List EvidenceRef)
    → verdict_recorded s seq path verdict localized ≡ ok t
    → map span_path t.in_flight ≡ map span_path s.in_flight
unfolding verdict_recorded
verdict_recorded-paths s t seq path verdict localized q =
    elim (Option-cases (rposition (λ step. same_instance step.run_path path) s.in_flight)) [
      | inr (i, e) ↦ ground (
        arith,
        e,
        map-modify_at span_path i (judge_step verdict localized) (λ x. refl) s.in_flight,
      )
      | inl e ↦
          elim (Option-cases
            (rposition (λ done. same_instance done.run_path path) s.view.completed)) [
              | inr (i, f) ↦ ground (arith, e, f)
              | inl f ↦ absurd (ground (arith, e, f))
            ]
    ]

-- So does the fold of an event that it accepts.
pub dispatch-moved_spans :
    (s t : FoldState) (e : RunLogEvent) (p : RunLogPayload)
    → dispatch s e p ≡ ok t
    → map span_path t.in_flight ≡ moved_spans p e.run_path (map span_path s.in_flight)
unfolding dispatch
dispatch-moved_spans s t e (RunLogPayload.preflight_probed []) q = ground arith
dispatch-moved_spans s t e (RunLogPayload.preflight_probed (o ∷ os)) q = ground arith
dispatch-moved_spans s t e (RunLogPayload.run_resumed r p none) q = ground arith
dispatch-moved_spans s t e (RunLogPayload.run_resumed r p (some c)) q = ground arith
dispatch-moved_spans s t e (RunLogPayload.call_frame_pushed f false) q = ground arith
dispatch-moved_spans s t e (RunLogPayload.call_frame_pushed f true) q = ground arith
dispatch-moved_spans s t e (RunLogPayload.action_settled c o) q =
    in_step-paths _ t _ _ (λ x. refl) q
dispatch-moved_spans s t e (RunLogPayload.observation_recorded o) q =
    in_step-paths _ t _ _ (λ x. refl) q
dispatch-moved_spans s t e (RunLogPayload.assertion_evaluated o) q =
    in_step-paths _ t _ _ (λ x. refl) q
dispatch-moved_spans s t e (RunLogPayload.verdict_recorded v l _ _) q =
    verdict_recorded-paths s t e.seq e.run_path v l q
dispatch-moved_spans s t e (RunLogPayload.call_frame_popped o) q =
    ground (arith, map-modify_last span_path (give_outputs o) (λ x. refl) s.in_flight)
dispatch-moved_spans s t e (RunLogPayload.step_entered _ _ _ _) q =
    subst (λ u. map span_path u.in_flight ≡ push (map span_path s.in_flight) e.run_path)
      (ok-injective q) (map-push span_path s.in_flight _)
dispatch-moved_spans s t e _ q = ground (arith, map-init span_path s.in_flight)

pub dispatch-moved_frames :
    (s t : FoldState) (e : RunLogEvent) (p : RunLogPayload)
    → dispatch s e p ≡ ok t
    → length s.view.frames ≡ length s.frame_paths
    → (not s.started && not (is_run_started p)) ≡ false
    → (s.started ≡ true → 1 ≤ length s.view.frames)
    → (s.started ≡ false → s.frame_paths ≡ [])
    → above_root t.frame_paths ≡ moved_frames p e.run_path (above_root s.frame_paths)
unfolding dispatch
dispatch-moved_frames s t e (RunLogPayload.run_started _ _ _ _) q same early rooted fresh =
    elim (Bool-cases s.started) [
      | inl h ↦ absurd (ground (arith, h))
      | inr h ↦ ground (arith, h, fresh h)
    ]
dispatch-moved_frames s t e (RunLogPayload.preflight_probed []) q same early rooted fresh =
    ground arith
dispatch-moved_frames s t e (RunLogPayload.preflight_probed (o ∷ os)) q same early rooted fresh =
    ground arith
dispatch-moved_frames s t e (RunLogPayload.run_resumed r p none) q same early rooted fresh =
    ground arith
dispatch-moved_frames s t e (RunLogPayload.run_resumed r p (some c)) q same early rooted fresh =
    ground arith
dispatch-moved_frames s t e (RunLogPayload.call_frame_pushed f false) q same early rooted fresh =
    ground (arith, above_root-push s.frame_paths e.run_path)
dispatch-moved_frames s t e (RunLogPayload.call_frame_pushed f true) q same early rooted fresh =
    ground arith
dispatch-moved_frames s t e (RunLogPayload.call_frame_popped _) q same early rooted fresh =
    ground (arith, above_root-init s.frame_paths)
dispatch-moved_frames s t e _ q same early rooted fresh = ground arith

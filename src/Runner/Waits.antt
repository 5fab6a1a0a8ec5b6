-- ===== src/Runner/Waits.antt =====
-- align.rs, harvest, beside fold.rs: the human request that a ledger leaves pending.
use pointlock.Prelude.{
  ℕ, String, ◌≡◌, ◌⊎◌, refl, sym, subst, inl, inr, Bool, true, false, Option, none, some,
  Bool-cases, List, [], ◌∷◌, ok, >>=-eq-ok, ok-injective, lookup, lookup-insert_same, arith,
}
use pointlock.Ir.Vocab.{HumanPurpose}
use pointlock.Ir.Json.{Value}
use pointlock.Ir.RunPath.{RunPath}
use pointlock.Ir.Record.{ActionOutcome, HumanPending}
use pointlock.Ir.RunLog.{HumanRequest, RunLogPayload, RunLogEvent}
use pointlock.Store.Fold.State.{RunMeta, FoldState, seed}
use pointlock.Store.Fold.Exits.{settle_human}
use pointlock.Store.Fold.Humans.{retains, human_requested, human_responded}
use pointlock.Store.Fold.Ledger.{fold_step-eq_ok}
use pointlock.Store.Fold.Apply.{dispatch, fold_step, fold_from, fold_state}
use pointlock.Runner.Keys.{instance_key}
use pointlock.Runner.Facts.{HumanRequestFact, Scan, no_facts}
use pointlock.Runner.Harvest.{
  harvest_entered, harvest_intent, harvest_result, harvest_settled, harvest_verdict,
  harvest_trigger, harvest_request, harvest_response, harvest_payload, harvest_from, harvest,
}

-- The harvest has the request at its step instance, with what the fold knows of it and no final answer.
pub record Awaits (p : HumanPending) (requests : List (String × HumanRequestFact)) : Type 0 where
  pub fact : HumanRequestFact
  pub found : lookup (instance_key p.run_path) requests ≡ some fact
  pub request : fact.request_id ≡ p.request_id
  pub path : fact.run_path ≡ p.run_path
  pub prompt : fact.prompt ≡ p.prompt
  pub deadline : fact.deadline_at_ms ≡ p.deadline_at_ms
  pub unanswered : fact.final_response ≡ none

abbrev Waits : Option HumanPending → Scan → Type 0
Waits none scan = Unit
Waits (some p) scan = Awaits p scan.facts.human_requests

abbrev pub is_human : RunLogPayload → Bool
is_human (RunLogPayload.human_requested _) = true
is_human (RunLogPayload.human_responded _ _ _ _) = true
is_human _ = false

-- Any other event leaves the requests of the harvest alone, and the fold's pending request too, unless
-- it is settled by an exit.
harvest_payload-requests :
    (scan : Scan) (e : RunLogEvent) (p : RunLogPayload)
    → is_human p ≡ false
    → (harvest_payload scan e p).facts.human_requests ≡ scan.facts.human_requests
unfolding harvest_payload harvest_entered harvest_intent harvest_settled harvest_result
    harvest_verdict harvest_trigger
harvest_payload-requests scan e (RunLogPayload.call_frame_pushed frame false) h = refl
harvest_payload-requests scan e (RunLogPayload.call_frame_pushed frame true) h = refl
harvest_payload-requests scan e (RunLogPayload.action_settled c (ActionOutcome.succeeded r)) h =
    refl
harvest_payload-requests scan e (RunLogPayload.action_settled c (ActionOutcome.failed r)) h = refl
harvest_payload-requests scan e (RunLogPayload.action_settled c (ActionOutcome.cancelled r)) h =
    refl
harvest_payload-requests scan e (RunLogPayload.action_settled c (ActionOutcome.timed_out r)) h =
    refl
harvest_payload-requests scan e (RunLogPayload.human_requested r) h = absurd cc
harvest_payload-requests scan e (RunLogPayload.human_responded _ _ _ _) h = absurd cc
harvest_payload-requests scan e _ h = refl

settle_human-keeps :
    (path : RunPath) (pending : Option HumanPending)
    → (settle_human path pending ≡ pending) ⊎ (settle_human path pending ≡ none)
settle_human-keeps path none = inl refl
settle_human-keeps path (some p) = ground arith

dispatch-pending :
    (s t : FoldState) (e : RunLogEvent) (p : RunLogPayload)
    → is_human p ≡ false
    → dispatch s e p ≡ ok t
    → (t.view.human_pending ≡ s.view.human_pending) ⊎ (t.view.human_pending ≡ none)
unfolding dispatch
dispatch-pending s t e (RunLogPayload.preflight_probed []) h q = inl (ground arith)
dispatch-pending s t e (RunLogPayload.preflight_probed (o ∷ os)) h q = inl (ground arith)
dispatch-pending s t e (RunLogPayload.run_resumed r p none) h q = inl (ground arith)
dispatch-pending s t e (RunLogPayload.run_resumed r p (some c)) h q = inl (ground arith)
dispatch-pending s t e (RunLogPayload.call_frame_pushed f false) h q = inl (ground arith)
dispatch-pending s t e (RunLogPayload.call_frame_pushed f true) h q = inl (ground arith)
dispatch-pending s t e (RunLogPayload.human_requested r) h q = absurd cc
dispatch-pending s t e (RunLogPayload.human_responded _ _ _ _) h q = absurd cc
dispatch-pending s t e (RunLogPayload.step_exited _ _ _ _ _) h q =
    ground (arith, settle_human-keeps e.run_path s.view.human_pending)
dispatch-pending s t e _ h q = inl (ground arith)

other-Waits :
    (s t : FoldState) (e : RunLogEvent) (p : RunLogPayload) (scan : Scan)
    → is_human p ≡ false
    → dispatch s e p ≡ ok t
    → Waits s.view.human_pending scan
    → Waits t.view.human_pending (harvest_payload scan e p)
other-Waits s t e p scan h q w = elim (dispatch-pending s t e p h q) [
  | inl same ↦
      subst (λ o. Waits o (harvest_payload scan e p)) (sym same) (moved s.view.human_pending w)
  | inr gone ↦ subst (λ o. Waits o (harvest_payload scan e p)) (sym gone) tt
]
  where
    moved : (o : Option HumanPending) → Waits o scan → Waits o (harvest_payload scan e p)
    moved none w = tt
    moved (some pending) w = subst (Awaits pending) (sym (harvest_payload-requests scan e p h)) w

requested-Waits :
    (s t : FoldState) (e : RunLogEvent) (r : HumanRequest) (scan : Scan)
    → dispatch s e (RunLogPayload.human_requested r) ≡ ok t
    → Waits t.view.human_pending (harvest_payload scan e (RunLogPayload.human_requested r))
unfolding dispatch human_requested harvest_payload harvest_request
requested-Waits s t e r scan q =
    subst (λ u. Waits u.view.human_pending (harvest_request scan e r)) (ok-injective q)
      (record {
        fact = _;
        found = lookup-insert_same (instance_key e.run_path) _ scan.facts.human_requests;
        request = refl;
        path = refl;
        prompt = refl;
        deadline = refl;
        unanswered = refl;
      })

-- An answer that the fold lets pass closes the pending request, or is a suspension, which the harvest
-- does not take for an answer.
responded-Waits :
    (s t : FoldState) (e : RunLogEvent) (request_id : String) (purpose : HumanPurpose)
    (response : Value) (actor : String) (scan : Scan)
    → dispatch s e (RunLogPayload.human_responded request_id purpose response actor) ≡ ok t
    → Waits s.view.human_pending scan
    → Waits t.view.human_pending
        (harvest_payload scan e (RunLogPayload.human_responded request_id purpose response actor))
unfolding dispatch human_responded harvest_payload harvest_response
responded-Waits s t e request_id purpose response actor scan q w =
    elim (Bool-cases (retains purpose response)) [
      | inl kept ↦
          let same : t.view.human_pending ≡ s.view.human_pending = ground (arith, kept) in
          rw (same, kept) w
      | inr final ↦
          let gone : t.view.human_pending ≡ none = ground (arith, final) in
          subst (λ o. Waits o (harvest_response scan request_id purpose response actor)) (sym gone)
            tt
    ]

dispatch-Waits :
    (s t : FoldState) (e : RunLogEvent) (p : RunLogPayload) (scan : Scan)
    → dispatch s e p ≡ ok t
    → Waits s.view.human_pending scan
    → Waits t.view.human_pending (harvest_payload scan e p)
dispatch-Waits s t e (RunLogPayload.human_requested r) scan q w = requested-Waits s t e r scan q
dispatch-Waits s t e (RunLogPayload.human_responded i p v a) scan q w =
    responded-Waits s t e i p v a scan q w
dispatch-Waits s t e p scan q w = other-Waits s t e _ scan refl q w

fold_from-Waits :
    (meta : RunMeta) (prev : Option ℕ) (s t : FoldState) (events : List RunLogEvent) (scan : Scan)
    → fold_from meta prev s events ≡ ok t
    → Waits s.view.human_pending scan
    → Waits t.view.human_pending (harvest_from scan events)
unfolding fold_from harvest_from
fold_from-Waits meta prev s t [] scan q w =
    subst (λ u. Waits u.view.human_pending scan) (ok-injective q) w
fold_from-Waits meta prev s t (e ∷ events) scan q w =
    let (next, step, later) = >>=-eq-ok (fold_step meta prev s e) _ q in
    let (_, taken, _, _) = fold_step-eq_ok meta prev s next e step in
    fold_from-Waits meta (some e.seq) next t events (harvest_payload scan e e.payload) later
      (dispatch-Waits s next e e.payload scan taken w)

-- A human request that the fold of a ledger has pending is in the runner's harvest of it, under the
-- instance of its step, with the same request, path, prompt and deadline and without a final answer: a
-- resume goes on waiting for it and never takes it for answered.
pub harvest-Awaits :
    (meta : RunMeta) (events : List RunLogEvent) (t : FoldState) (p : HumanPending)
    → fold_state meta events ≡ ok t
    → t.view.human_pending ≡ some p
    → Awaits p (harvest events).human_requests
unfolding fold_state harvest seed
harvest-Awaits meta events t p q pending =
    subst (λ o. Waits o (harvest_from no_facts events)) pending
      (fold_from-Waits meta none (seed meta) t events no_facts q tt)

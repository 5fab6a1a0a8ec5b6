-- ===== src/Store/Fold/Intents.antt =====
-- The hanging intent of the frontier, read off the ledger.
use pointlock.Prelude.{
  ℕ, ◌≡◌, ◌↔◌, ◌⊎◌, inl, inr, String, Bool, true, false, none, some, Option, List, [], ◌∷◌, ok,
  >>=-eq-ok, arith, str_eq, str_eq_iff,
}
use pointlock.Ir.Record.{PendingIntent}
use pointlock.Ir.RunLog.{RunLogPayload, RunLogEvent}
use pointlock.Store.Fold.State.{RunMeta, FoldState, seed}
use pointlock.Store.Fold.Apply.{dispatch, fold_step, fold_from, fold_state}
use pointlock.Store.Fold.Ledger.{fold_step-eq_ok}

-- The event that writes the intent `i`.
abbrev pub IsIntentOf : PendingIntent → RunLogPayload → Type 0
IsIntentOf i (RunLogPayload.action_intent call_id args_snapshot _ _ _) =
    (i.call_id ≡ call_id) × (i.args_snapshot ≡ args_snapshot)
IsIntentOf i _ = ⊥

-- The events after which an intent of `call_id` no longer hangs: its terminal, another intent,
-- the entry or exit of a step, and the start of the run.
abbrev pub clears : String → RunLogPayload → Bool
clears call_id (RunLogPayload.action_settled settled _) = str_eq call_id settled
clears call_id (RunLogPayload.action_intent _ _ _ _ _) = true
clears call_id (RunLogPayload.step_entered _ _ _ _) = true
clears call_id (RunLogPayload.step_exited _ _ _ _ _) = true
clears call_id (RunLogPayload.run_started _ _ _ _) = true
clears call_id _ = false

-- No event of the ledger ends the intent of `call_id`.
abbrev pub NeverCleared : String → List RunLogEvent → Type 0
NeverCleared call_id [] = Unit
NeverCleared call_id (e ∷ events) = (clears call_id e.payload ≡ false) × NeverCleared call_id events

-- The ledger writes the intent `i`, and nothing after that ends it.
abbrev pub HangsIn : PendingIntent → List RunLogEvent → Type 0
HangsIn i [] = ⊥
HangsIn i (e ∷ events) = (IsIntentOf i e.payload × NeverCleared i.call_id events) ⊎ HangsIn i events

-- One event: what hangs after it was written by it, or hung before and is not ended by it.
hanging_step :
    (s t : FoldState) (e : RunLogEvent) (p : RunLogPayload) (i : PendingIntent)
    → dispatch s e p ≡ ok t
    → (t.view.frontier.pending_intent ≡ some i) ↔ (
        IsIntentOf i p ⊎ ((s.view.frontier.pending_intent ≡ some i) × (clears i.call_id p ≡ false)))
unfolding dispatch
hanging_step s t e (RunLogPayload.action_settled c o) i q =
    (λ h. ground (arith, str_eq_iff i.call_id c), λ h. ground (arith, str_eq_iff i.call_id c))
hanging_step s t e (RunLogPayload.preflight_probed []) i q = (λ h. ground arith, λ h. ground arith)
hanging_step s t e (RunLogPayload.preflight_probed (o ∷ os)) i q =
    (λ h. ground arith, λ h. ground arith)
hanging_step s t e (RunLogPayload.call_frame_pushed f false) i q =
    (λ h. ground arith, λ h. ground arith)
hanging_step s t e (RunLogPayload.call_frame_pushed f true) i q =
    (λ h. ground arith, λ h. ground arith)
hanging_step s t e (RunLogPayload.run_resumed r p none) i q = (λ h. ground arith, λ h. ground arith)
hanging_step s t e (RunLogPayload.run_resumed r p (some c)) i q =
    (λ h. ground arith, λ h. ground arith)
hanging_step s t e _ i q = (λ h. ground arith, λ h. ground arith)

hanging_from :
    (meta : RunMeta) (prev : Option ℕ) (s t : FoldState) (events : List RunLogEvent)
    (i : PendingIntent)
    → fold_from meta prev s events ≡ ok t
    → (t.view.frontier.pending_intent ≡ some i) ↔ (
        ((s.view.frontier.pending_intent ≡ some i) × NeverCleared i.call_id events)
        ⊎ HangsIn i events)
unfolding fold_from
hanging_from meta prev s t [] i q = (λ h. inl (ground arith, tt), λ h. ground arith)
hanging_from meta prev s t (e ∷ events) i q =
    let (next, first, rest) = >>=-eq-ok (fold_step meta prev s e) _ q in
    let step = hanging_step s next e e.payload i (fold_step-eq_ok meta prev s next e first).1 in
    let ih = hanging_from meta (some e.seq) next t events i rest in
    (
      λ h. elim (ih.0 h) [
        | inl (kept, clear) ↦ elim (step.0 kept) [
          | inl written ↦ inr (inl (written, clear))
          | inr (before, free) ↦ inl (before, (free, clear))
        ]
        | inr hangs ↦ inr (inr hangs)
      ],
      λ h. elim h [
        | inl (before, (free, clear)) ↦ ih.1 (inl (step.1 (inr (before, free)), clear))
        | inr (inl (written, clear)) ↦ ih.1 (inl (step.1 (inl written), clear))
        | inr (inr hangs) ↦ ih.1 (inr hangs)
      ],
    )

-- The frontier of a folded ledger names a pending intent exactly when the ledger writes that
-- intent and nothing after it ends it: neither its terminal, nor another intent, nor the entry or
-- exit of a step, nor the start of the run.
pub pending_intent-HangsIn :
    (meta : RunMeta) (events : List RunLogEvent) (t : FoldState) (i : PendingIntent)
    → fold_state meta events ≡ ok t
    → (t.view.frontier.pending_intent ≡ some i) ↔ HangsIn i events
unfolding fold_state seed
pending_intent-HangsIn meta events t i q =
    let from = hanging_from meta none (seed meta) t events i q in
    (
      λ h. elim (from.0 h) [ inl (before, _) ↦ absurd (ground arith) | inr hangs ↦ hangs ],
      λ hangs. from.1 (inr hangs),
    )

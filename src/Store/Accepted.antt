-- ===== src/Store/Accepted.antt =====
-- store.rs: what `submit_human_response` accepts, the fold accepts.
use pointlock.Prelude.{
  ℕ, suc, ◌≡◌, refl, sym, ◌∙◌, ap, subst, String, Bool, true, Option, none, some, List, [], ◌∷◌,
  if◌then◌else◌, Result, ok, >>=-eq-ok, ok-injective, length, push, str_eq_refl, arith,
}
use pointlock.Ir.Json.{Value}
use pointlock.Ir.RunPath.{RunPath}
use pointlock.Ir.RunLog.{RunLogPayload, RunLogEvent, HumanRequest}
use pointlock.Ir.Record.{CheckpointView}
use pointlock.Store.Fold.Humans.{is_pending, retains, human_responded}
use pointlock.Store.Fold.State.{RunMeta, RunStatus, FoldState, seed}
use pointlock.Store.Fold.Apply.{apply, dispatch, fold_state, fold_from, fold_step}
use pointlock.Store.Fold.Ledger.{fold_step-eq_ok, started_lem}
use pointlock.Store.Fold.Finish.{finish}
use pointlock.Store.Db.{StoreError, RunRow, Tables, Store, TxOutcome}
use pointlock.Store.Append.{next_event, commit_event}
use pointlock.Store.Respond.{
  arbitrate, pending_in, find_request, response_payload, respond_to, submit_human_response,
}
use pointlock.Store.Sound.{SoundAt, IsSound, checkpoint_of, fold_state-next}
use pointlock.Store.Arbitration.{submit-asked}
use pointlock.Store.Refines.{append_event-refines, seen}

fold_from-started :
    (meta : RunMeta) (prev : Option ℕ) (s t : FoldState) (events : List RunLogEvent)
    → s.started ≡ true
    → fold_from meta prev s events ≡ ok t
    → t.started ≡ true
unfolding fold_from
fold_from-started meta prev s t [] a q =
    subst (λ (x : FoldState). x.started ≡ true) (ok-injective q) a
fold_from-started meta prev s t (e ∷ events) a q =
    let (next, first, rest) = >>=-eq-ok (fold_step meta prev s e) _ q in
    let step = (fold_step-eq_ok meta prev s next e first).1 in
    fold_from-started meta (some e.seq) next t events
      (started_lem s next e e.payload step ∙ ground (arith, a)) rest

-- A ledger that has an event has started its run.
fold_state-started :
    (meta : RunMeta) (e : RunLogEvent) (events : List RunLogEvent) (t : FoldState)
    → fold_state meta (e ∷ events) ≡ ok t
    → t.started ≡ true
unfolding fold_state fold_from seed
fold_state-started meta e events t q =
    let (next, first, rest) = >>=-eq-ok (fold_step meta none (seed meta) e) _ q in
    let (early, step, _, _) = fold_step-eq_ok meta none (seed meta) next e first in
    fold_from-started meta (some e.seq) next t events
      (started_lem (seed meta) next e e.payload step ∙ ground (arith, early)) rest

-- The checkpoint row that a request is pending in belongs to a log with an event.
pending_started :
    (meta : RunMeta) (log : List RunLogEvent) (state : FoldState) (request_id : String)
    → fold_state meta log ≡ ok state
    → pending_in request_id (checkpoint_of log state) ≡ true
    → (state.started ≡ true) × (is_pending request_id state.view.human_pending ≡ true)
unfolding finish
pending_started meta [] state request_id folds h = ground arith
pending_started meta (e ∷ log) state request_id folds h =
    (fold_state-started meta e log state folds, h)

-- The state after a response to the pending request.
abbrev pub responded_to : FoldState → HumanRequest → Value → FoldState
responded_to s request response =
    if retains request.purpose response
    then record s { status = RunStatus.awaiting_human }
    else record s { view = record (s.view) { human_pending = none }; status = RunStatus.running }

apply-responded :
    (state : FoldState) (e : RunLogEvent) (request_id actor : String) (response : Value)
    (request : HumanRequest)
    → state.started ≡ true
    → is_pending request_id state.view.human_pending ≡ true
    → e.payload ≡ RunLogPayload.human_responded request_id request.purpose response actor
    → apply state e ≡ ok (responded_to state request response)
unfolding apply dispatch human_responded
apply-responded state e request_id actor response request started pending shape = ground arith

-- The event of a response, as the next of the log.
abbrev pub answer_event :
    Store → String → String → String → ℕ → Value → RunPath → HumanRequest → RunLogEvent
answer_event st run_id request_id actor at_ms response run_path request = record {
  run_id = run_id;
  seq = suc (length (st.tables.logs run_id));
  at_ms = at_ms;
  run_path = run_path;
  payload = RunLogPayload.human_responded request_id request.purpose response actor;
}

module _ (validate : Value → Value → Bool) where
  arbitrate-pending :
      (log : List RunLogEvent) (checkpoint : Option (ℕ × CheckpointView)) (request_id : String)
      (at_ms : ℕ) (response : Value) (request : HumanRequest)
      → arbitrate validate log checkpoint request_id at_ms response request ≡ ok tt
      → pending_in request_id checkpoint ≡ true
  unfolding arbitrate
  arbitrate-pending log checkpoint request_id at_ms response request h = ground arith

  -- What the submission of an accepted response leaves and answers.
  pub arbitrated-seen :
      (st : Store) (run_id request_id actor : String) (at_ms : ℕ) (response : Value)
      (run_path : RunPath) (request : HumanRequest) (row : RunRow)
      → IsSound st
      → st.tables.runs run_id ≡ some row
      → find_request request_id (st.tables.logs run_id) ≡ some (run_path, request)
      → arbitrate validate
          (st.tables.logs run_id)
          (st.tables.checkpoints run_id)
          request_id
          at_ms
          response
          request
        ≡ ok tt
      → (state : FoldState) × (is_pending request_id state.view.human_pending ≡ true)
        × ((next_event st.tables run_id at_ms run_path
              (response_payload validate request_id actor response request)).seq
            ≡ suc (length (st.tables.logs run_id)))
        × (seen (
              submit_human_response validate st run_id request_id actor at_ms response
                TxOutcome.commits)
            ≡ (
              commit_event st.tables row
                  (next_event st.tables run_id at_ms run_path
                    (response_payload validate request_id actor response request))
                  (responded_to state request response),
              ok (suc (length (st.tables.logs run_id))),
            ))
  unfolding respond_to
  arbitrated-seen st run_id request_id actor at_ms response run_path request row sound known asked
        ruling =
      let (state, good, agrees) =
        subst
          (λ o.
            SoundAt run_id o (st.tables.logs run_id) (st.tables.checkpoints run_id)
              (st.fold_cache run_id))
          known (sound run_id) in
      let payload = response_payload validate request_id actor response request in
      let e = next_event st.tables run_id at_ms run_path payload in
      let (refines, numbered) =
        append_event-refines st run_id at_ms run_path payload TxOutcome.commits row refl sound
          known in
      let (started, pending) =
        pending_started row.meta (st.tables.logs run_id) state request_id good.folds (
          rw (← good.materialized) (
            arbitrate-pending (st.tables.logs run_id) (st.tables.checkpoints run_id) request_id
              at_ms response request ruling)) in
      let folds : fold_state row.meta (push (st.tables.logs run_id) e)
          ≡ ok (responded_to state request response) =
        fold_state-next row.meta (st.tables.logs run_id) state e good.counted good.folds
          (sym good.owner) numbered
        ∙ apply-responded state e request_id actor response request started pending refl in
      (
        state,
        pending,
        numbered,
        ap seen (
              submit-asked validate st run_id request_id actor at_ms response TxOutcome.commits
                run_path request row known asked)
            ∙ rw ruling refl
            ∙ refines
            ∙ rw folds (
                ap
                  (λ seq.
                    (commit_event st.tables row e (responded_to state request response), ok seq))
                  numbered),
      )

  -- What an accepted response leaves of the log.
  pub arbitrated-logs :
      (st : Store) (run_id request_id actor : String) (at_ms : ℕ) (response : Value)
      (run_path : RunPath) (request : HumanRequest) (row : RunRow) (state : FoldState)
      → (next_event st.tables run_id at_ms run_path
          (response_payload validate request_id actor response request)).seq
        ≡ suc (length (st.tables.logs run_id))
      → (commit_event st.tables row
            (next_event st.tables run_id at_ms run_path
              (response_payload validate request_id actor response request))
            state).logs
          run_id
        ≡ push
            (st.tables.logs run_id)
            (answer_event st run_id request_id actor at_ms response run_path request)
  arbitrated-logs st run_id request_id actor at_ms response run_path request row state numbered =
      rw (str_eq_refl run_id) (
        ap
          (λ (n : ℕ).
            push (st.tables.logs run_id)
              (record (answer_event st run_id request_id actor at_ms response run_path request) {
                seq = n;
              }))
          numbered)

  -- In a sound store, a response that the arbitration accepts is never refused by the fold: the
  -- submission that commits appends it to the run's log as the event after the last, and answers with
  -- its number.
  pub arbitrated-commits :
      (st : Store) (run_id request_id actor : String) (at_ms : ℕ) (response : Value)
      (run_path : RunPath) (request : HumanRequest) (row : RunRow)
      → IsSound st
      → st.tables.runs run_id ≡ some row
      → find_request request_id (st.tables.logs run_id) ≡ some (run_path, request)
      → arbitrate validate
          (st.tables.logs run_id)
          (st.tables.checkpoints run_id)
          request_id
          at_ms
          response
          request
        ≡ ok tt
      → ((submit_human_response validate st run_id request_id actor at_ms response
            TxOutcome.commits).1
          ≡ ok (suc (length (st.tables.logs run_id))))
        × ((submit_human_response validate st run_id request_id actor at_ms response
                TxOutcome.commits).0.tables.logs
              run_id
            ≡ push
                (st.tables.logs run_id)
                (answer_event st run_id request_id actor at_ms response run_path request))
  arbitrated-commits st run_id request_id actor at_ms response run_path request row sound known
        asked ruling =
      let (state, pending, numbered, outcome) =
        arbitrated-seen st run_id request_id actor at_ms response run_path request row sound known
          asked ruling in
      (
        ap (λ (out : Tables × Result ℕ StoreError). out.1) outcome,
        ap (λ (out : Tables × Result ℕ StoreError). out.0.logs run_id) outcome
            ∙ arbitrated-logs st run_id request_id actor at_ms response run_path request row
                (responded_to state request response) numbered,
      )

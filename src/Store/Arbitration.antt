-- ===== src/Store/Arbitration.antt =====
-- The arbitration of store.rs: the first final response wins, whatever happens to the store later.
use pointlock.Prelude.{
  ℕ, ◌≡◌, refl, sym, ◌∙◌, ap, subst, String, Bool, true, false, Option, some, List, [], ◌∷◌, Result,
  ok, err, str_eq_refl, Option-cases, inl, inr, arith,
}
use pointlock.Ir.Json.{Value}
use pointlock.Ir.RunPath.{RunPath}
use pointlock.Ir.Wire.{reread_event, reread_payload}
use pointlock.Ir.RunLog.{RunLogPayload, RunLogEvent, HumanRequest}
use pointlock.Store.Fold.Humans.{retains}
use pointlock.Store.Fold.State.{FoldState}
use pointlock.Store.Fold.Steps.{Folded}
use pointlock.Store.Fold.Finish.{finish}
use pointlock.Store.Db.{StoreError, HumanResponseRejection, RunRow, Store, TxOutcome}
use pointlock.Store.Append.{append_known, settle_tx, next_event}
use pointlock.Store.Respond.{
  arbitrate, find_request, is_final_response, response_payload, respond_to, submit_to,
  submit_human_response,
}
use pointlock.Store.Preserve.{append_event-known}
use pointlock.Store.History.{
  StoreOp, perform, perform_all, submit-unknown, submit-known, submit-keeps,
}
use pointlock.Store.Decided.{
  IsDecided, any-push, find_request-push, append_event-IsDecided, begin_run-IsDecided,
}

-- A final response is read back as one.
is_final_response-reread :
    (request_id : String) (payload : RunLogPayload)
    → is_final_response request_id payload ≡ true
    → is_final_response request_id (reread_payload payload) ≡ true
is_final_response-reread request_id (RunLogPayload.action_settled call_id outcome) h = ground arith
is_final_response-reread request_id (RunLogPayload.step_exited x o p l g) h = ground arith
is_final_response-reread request_id (RunLogPayload.call_frame_popped o) h = ground arith
is_final_response-reread request_id _ h = h

-- A committed final response decides its request.
settle_tx-decides :
    (st : Store) (row : RunRow) (event : RunLogEvent) (tx : TxOutcome)
    (out : Option (ℕ × FoldState) × Folded) (request_id : String) (found : RunPath × HumanRequest)
    (after : Store) (seq : ℕ)
    → find_request request_id (st.tables.logs event.run_id) ≡ some found
    → is_final_response request_id event.payload ≡ true
    → settle_tx st row event tx out ≡ (after, ok seq)
    → IsDecided after event.run_id request_id
unfolding settle_tx
settle_tx-decides st row event tx (entry, err x) request_id found after seq asked final h =
    ground arith
settle_tx-decides st row event TxOutcome.fails_before_fold (entry, ok s) request_id found after seq
      asked final h =
    ground arith
settle_tx-decides st row event TxOutcome.fails_after_fold (entry, ok s) request_id found after seq
      asked final h =
    ground arith
settle_tx-decides st row event TxOutcome.commits (entry, ok s) request_id found after seq asked
      final h =
    let self = str_eq_refl event.run_id in
    subst (λ a. IsDecided a event.run_id request_id)
      (ap (λ (p : Store × Result ℕ StoreError). p.0) h)
      (record {
        row = record row { status = (finish s).status };
        known = rw self refl;
        found = found;
        asked = rw self (
            find_request-push request_id (st.tables.logs event.run_id) (reread_event event) found
              asked);
        answered =
            rw
              (
                self,
                any-push (λ e. is_final_response request_id e.payload) (st.tables.logs event.run_id)
                    (reread_event event),
              )
              (ground (arith, is_final_response-reread request_id event.payload final));
      })

append_known-decides :
    (st : Store) (row : RunRow) (event : RunLogEvent) (tx : TxOutcome) (request_id : String)
    (found : RunPath × HumanRequest) (after : Store) (seq : ℕ)
    → find_request request_id (st.tables.logs event.run_id) ≡ some found
    → is_final_response request_id event.payload ≡ true
    → append_known st row event tx ≡ (after, ok seq)
    → IsDecided after event.run_id request_id
unfolding append_known
append_known-decides st row event TxOutcome.fails_before_fold request_id found after seq asked final
      h =
    ground arith
append_known-decides st row event TxOutcome.commits request_id found after seq asked final h =
    settle_tx-decides st row event TxOutcome.commits _ request_id found after seq asked final h
append_known-decides st row event TxOutcome.fails_after_fold request_id found after seq asked final
      h =
    settle_tx-decides st row event TxOutcome.fails_after_fold _ request_id found after seq asked
      final h

module _ (validate : Value → Value → Bool) where
  perform-IsDecided :
      (st : Store) (op : StoreOp) (run_id request_id : String)
      → IsDecided st run_id request_id
      → IsDecided (perform validate st op) run_id request_id
  unfolding perform
  perform-IsDecided st (StoreOp.begin new_run generated) run_id request_id d =
      begin_run-IsDecided st new_run generated run_id request_id d
  perform-IsDecided st (StoreOp.append to at_ms run_path payload tx) run_id request_id d =
      append_event-IsDecided st to at_ms run_path payload tx run_id request_id d
  perform-IsDecided st (StoreOp.respond to asked actor at_ms response tx) run_id request_id d =
      submit-keeps validate (λ after. IsDecided after run_id request_id) st to asked actor at_ms
        response tx d
        (λ run_path payload carries.
          append_event-IsDecided st to at_ms run_path payload tx run_id request_id d)
  perform-IsDecided st StoreOp.restart run_id request_id d = record {
    row = d.row;
    known = d.known;
    found = d.found;
    asked = d.asked;
    answered = d.answered;
  }

  perform_all-IsDecided :
      (st : Store) (ops : List StoreOp) (run_id request_id : String)
      → IsDecided st run_id request_id
      → IsDecided (perform_all validate st ops) run_id request_id
  unfolding perform_all
  perform_all-IsDecided st [] run_id request_id d = d
  perform_all-IsDecided st (op ∷ ops) run_id request_id d =
      perform_all-IsDecided (perform validate st op) ops run_id request_id
        (perform-IsDecided st op run_id request_id d)

  decided-rejects :
      (st : Store) (run_id request_id actor : String) (at_ms : ℕ) (response : Value)
      (tx : TxOutcome)
      → IsDecided st run_id request_id
      → submit_human_response validate st run_id request_id actor at_ms response tx ≡ (
        st,
        err (
            StoreError.human_response_rejected run_id request_id
              HumanResponseRejection.already_responded),
      )
  unfolding submit_to arbitrate respond_to
  decided-rejects st run_id request_id actor at_ms response tx d = ground (
    arith,
    submit-known validate st run_id request_id actor at_ms response tx d.row d.known,
    d.asked,
    d.answered,
  )

  respond_to-decides :
      (st : Store) (run_id request_id actor : String) (at_ms : ℕ) (response : Value)
      (tx : TxOutcome) (run_path : RunPath) (request : HumanRequest)
      (ruling : Result (Unit {0}) HumanResponseRejection) (row : RunRow) (after : Store) (seq : ℕ)
      → st.tables.runs run_id ≡ some row
      → find_request request_id (st.tables.logs run_id) ≡ some (run_path, request)
      → retains request.purpose response ≡ false
      → respond_to validate st run_id request_id actor at_ms response tx run_path request ruling
        ≡ (after, ok seq)
      → IsDecided after run_id request_id
  unfolding respond_to
  respond_to-decides st run_id request_id actor at_ms response tx run_path request (err x) row after
        seq known asked final h =
      ground arith
  respond_to-decides st run_id request_id actor at_ms response tx run_path request (ok u) row after
        seq known asked final h =
      let payload = response_payload validate request_id actor response request in
      append_known-decides st row (next_event st.tables run_id at_ms run_path payload) tx request_id
        (run_path, request) after seq asked (ground (arith, str_eq_refl request_id, final))
        (sym (append_event-known st run_id at_ms run_path payload tx row known) ∙ h)

  -- A submission whose request is in the log: the arbitration, then the append.
  pub submit-asked :
      (st : Store) (run_id request_id actor : String) (at_ms : ℕ) (response : Value)
      (tx : TxOutcome) (run_path : RunPath) (request : HumanRequest) (row : RunRow)
      → st.tables.runs run_id ≡ some row
      → find_request request_id (st.tables.logs run_id) ≡ some (run_path, request)
      → submit_human_response validate st run_id request_id actor at_ms response tx
        ≡ respond_to validate st run_id request_id actor at_ms response tx run_path request (
            arbitrate validate
              (st.tables.logs run_id)
              (st.tables.checkpoints run_id)
              request_id
              at_ms
              response
              request)
  unfolding submit_to
  submit-asked st run_id request_id actor at_ms response tx run_path request row known asked =
      ground
        (arith, submit-known validate st run_id request_id actor at_ms response tx row known, asked)

  accepted-decides :
      (st : Store) (run_id request_id actor : String) (at_ms : ℕ) (response : Value)
      (tx : TxOutcome) (run_path : RunPath) (request : HumanRequest) (after : Store) (seq : ℕ)
      → find_request request_id (st.tables.logs run_id) ≡ some (run_path, request)
      → retains request.purpose response ≡ false
      → submit_human_response validate st run_id request_id actor at_ms response tx
        ≡ (after, ok seq)
      → IsDecided after run_id request_id
  accepted-decides st run_id request_id actor at_ms response tx run_path request after seq asked
        final h =
      elim (Option-cases (st.tables.runs run_id)) [
        | inl missing ↦ absurd (
            ground (
              arith,
              submit-unknown validate st run_id request_id actor at_ms response tx missing,
              h,
            ))
        | inr (row, known) ↦
            respond_to-decides st run_id request_id actor at_ms response tx run_path request _ row
              after seq known asked final
              (sym (
                  submit-asked st run_id request_id actor at_ms response tx run_path request row
                    known asked)
                ∙ h)
      ]

  -- When a response to a request of the log is accepted, and it is not a supervision answer that
  -- keeps the request open, then after any further operations on the store every later response
  -- to that request is rejected as already responded and changes nothing.
  pub accepted-rejects_later :
      (st : Store) (run_id request_id actor : String) (at_ms : ℕ) (response : Value)
      (tx : TxOutcome) (run_path : RunPath) (request : HumanRequest) (after : Store) (seq : ℕ)
      (ops : List StoreOp) (late_actor : String) (late_ms : ℕ) (late : Value) (late_tx : TxOutcome)
      → find_request request_id (st.tables.logs run_id) ≡ some (run_path, request)
      → retains request.purpose response ≡ false
      → submit_human_response validate st run_id request_id actor at_ms response tx
        ≡ (after, ok seq)
      → submit_human_response validate
          (perform_all validate after ops)
          run_id
          request_id
          late_actor
          late_ms
          late
          late_tx
        ≡ (
          perform_all validate after ops,
          err (
              StoreError.human_response_rejected run_id request_id
                HumanResponseRejection.already_responded),
        )
  accepted-rejects_later st run_id request_id actor at_ms response tx run_path request after seq ops
        late_actor late_ms late late_tx asked final h =
      decided-rejects (perform_all validate after ops) run_id request_id late_actor late_ms late
        late_tx
        (perform_all-IsDecided after ops run_id request_id (
          accepted-decides st run_id request_id actor at_ms response tx run_path request after seq
            asked final h))

-- ===== src/Store/History.antt =====
-- Histories: any sequence of store operations, with failing transactions and restarts.
use pointlock.Prelude.{
  ℕ, true, refl, all, ◌≡◌, sym, subst, String, Bool, Option, none, some, List, [], ◌∷◌, Result, ok,
  err, Option-cases, inl, inr, arith,
}
use pointlock.Ir.Json.{Value}
use pointlock.Ir.RunPath.{RunPath}
use pointlock.Ir.Wire.{carried_payload}
use pointlock.Ir.RunLog.{RunLogPayload, RunLogEvent, HumanRequest}
use pointlock.Store.Db.{
  StoreError, HumanResponseRejection, NewRun, RunRow, Store, TxOutcome, reopen,
}
use pointlock.Store.Append.{begin_run, append_event}
use pointlock.Store.Respond.{
  find_request, response_payload, respond_to, submit_to, submit_human_response,
}
use pointlock.Store.Sound.{IsSound}
use pointlock.Store.Preserve.{append_event-IsSound, begin_run-IsSound, reopen-IsSound}

-- One call on the store, or the end of the process.
pub data StoreOp : Type 0 where
  begin : (new_run : NewRun) (generated : String) → StoreOp
  append :
      (run_id : String) (at_ms : ℕ) (run_path : RunPath) (payload : RunLogPayload) (tx : TxOutcome)
      → StoreOp
  respond :
      (run_id request_id actor : String) (at_ms : ℕ) (response : Value) (tx : TxOutcome) → StoreOp
  restart : StoreOp

-- An appended event comes back from its row as it was written; the other calls write no optional
-- value.
abbrev pub carried_op : StoreOp → Bool
carried_op (StoreOp.append run_id at_ms run_path payload tx) = carried_payload payload
carried_op _ = true

module _ (validate : Value → Value → Bool) where
  -- What a call leaves of the store.
  unfoldable pub perform : Store → StoreOp → Store
  perform st (StoreOp.begin new_run generated) = (begin_run st new_run generated).0
  perform st (StoreOp.append run_id at_ms run_path payload tx) =
      (append_event st run_id at_ms run_path payload tx).0
  perform st (StoreOp.respond run_id request_id actor at_ms response tx) =
      (submit_human_response validate st run_id request_id actor at_ms response tx).0
  perform st StoreOp.restart = reopen st

  unfoldable pub perform_all : Store → List StoreOp → Store
  perform_all st [] = st
  perform_all st (op ∷ ops) = perform_all (perform st op) ops

  -- What a submission does to a run that is not there, and to one that is.
  pub submit-unknown :
      (st : Store) (run_id request_id actor : String) (at_ms : ℕ) (response : Value)
      (tx : TxOutcome)
      → st.tables.runs run_id ≡ none
      → submit_human_response validate st run_id request_id actor at_ms response tx
        ≡ (st, err (StoreError.unknown_run run_id))
  unfolding submit_human_response
  submit-unknown st run_id request_id actor at_ms response tx missing = ground arith

  pub submit-known :
      (st : Store) (run_id request_id actor : String) (at_ms : ℕ) (response : Value)
      (tx : TxOutcome) (row : RunRow)
      → st.tables.runs run_id ≡ some row
      → submit_human_response validate st run_id request_id actor at_ms response tx
        ≡ submit_to validate st run_id request_id actor at_ms response tx
            (st.tables.logs run_id)
            (find_request request_id (st.tables.logs run_id))
  unfolding submit_human_response
  submit-known st run_id request_id actor at_ms response tx row known = ground arith

  module _ (P : Store → Type 0) where
    respond_to-keeps :
        (st : Store) (run_id request_id actor : String) (at_ms : ℕ) (response : Value)
        (tx : TxOutcome) (run_path : RunPath) (request : HumanRequest)
        (ruling : Result (Unit {0}) HumanResponseRejection)
        → P st
        → ((payload : RunLogPayload)
            → carried_payload payload ≡ true
            → P (append_event st run_id at_ms run_path payload tx).0)
        → P
            (respond_to validate st run_id request_id actor at_ms response tx run_path request
              ruling).0
    unfolding respond_to
    respond_to-keeps st run_id request_id actor at_ms response tx run_path request (err x) same
          step =
        same
    respond_to-keeps st run_id request_id actor at_ms response tx run_path request (ok u) same
          step =
        step (response_payload validate request_id actor response request) refl

    submit_to-keeps :
        (st : Store) (run_id request_id actor : String) (at_ms : ℕ) (response : Value)
        (tx : TxOutcome) (log : List RunLogEvent) (found : Option (RunPath × HumanRequest))
        → P st
        → ((run_path : RunPath) (payload : RunLogPayload)
            → carried_payload payload ≡ true
            → P (append_event st run_id at_ms run_path payload tx).0)
        → P (submit_to validate st run_id request_id actor at_ms response tx log found).0
    unfolding submit_to
    submit_to-keeps st run_id request_id actor at_ms response tx log none same step = same
    submit_to-keeps st run_id request_id actor at_ms response tx log (some (run_path, request)) same
          step =
        respond_to-keeps st run_id request_id actor at_ms response tx run_path request _ same
          (step run_path)

    -- A submission leaves the store as it is, or does what one append does.
    pub submit-keeps :
        (st : Store) (run_id request_id actor : String) (at_ms : ℕ) (response : Value)
        (tx : TxOutcome)
        → P st
        → ((run_path : RunPath) (payload : RunLogPayload)
            → carried_payload payload ≡ true
            → P (append_event st run_id at_ms run_path payload tx).0)
        → P (submit_human_response validate st run_id request_id actor at_ms response tx).0
    submit-keeps st run_id request_id actor at_ms response tx same step =
        elim (Option-cases (st.tables.runs run_id)) [
          | inl missing ↦
              subst (λ (out : Store × Result ℕ StoreError). P out.0)
                (sym (submit-unknown st run_id request_id actor at_ms response tx missing)) same
          | inr (row, known) ↦
              subst (λ (out : Store × Result ℕ StoreError). P out.0)
                (sym (submit-known st run_id request_id actor at_ms response tx row known))
                (submit_to-keeps st run_id request_id actor at_ms response tx _ _ same step)
        ]

  perform-IsSound :
      (st : Store) (op : StoreOp) → carried_op op ≡ true → IsSound st → IsSound (perform st op)
  unfolding perform
  perform-IsSound st (StoreOp.begin new_run generated) c sound =
      begin_run-IsSound st new_run generated sound
  perform-IsSound st (StoreOp.append run_id at_ms run_path payload tx) c sound =
      append_event-IsSound st run_id at_ms run_path payload tx c sound
  perform-IsSound st (StoreOp.respond run_id request_id actor at_ms response tx) c sound =
      submit-keeps IsSound st run_id request_id actor at_ms response tx sound
        (λ run_path payload carries.
          append_event-IsSound st run_id at_ms run_path payload tx carries sound)
  perform-IsSound st StoreOp.restart c sound = reopen-IsSound st sound

  pub perform_all-IsSound :
      (st : Store) (ops : List StoreOp)
      → all carried_op ops ≡ true
      → IsSound st
      → IsSound (perform_all st ops)
  unfolding perform_all
  perform_all-IsSound st [] c sound = sound
  perform_all-IsSound st (op ∷ ops) c sound =
      perform_all-IsSound (perform st op) ops (ground arith)
        (perform-IsSound st op (ground arith) sound)

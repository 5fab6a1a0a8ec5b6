-- ===== src/Store/Decided.antt =====
-- store.rs: requests that have their final response, and that no operation takes it back.
use pointlock.Prelude.{
  ℕ, ◌≡◌, refl, sym, subst, String, Bool, true, ◌||◌, Option, some, List, [], ◌∷◌, ok, err, push,
  any, str_eq, str_eq_iff, str_eq_refl, Bool-cases, Option-cases, inl, inr, arith,
}
use pointlock.Ir.RunPath.{RunPath}
use pointlock.Ir.RunLog.{RunLogPayload, RunLogEvent, HumanRequest}
use pointlock.Ir.Wire.{reread_event}
use pointlock.Store.Fold.State.{FoldState}
use pointlock.Store.Fold.Steps.{Folded}
use pointlock.Store.Fold.Finish.{finish}
use pointlock.Store.Db.{NewRun, RunRow, Store, TxOutcome}
use pointlock.Store.Append.{
  begin_run, append_event, append_known, settle_tx, commit_event, new_run_id,
}
use pointlock.Store.Respond.{find_request, finally_responded, is_final_response, requested}
use pointlock.Store.Preserve.{append_event-known, append_event-unknown}

-- A request of the run has its final response in the log.
pub record IsDecided (st : Store) (run_id request_id : String) : Type 0 where
  pub row : RunRow
  pub known : st.tables.runs run_id ≡ some row
  pub found : RunPath × HumanRequest
  pub asked : find_request request_id (st.tables.logs run_id) ≡ some found
  pub answered : finally_responded request_id (st.tables.logs run_id) ≡ true

pub any-push :
    (p : RunLogEvent → Bool) (log : List RunLogEvent) (e : RunLogEvent)
    → any p (push log e) ≡ (any p log || p e)
any-push p [] e = ground arith
any-push p (f ∷ log) e = ground (arith, any-push p log e)

pub find_request-push :
    (request_id : String) (log : List RunLogEvent) (e : RunLogEvent)
    (found : RunPath × HumanRequest)
    → find_request request_id log ≡ some found
    → find_request request_id (push log e) ≡ some found
unfolding find_request
find_request-push request_id [] e found h = cc
find_request-push request_id (f ∷ log) e found h =
    elim (Option-cases (requested request_id f.run_path f.payload)) [
      | inl miss ↦ ground (arith, miss, find_request-push request_id log e found)
      | inr (request, hit) ↦ ground (arith, hit)
    ]

own_event-IsDecided :
    (st : Store) (row : RunRow) (event : RunLogEvent) (state : FoldState)
    (cache : String → Option (ℕ × FoldState)) (request_id : String)
    → IsDecided st event.run_id request_id
    → IsDecided
        (record { tables = commit_event st.tables row event state; fold_cache = cache })
        event.run_id
        request_id
own_event-IsDecided st row event state cache request_id d =
    let self = str_eq_refl event.run_id in
    record {
      row = record row { status = (finish state).status };
      known = rw self refl;
      found = d.found;
      asked = rw self (
          find_request-push request_id (st.tables.logs event.run_id) (reread_event event) d.found
            d.asked);
      answered =
          rw
            (
              self,
              any-push (λ e. is_final_response request_id e.payload) (st.tables.logs event.run_id)
                  (reread_event event),
              d.answered,
            )
            refl;
    }

-- A committed event keeps the decision: the log only grows.
commit_event-IsDecided :
    (st : Store) (row : RunRow) (event : RunLogEvent) (state : FoldState)
    (cache : String → Option (ℕ × FoldState)) (run_id request_id : String)
    → IsDecided st run_id request_id
    → IsDecided
        (record { tables = commit_event st.tables row event state; fold_cache = cache })
        run_id
        request_id
commit_event-IsDecided st row event state cache run_id request_id d =
    elim (Bool-cases (str_eq event.run_id run_id)) [
      | inr other ↦ record {
        row = d.row;
        known = rw (other, d.known) refl;
        found = d.found;
        asked = rw (other, d.asked) refl;
        answered = rw (other, d.answered) refl;
      }
      | inl same ↦
          let own = (str_eq_iff event.run_id run_id).0 same in
          subst
            (λ r.
              IsDecided
                (record { tables = commit_event st.tables row event state; fold_cache = cache }) r
                request_id)
            own
            (own_event-IsDecided st row event state cache request_id
              (subst (λ r. IsDecided st r request_id) (sym own) d))
    ]

settle_tx-IsDecided :
    (st : Store) (row : RunRow) (event : RunLogEvent) (tx : TxOutcome)
    (out : Option (ℕ × FoldState) × Folded) (run_id request_id : String)
    → IsDecided st run_id request_id
    → IsDecided (settle_tx st row event tx out).0 run_id request_id
unfolding settle_tx
settle_tx-IsDecided st row event tx (entry, err x) run_id request_id d = record {
  row = d.row;
  known = d.known;
  found = d.found;
  asked = d.asked;
  answered = d.answered;
}
settle_tx-IsDecided st row event TxOutcome.fails_before_fold (entry, ok s) run_id request_id d =
    record { row = d.row; known = d.known; found = d.found; asked = d.asked; answered = d.answered }
settle_tx-IsDecided st row event TxOutcome.fails_after_fold (entry, ok s) run_id request_id d =
    record { row = d.row; known = d.known; found = d.found; asked = d.asked; answered = d.answered }
settle_tx-IsDecided st row event TxOutcome.commits (entry, ok s) run_id request_id d =
    commit_event-IsDecided st row event s _ run_id request_id d

append_known-IsDecided :
    (st : Store) (row : RunRow) (event : RunLogEvent) (tx : TxOutcome) (run_id request_id : String)
    → IsDecided st run_id request_id
    → IsDecided (append_known st row event tx).0 run_id request_id
unfolding append_known
append_known-IsDecided st row event TxOutcome.fails_before_fold run_id request_id d = d
append_known-IsDecided st row event TxOutcome.commits run_id request_id d =
    settle_tx-IsDecided st row event TxOutcome.commits _ run_id request_id d
append_known-IsDecided st row event TxOutcome.fails_after_fold run_id request_id d =
    settle_tx-IsDecided st row event TxOutcome.fails_after_fold _ run_id request_id d

pub append_event-IsDecided :
    (st : Store) (to : String) (at_ms : ℕ) (run_path : RunPath) (payload : RunLogPayload)
    (tx : TxOutcome) (run_id request_id : String)
    → IsDecided st run_id request_id
    → IsDecided (append_event st to at_ms run_path payload tx).0 run_id request_id
append_event-IsDecided st to at_ms run_path payload tx run_id request_id d =
    elim (Option-cases (st.tables.runs to)) [
      | inl missing ↦ rw (append_event-unknown st to at_ms run_path payload tx missing) d
      | inr (row, known) ↦
          rw (append_event-known st to at_ms run_path payload tx row known)
            (append_known-IsDecided st row _ tx run_id request_id d)
    ]

pub begin_run-IsDecided :
    (st : Store) (new_run : NewRun) (generated run_id request_id : String)
    → IsDecided st run_id request_id
    → IsDecided (begin_run st new_run generated).0 run_id request_id
unfolding begin_run
begin_run-IsDecided st new_run generated run_id request_id d =
    elim (Option-cases (st.tables.runs (new_run_id new_run.run_id generated))) [
      | inr (row, known) ↦ rw known d
      | inl missing ↦ rw missing (record {
        row = d.row;
        known =
            ground
              (arith, d.known, missing, str_eq_iff (new_run_id new_run.run_id generated) run_id);
        found = d.found;
        asked = d.asked;
        answered = d.answered;
      })
    ]

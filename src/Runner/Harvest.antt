-- ===== src/Runner/Harvest.antt =====
-- crates/pointlock-runner/src/align.rs, 556-705: the pass over the ledger that collects the facts for
-- a resume.
use pointlock.Prelude.{
  ℕ, String, Bool, true, false, not, ◌&&◌, Option, none, some, List, [], ◌∷◌, is_some, option_eq,
  if◌then◌else◌, str_eq, leb, push, init, insert, remove, lookup,
}
use pointlock.Ir.Vocab.{Hash, HandlerHook, HumanPurpose, is_supervision}
use pointlock.Ir.Json.{Value, get_str}
use pointlock.Ir.Record.{ActionOutcome, Observation, Verdict, EventCursor}
use pointlock.Ir.RunLog.{HumanRequest, RunLogPayload, RunLogEvent}
use pointlock.Runner.Facts.{IssuingCursor, HumanRequestFact, Harvest, Scan, no_facts}
use pointlock.Runner.Keys.{attempt_of, instance_key, hook_trigger_key}

-- `entry(key).or_insert(value)`.
abbrev pub or_insert {ℓ} : {V : Type ℓ} → String → V → List (String × V) → List (String × V)
or_insert key value m = if is_some (lookup key m) then m else insert key value m

-- `entry(key).or_insert(0)` raised to at least `n`.
abbrev pub raise_to : ℕ → Option ℕ → ℕ
raise_to n none = n
raise_to n (some m) = if leb n m then m else n

abbrev pub raise : String → ℕ → List (String × ℕ) → List (String × ℕ)
raise key n m = insert key (raise_to n (lookup key m)) m

-- An identifier that is there is kept, one that is not there is removed.
abbrev pub set_or_clear :
    String → Option Observation → List (String × String) → List (String × String)
set_or_clear key none m = remove key m
set_or_clear key (some observation) m = insert key observation.id m

abbrev pub insert_some : String → Option ℕ → List (String × ℕ) → List (String × ℕ)
insert_some key none m = m
insert_some key (some n) m = insert key n m

abbrev pub issuing_after : Option EventCursor → IssuingCursor
issuing_after none = IssuingCursor.unknown
issuing_after (some cursor) = IssuingCursor.known cursor

abbrev pub attempt_or_one : Option ℕ → ℕ
attempt_or_one none = 1
attempt_or_one (some n) = n

unfoldable pub harvest_entered : Scan → RunLogEvent → Hash → Value → Scan
harvest_entered scan e effect_hash resolved_inputs =
    let key = instance_key e.run_path in
    record scan {
      facts = record (scan.facts) {
        open_spans = push scan.facts.open_spans e.run_path;
        entered_effect_hash = insert key effect_hash scan.facts.entered_effect_hash;
        entered_inputs = insert key resolved_inputs scan.facts.entered_inputs;
        entered_seq = or_insert key e.seq scan.facts.entered_seq;
      };
    }

unfoldable pub harvest_intent : Scan → RunLogEvent → String → Option ℕ → Scan
harvest_intent scan e call_id chain_index = record scan {
  facts = record (scan.facts) {
    intent_chain_index = insert_some call_id chain_index scan.facts.intent_chain_index;
    intent_issuing = insert call_id scan.issuing scan.facts.intent_issuing;
    intent_path = insert call_id e.run_path scan.facts.intent_path;
    max_attempt =
        raise (instance_key e.run_path) (attempt_or_one (attempt_of e.run_path))
          scan.facts.max_attempt;
  };
}

-- What a success adds.
unfoldable pub harvest_result : String → ActionOutcome → Harvest → Harvest
harvest_result key (ActionOutcome.succeeded result) facts = record facts {
  raw_output = insert key result.output facts.raw_output;
  after_observation = set_or_clear key result.after facts.after_observation;
  before_observation = set_or_clear key result.before facts.before_observation;
}
harvest_result key _ facts = facts

unfoldable pub harvest_settled : Scan → RunLogEvent → ActionOutcome → Scan
harvest_settled scan e outcome =
    let key = instance_key e.run_path in
    record scan {
      facts = harvest_result key outcome (record (scan.facts) {
        settled = insert key (record { outcome = outcome }) scan.facts.settled;
      });
    }

unfoldable pub harvest_verdict : Scan → RunLogEvent → Verdict → Scan
harvest_verdict scan e verdict =
    let key = instance_key e.run_path in
    record scan {
      facts = record (scan.facts) {
        verdict_seq = insert key e.seq scan.facts.verdict_seq;
        recorded_verdicts =
            insert key (verdict.status, verdict.degraded) scan.facts.recorded_verdicts;
      };
    }

unfoldable pub harvest_trigger : Scan → RunLogEvent → HandlerHook → ℕ → Scan
harvest_trigger scan e hook trigger = record scan {
  facts = record (scan.facts) {
    hook_triggers =
        raise (hook_trigger_key (instance_key e.run_path) hook) trigger scan.facts.hook_triggers;
  };
}

unfoldable pub harvest_request : Scan → RunLogEvent → HumanRequest → Scan
harvest_request scan e request =
    let key = instance_key e.run_path in
    record scan {
      request_index = insert request.request_id key scan.request_index;
      facts = record (scan.facts) {
        human_requests =
            insert key
              (record {
                request_id = request.request_id;
                run_path = e.run_path;
                purpose = request.purpose;
                mode = request.mode;
                prompt = request.prompt;
                presents = request.presents;
                deadline_at_ms = request.deadline_at_ms;
                final_response = none;
                final_actor = none;
              })
              scan.facts.human_requests;
      };
    }

-- Only a supervision answer `suspend` is not final.
abbrev pub is_final : HumanPurpose → Value → Bool
is_final purpose response =
    not (is_supervision purpose && option_eq str_eq (get_str "decision" response) (some "suspend"))

-- A write through `get_mut` to the fact at `key`, if it is the fact of this request.
unfoldable pub settle_fact :
    String
    → String
    → Value
    → String
    → List (String × HumanRequestFact)
    → List (String × HumanRequestFact)
settle_fact key request_id response actor facts = elim (lookup key facts) [
  | none ↦ facts
  | some fact ↦
      if str_eq fact.request_id request_id
      then insert key (record fact { final_response = some response; final_actor = some actor })
          facts
      else facts
]

unfoldable pub harvest_response : Scan → String → HumanPurpose → Value → String → Scan
harvest_response scan request_id purpose response actor =
    if is_final purpose response
    then (elim (lookup request_id scan.request_index) [
      | none ↦ scan
      | some key ↦ record scan {
        facts = record (scan.facts) {
          human_requests = settle_fact key request_id response actor scan.facts.human_requests;
        };
      }
    ])
    else scan

-- The body of the loop.
unfoldable pub harvest_payload : Scan → RunLogEvent → RunLogPayload → Scan
harvest_payload scan e (RunLogPayload.step_entered _ effect_hash _ resolved_inputs) =
    harvest_entered scan e effect_hash resolved_inputs
harvest_payload scan e (RunLogPayload.step_exited _ _ _ _ _) = record scan {
  facts = record (scan.facts) { open_spans = init scan.facts.open_spans };
}
harvest_payload scan e (RunLogPayload.call_frame_pushed _ false) = record scan {
  facts = record (scan.facts) { live_frames = push scan.facts.live_frames e.run_path };
}
harvest_payload scan e (RunLogPayload.call_frame_pushed _ true) = scan
harvest_payload scan e (RunLogPayload.call_frame_popped _) = record scan {
  facts = record (scan.facts) { live_frames = init scan.facts.live_frames };
}
harvest_payload scan e (RunLogPayload.run_resumed _ _ event_cursor) = record scan {
  issuing = issuing_after event_cursor;
}
harvest_payload scan e (RunLogPayload.action_intent call_id _ chain_index _ _) =
    harvest_intent scan e call_id chain_index
harvest_payload scan e (RunLogPayload.action_settled _ outcome) = harvest_settled scan e outcome
harvest_payload scan e (RunLogPayload.verdict_recorded verdict _ _ _) =
    harvest_verdict scan e verdict
harvest_payload scan e (RunLogPayload.handler_triggered hook trigger _) =
    harvest_trigger scan e hook trigger
harvest_payload scan e (RunLogPayload.human_requested request) = harvest_request scan e request
harvest_payload scan e (RunLogPayload.human_responded request_id purpose response actor) =
    harvest_response scan request_id purpose response actor
harvest_payload scan e _ = scan

unfoldable pub harvest_from : Scan → List RunLogEvent → Scan
harvest_from scan [] = scan
harvest_from scan (e ∷ events) = harvest_from (harvest_payload scan e e.payload) events

-- `harvest`.
unfoldable pub harvest : List RunLogEvent → Harvest
harvest events = (harvest_from no_facts events).facts

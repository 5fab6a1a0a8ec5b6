-- ===== src/Runner/Watermark.antt =====
-- align.rs, harvest: the attempt watermark of a step instance.
use pointlock.Prelude.{
  ℕ, String, ◌≤◌, ◌≡◌, refl, sym, ◌∙◌, subst, inl, inr, Bool, true, false, Option, none, some,
  Option-cases, Bool-cases, List, [], ◌∷◌, ◌++◌, str_eq, str_eq_iff, lookup, lookup-insert,
  lookup-insert_same, arith,
}
use pointlock.Ir.Vocab.{HumanPurpose}
use pointlock.Ir.Json.{Value}
use pointlock.Ir.Record.{ActionOutcome}
use pointlock.Ir.RunLog.{RunLogPayload, RunLogEvent}
use pointlock.Runner.Keys.{attempt_of, instance_key}
use pointlock.Runner.Facts.{Scan, no_facts}
use pointlock.Runner.Harvest.{
  raise_to, raise, attempt_or_one, harvest_entered, harvest_intent, harvest_result, harvest_settled,
  harvest_verdict, harvest_trigger, harvest_request, harvest_response, harvest_payload,
  harvest_from, harvest,
}

-- The watermark of an instance is at least `n`.
pub record Covers (key : String) (n : ℕ) (attempts : List (String × ℕ)) : Type 0 where
  pub mark : ℕ
  pub found : lookup key attempts ≡ some mark
  pub least : n ≤ mark

raise_to-some : (n : ℕ) (o : Option ℕ) → n ≤ raise_to n o
raise_to-some n none = omega arith
raise_to-some n (some m) = ground arith

raise_to-keeps : (n m : ℕ) → m ≤ raise_to n (some m)
raise_to-keeps n m = ground arith

raise-Covers :
    (key : String) (n : ℕ) (attempts : List (String × ℕ)) → Covers key n (raise key n attempts)
raise-Covers key n attempts = record {
  mark = raise_to n (lookup key attempts);
  found = lookup-insert_same key _ attempts;
  least = raise_to-some n (lookup key attempts);
}

-- A watermark never falls.
raise-keeps :
    (key other : String) (n m : ℕ) (attempts : List (String × ℕ))
    → Covers key n attempts
    → Covers key n (raise other m attempts)
raise-keeps key other n m attempts c = elim (Bool-cases (str_eq other key)) [
  | inl same ↦
      let here = (str_eq_iff other key).0 same in
      record {
        mark = raise_to m (lookup other attempts);
        found = lookup-insert other key _ attempts ∙ rw same refl;
        least = rw (here, c.found) (omega (arith, c.least, raise_to-keeps m c.mark));
      }
  | inr apart ↦ record {
    mark = c.mark;
    found = lookup-insert other key _ attempts ∙ rw apart c.found;
    least = c.least;
  }
]

harvest_response-attempts :
    (scan : Scan) (request_id : String) (purpose : HumanPurpose) (response : Value) (actor : String)
    → (harvest_response scan request_id purpose response actor).facts.max_attempt
      ≡ scan.facts.max_attempt
unfolding harvest_response
harvest_response-attempts scan request_id purpose response actor =
    elim (Option-cases (lookup request_id scan.request_index)) [
      | inl q ↦ ground (arith, q)
      | inr (key, q) ↦ ground (arith, q)
    ]

harvest_payload-Covers :
    (key : String) (n : ℕ) (scan : Scan) (e : RunLogEvent) (p : RunLogPayload)
    → Covers key n scan.facts.max_attempt
    → Covers key n (harvest_payload scan e p).facts.max_attempt
unfolding harvest_payload harvest_entered harvest_intent harvest_settled harvest_result
    harvest_verdict harvest_trigger harvest_request
harvest_payload-Covers key n scan e (RunLogPayload.action_intent _ _ _ _ _) c =
    raise-keeps key (instance_key e.run_path) n (attempt_or_one (attempt_of e.run_path))
      scan.facts.max_attempt c
harvest_payload-Covers key n scan e (RunLogPayload.call_frame_pushed frame false) c = c
harvest_payload-Covers key n scan e (RunLogPayload.call_frame_pushed frame true) c = c
harvest_payload-Covers key n scan e (RunLogPayload.action_settled _ (ActionOutcome.succeeded r)) c =
    c
harvest_payload-Covers key n scan e (RunLogPayload.action_settled _ (ActionOutcome.failed r)) c = c
harvest_payload-Covers key n scan e (RunLogPayload.action_settled _ (ActionOutcome.cancelled r)) c =
    c
harvest_payload-Covers key n scan e (RunLogPayload.action_settled _ (ActionOutcome.timed_out r)) c =
    c
harvest_payload-Covers key n scan e (RunLogPayload.human_responded i p v a) c =
    subst (Covers key n) (sym (harvest_response-attempts scan i p v a)) c
harvest_payload-Covers key n scan e _ c = c

harvest_from-Covers :
    (key : String) (n : ℕ) (scan : Scan) (events : List RunLogEvent)
    → Covers key n scan.facts.max_attempt
    → Covers key n (harvest_from scan events).facts.max_attempt
unfolding harvest_from
harvest_from-Covers key n scan [] c = c
harvest_from-Covers key n scan (e ∷ events) c =
    harvest_from-Covers key n (harvest_payload scan e e.payload) events
      (harvest_payload-Covers key n scan e e.payload c)

unfoldable pub is_intent : RunLogPayload → Bool
is_intent (RunLogPayload.action_intent _ _ _ _ _) = true
is_intent _ = false

intent-Covers :
    (scan : Scan) (e : RunLogEvent) (p : RunLogPayload)
    → is_intent p ≡ true
    → Covers
        (instance_key e.run_path)
        (attempt_or_one (attempt_of e.run_path))
        (harvest_payload scan e p).facts.max_attempt
unfolding is_intent harvest_payload harvest_intent
intent-Covers scan e (RunLogPayload.action_intent _ _ _ _ _) h =
    raise-Covers (instance_key e.run_path) (attempt_or_one (attempt_of e.run_path)) _
intent-Covers scan e _ h = absurd cc

harvest_from-append :
    (scan : Scan) (before after : List RunLogEvent)
    → harvest_from scan (before ++ after) ≡ harvest_from (harvest_from scan before) after
unfolding harvest_from
harvest_from-append scan [] after = refl
harvest_from-append scan (e ∷ before) after =
    harvest_from-append (harvest_payload scan e e.payload) before after

-- The attempt watermark of a step instance is at least the attempt number of each action intent that the
-- ledger holds for the instance, wherever the intent stands.
pub harvest-Covers :
    (before after : List RunLogEvent) (e : RunLogEvent)
    → is_intent e.payload ≡ true
    → Covers
        (instance_key e.run_path)
        (attempt_or_one (attempt_of e.run_path))
        (harvest (before ++ e ∷ after)).max_attempt
unfolding harvest harvest_from
harvest-Covers before after e h =
    subst
      (λ scan.
        Covers (instance_key e.run_path) (attempt_or_one (attempt_of e.run_path))
          scan.facts.max_attempt)
      (sym (harvest_from-append no_facts before (e ∷ after)))
      (harvest_from-Covers (instance_key e.run_path) (attempt_or_one (attempt_of e.run_path)) _
        after (intent-Covers (harvest_from no_facts before) e e.payload h))

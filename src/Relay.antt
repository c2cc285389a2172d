-- ===== src/Relay.antt =====
-- internal/relay: intents are published to a topic, and then marked as published. The broker and
-- JSON are parameters.
pub mod Delivery
use idemio.Prelude.{
  ℕ, ◌+◌, String, Bool, true, false, not, ◌&&◌, Option, none, some, List, [], ◌∷◌, ◌++◌, map, ◌==◌,
  leb, eqb, length, take, any, select_where, update_where, Except, ok, err, if◌then◌else◌,
}
use idemio.Manifest.{Operation}
use idemio.Tables.{IntentRow, CommitReply}

-- message; the key of the broker's message is `intent_id`
pub record Message : Type 0 where
  pub intent_id : String
  pub agent_id : String
  pub idempotency_key : String
  pub resource_type : String
  pub resource_id : String
  pub operation : String
  pub declared : Operation
  pub payload : String
  pub voided : Bool
  pub emitted_at : ℕ

abbrev pub is_none {ℓ} : {A : Type ℓ} → Option A → Bool
is_none none = true
is_none (some a) = false

unfoldable pub to_message : IntentRow → Message
to_message r = record {
  intent_id = r.intent_id;
  agent_id = r.agent_id;
  idempotency_key = r.idempotency_key;
  resource_type = r.resource_type;
  resource_id = r.resource_id;
  operation = r.operation;
  declared = r.declared;
  payload = r.payload;
  voided = not (is_none r.voided_at);
  emitted_at = r.emitted_at;
}

unfoldable pub insert_earliest : IntentRow → List IntentRow → List IntentRow
insert_earliest r [] = r ∷ []
insert_earliest r (x ∷ xs) =
    let rest = insert_earliest r xs in
    if leb r.emitted_at x.emitted_at then r ∷ x ∷ xs else x ∷ rest

-- `ORDER BY emitted_at`
unfoldable pub earliest_first : List IntentRow → List IntentRow
earliest_first [] = []
earliest_first (r ∷ rows) = insert_earliest r (earliest_first rows)

-- selectUnpublished
unfoldable pub unpublished : ℕ → List IntentRow → List Message
unpublished batch rows =
    map to_message (take batch (earliest_first (select_where (λ r. is_none r.published_at) rows)))

-- the intents, and what the broker has taken
pub record Outbox : Type 0 where
  pub intents : List IntentRow
  pub topic : List Message

-- What one cycle meets. A write to the broker that fails may have delivered some of its messages.
pub record RelayServer : Type 0 where
  pub now : ℕ
  pub query_fails : Bool
  pub encode_fails : Message → Bool
  pub write_fails : Bool
  pub delivered : List Message → List Message
  pub mark : CommitReply

pub data RelayFault : Type 0 where
  outbox_failed encode_failed publish_failed mark_failed : RelayFault

-- markPublished
unfoldable pub mark_published : ℕ → List Message → List IntentRow → List IntentRow
mark_published now messages rows =
    update_where
      (λ r.
        any (λ i. i == r.intent_id) (map (λ m. m.intent_id) messages)
        && any (λ t. eqb t r.emitted_at) (map (λ m. m.emitted_at) messages))
      (λ r. record r { published_at = some now }) rows

-- after the broker took the messages: the update, which may also be applied and its reply lost
abbrev pub mark_with : CommitReply → ℕ → List Message → Outbox → Outbox × Except RelayFault ℕ
mark_with CommitReply.applied now messages s =
    (record s { intents = mark_published now messages s.intents }, ok (length messages))
mark_with CommitReply.refused now messages s = (s, err mark_failed)
mark_with CommitReply.lost now messages s =
    (record s { intents = mark_published now messages s.intents }, err mark_failed)

abbrev pub deliver : List Message → Outbox → Outbox
deliver messages s = record s { topic = s.topic ++ messages }

unfoldable pub publish_pending : RelayServer → List Message → Outbox → Outbox × Except RelayFault ℕ
publish_pending v [] s = (s, ok 0)
publish_pending v (m ∷ ms) s =
    if any v.encode_fails (m ∷ ms)
    then (s, err encode_failed)
    else if v.write_fails
    then (deliver (v.delivered (m ∷ ms)) s, err publish_failed)
    else mark_with v.mark v.now (m ∷ ms) (deliver (m ∷ ms) s)

-- Publish
unfoldable pub publish : ℕ → RelayServer → Outbox → Outbox × Except RelayFault ℕ
publish batch v s =
    if v.query_fails
    then (s, err outbox_failed)
    else publish_pending v (unpublished batch s.intents) s

-- Run: cycles that go on after a failure
unfoldable pub run : ℕ → List RelayServer → Outbox → Outbox
run batch [] s = s
run batch (v ∷ vs) s = run batch vs (publish batch v s).0

-- ===== src/Relay/Delivery.antt =====
-- An intent that is marked as published was delivered.
use idemio.Prelude.{
  ℕ, String, Bool, true, ◌||◌, List, [], ◌∷◌, ◌++◌, map, ◌≡◌, refl, ap, ◌∙◌, arith, ◌==◌, eqb, any,
  any-append, update_where, Bool-cases, inl, inr,
}
use idemio.Tables.{IntentRow, CommitReply}
use idemio.Relay.{
  Message, is_none, unpublished, Outbox, RelayServer, mark_published, mark_with, publish_pending,
  publish, run,
}

abbrev pub has_message : String → List Message → Bool
has_message id topic = any (λ m. m.intent_id == id) topic

-- not published, or in the topic
abbrev pub is_delivered : List Message → IntentRow → Bool
is_delivered topic r = is_none r.published_at || has_message r.intent_id topic

-- Every intent that is marked as published is in the topic.
abbrev pub IsDelivered : List Message → List IntentRow → Type 0
IsDelivered topic [] = Unit
IsDelivered topic (r ∷ rows) = (is_delivered topic r ≡ true) × IsDelivered topic rows

any-map {ℓ κ} :
    {A : Type ℓ} {B : Type κ} (p : B → Bool) (f : A → B) (xs : List A)
    → any p (map f xs) ≡ any (λ x. p (f x)) xs
unfolding any
any-map p f [] = refl
any-map p f (x ∷ xs) = ap (λ b. p (f x) || b) (any-map p f xs)

deliver-IsDelivered :
    (more topic : List Message) (rows : List IntentRow)
    → IsDelivered topic rows
    → IsDelivered (topic ++ more) rows
deliver-IsDelivered more topic [] all = tt
deliver-IsDelivered more topic (r ∷ rows) (d, all) = (
  ground (arith, d, any-append (λ (m : Message). m.intent_id == r.intent_id) topic more),
  deliver-IsDelivered more topic rows all,
)

mark-IsDelivered :
    (now : ℕ) (messages topic : List Message) (rows : List IntentRow)
    → IsDelivered topic rows
    → IsDelivered (topic ++ messages) (mark_published now messages rows)
unfolding mark_published update_where
mark-IsDelivered now messages topic [] all = tt
mark-IsDelivered now messages topic (r ∷ rows) (d, all) =
    let ids = any-map (λ (i : String). i == r.intent_id) (λ (m : Message). m.intent_id) messages in
    let longer = any-append (λ (m : Message). m.intent_id == r.intent_id) topic messages in
    (
      elim (Bool-cases (any (λ (m : Message). m.intent_id == r.intent_id) messages)) [
        | inl e ↦
            elim (Bool-cases
              (any (λ t. eqb t r.emitted_at) (map (λ (m : Message). m.emitted_at) messages))) [
                | inl f ↦ rw (ids, e, f) (longer ∙ ground (arith, e))
                | inr f ↦ rw (ids, e, f) (ground (arith, d, e, longer))
              ]
        | inr e ↦ rw (ids, e) (ground (arith, d, longer))
      ],
      mark-IsDelivered now messages topic rows all,
    )

mark_with-IsDelivered :
    (c : CommitReply) (now : ℕ) (messages topic : List Message) (rows : List IntentRow)
    → IsDelivered topic rows
    → let after =
        (mark_with c now messages (record { intents = rows; topic = topic ++ messages })).0 in
      IsDelivered after.topic after.intents
mark_with-IsDelivered CommitReply.applied now messages topic rows all =
    mark-IsDelivered now messages topic rows all
mark_with-IsDelivered CommitReply.refused now messages topic rows all =
    deliver-IsDelivered messages topic rows all
mark_with-IsDelivered CommitReply.lost now messages topic rows all =
    mark-IsDelivered now messages topic rows all

publish_pending-IsDelivered :
    (v : RelayServer) (pending : List Message) (s : Outbox)
    → IsDelivered s.topic s.intents
    → IsDelivered (publish_pending v pending s).0.topic (publish_pending v pending s).0.intents
unfolding publish_pending
publish_pending-IsDelivered v [] s all = all
publish_pending-IsDelivered v (m ∷ ms) s all = elim (Bool-cases (any v.encode_fails (m ∷ ms))) [
  | inl e ↦ rw e all
  | inr e ↦ elim (Bool-cases v.write_fails) [
    | inl f ↦ rw (e, f) (deliver-IsDelivered (v.delivered (m ∷ ms)) s.topic s.intents all)
    | inr f ↦ rw (e, f) (mark_with-IsDelivered v.mark v.now (m ∷ ms) s.topic s.intents all)
  ]
]

publish-IsDelivered :
    (batch : ℕ) (v : RelayServer) (s : Outbox)
    → IsDelivered s.topic s.intents
    → IsDelivered (publish batch v s).0.topic (publish batch v s).0.intents
unfolding publish publish_pending
publish-IsDelivered batch v s all = elim (Bool-cases v.query_fails) [
  | inl e ↦ rw e all
  | inr e ↦ rw e (publish_pending-IsDelivered v (unpublished batch s.intents) s all)
]

-- At least once: through any number of cycles and whatever fails in them, every intent that is marked
-- as published has been delivered, if that holds at the start.
pub run-IsDelivered :
    (batch : ℕ) (vs : List RelayServer) (s : Outbox)
    → IsDelivered s.topic s.intents
    → IsDelivered (run batch vs s).topic (run batch vs s).intents
unfolding run
run-IsDelivered batch [] s all = all
run-IsDelivered batch (v ∷ vs) s all =
    run-IsDelivered batch vs (publish batch v s).0 (publish-IsDelivered batch v s all)

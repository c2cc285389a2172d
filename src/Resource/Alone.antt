-- ===== src/Resource/Alone.antt =====
-- No live intent has a rival: the invariant of a resource under enforcement.
use idemio.Prelude.{
  ℕ, String, Bool, true, false, none, List, [], ◌∷◌, ◌++◌, ◌≡◌, refl, ℤ, any, arith, select_where,
  Bool-cases, inl, inr, eq_iff, and-eq-true, if◌then◌else◌,
}
use idemio.Claim.Complete.{Completion, complete, void_newest, is_live_of}
use idemio.Claim.Complete.Effect.{complete_effect}
use idemio.Claim.Resolve.{is_row, void_at}
use idemio.Claim.Statements.{is_failed, by_latest}
use idemio.Relay.{
  RelayServer, Outbox, Message, publish, publish_pending, unpublished, mark_published, mark_with,
  deliver,
}
use idemio.Tables.{IntentRow, Db, Server, CommitReply}
use idemio.Tables.Laws.{IsUnique}
use idemio.Resource.{
  is_rival_of, Step, Reach, claims, completes, publishes, retires, elsewhere, start, next,
}
use idemio.Resource.Claims.{claim-quiet}
use idemio.Resource.Quiet.{quiet, quiet-update, quiet-select, void-IsTame, publish-IsTame}

module _ (type : String) (window : ℤ) where
  complete-quiet :
      (v : Server) (agent key : String) (c : Completion) (db : Db)
      → IsUnique db
      → quiet type window db.intents ≡ true
      → quiet type window (complete v agent key c db).0.intents ≡ true
  complete-quiet v agent key c db unique h = elim (complete_effect v agent key c db unique) [
    | inl (same, _) ↦ rw same h
    | inr ((_, _, voided), _) ↦ rw voided (
        void_quiet v (is_failed c.status)
          (by_latest (select_where (is_live_of agent key) db.intents)) db.intents h)
  ]
    where
      void_quiet :
          (v : Server) (failed : Bool) (found intents : List IntentRow)
          → quiet type window intents ≡ true
          → quiet type window (if failed then void_newest v found intents else intents) ≡ true
      void_quiet v false found intents h = h
      void_quiet v true [] intents h = h
      void_quiet v true (row ∷ found) intents h =
          quiet-update type window (void_at v) (void-IsTame type window v.now) (is_row row) intents
            h

  mark_quiet :
      (reply : CommitReply) (now : ℕ) (messages : List Message) (s : Outbox)
      → quiet type window s.intents ≡ true
      → quiet type window (mark_with reply now messages s).0.intents ≡ true
  unfolding mark_published
  mark_quiet CommitReply.applied now messages s h =
      quiet-update type window _ (publish-IsTame type window now) _ s.intents h
  mark_quiet CommitReply.refused now messages s h = h
  mark_quiet CommitReply.lost now messages s h =
      quiet-update type window _ (publish-IsTame type window now) _ s.intents h

  pending_quiet :
      (v : RelayServer) (messages : List Message) (s : Outbox)
      → quiet type window s.intents ≡ true
      → quiet type window (publish_pending v messages s).0.intents ≡ true
  unfolding publish_pending
  pending_quiet v [] s h = h
  pending_quiet v (m ∷ ms) s h = elim (Bool-cases (any v.encode_fails (m ∷ ms))) [
    | inl e ↦ rw e h
    | inr e ↦ elim (Bool-cases v.write_fails) [
      | inl f ↦ rw (e, f) h
      | inr f ↦ rw (e, f) (mark_quiet v.mark v.now (m ∷ ms) (deliver (m ∷ ms) s) h)
    ]
  ]

  publish-quiet :
      (batch : ℕ) (v : RelayServer) (s : Outbox)
      → quiet type window s.intents ≡ true
      → quiet type window (publish batch v s).0.intents ≡ true
  unfolding publish publish_pending
  publish-quiet batch v s h = elim (Bool-cases v.query_fails) [
    | inl e ↦ rw e h
    | inr e ↦ rw e (pending_quiet v (unpublished batch s.intents) s h)
  ]

  Step_quiet :
      {db db' : Db}
      → Step type window db db'
      → quiet type window db.intents ≡ true
      → quiet type window db'.intents ≡ true
  Step_quiet (claims v req db governed fresh) h = claim-quiet type window v req db governed fresh h
  Step_quiet (completes v agent key c db unique) h = complete-quiet v agent key c db unique h
  Step_quiet (publishes batch v topic db) h =
      publish-quiet batch v (record { intents = db.intents; topic = topic }) h
  Step_quiet (retires keeps db) h = quiet-select type window keeps db.intents h
  Step_quiet (elsewhere keys db) h = h

  Reach_quiet : {db : Db} → Reach type window db → quiet type window db.intents ≡ true
  unfolding quiet
  Reach_quiet (start db none_yet) = rw none_yet refl
  Reach_quiet (next r step) = Step_quiet step (Reach_quiet r)

  quiet_after :
      (newer : List IntentRow) (i : IntentRow) (older : List IntentRow)
      → quiet type window (newer ++ (i ∷ older)) ≡ true
      → i.resource_type ≡ type
      → i.voided_at ≡ none
      → any (is_rival_of window i) older ≡ false
  unfolding quiet
  quiet_after [] i older h own live = ground (arith, (eq_iff i.resource_type type).1 own)
  quiet_after (j ∷ newer) i older h own live =
      quiet_after newer i older (and-eq-true _ _ h).1 own live

  -- Wherever claims, completions, the relay, retention and changes to the keys take a table that
  -- began with no intent, in any order and whatever fails: while the type enforces with one window
  -- and identifiers are fresh, a live intent of the type conflicts with no live intent of another
  -- agent that was recorded before it on its resource, within the window.
  pub intents_alone :
      {db : Db}
      → Reach type window db
      → (newer : List IntentRow) (i : IntentRow) (older : List IntentRow)
      → db.intents ≡ newer ++ (i ∷ older)
      → i.resource_type ≡ type
      → i.voided_at ≡ none
      → any (is_rival_of window i) older ≡ false
  intents_alone r newer i older e own live =
      quiet_after newer i older (rw e at (Reach_quiet r)) own live

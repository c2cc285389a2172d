-- ===== src/Resource/Claims.antt =====
-- A claim keeps the table free of rivals, whatever its verdict.
use mathlib.Core.Path.{subst}
use idemio.Prelude.{
  String, true, false, ◌||◌, List, ◌∷◌, ◌≡◌, ◌∙◌, ◌==◌, ℤ, any, any-or, arith, update_where,
  Bool-cases, inl, inr, eq_iff, eq_refl,
}
use idemio.Prelude.Rows.{any_mono}
use idemio.Claim.{Request}
use idemio.Claim.Resolve.{is_row, void_at}
use idemio.Claim.Resolve.Alone.{is_rival}
use idemio.Claim.Statements.{in_window, new_intent}
use idemio.Claim.Transaction.{claim}
use idemio.Claim.Transaction.Effect.{claim-Effect}
use idemio.Claim.Transaction.Alone.{claim-Settles}
use idemio.Tables.{IntentRow, Db, Server}
use idemio.Resource.{is_rival_of, IsFresh, IsGoverned}
use idemio.Resource.Quiet.{quiet, quiet-update, void-IsTame}

module _ (type : String) (window : ℤ) where
  -- What a claim has checked is what the new intent needs.
  new_quiet :
      (v : Server) (req : Request) (intents : List IntentRow)
      → any (λ (i : IntentRow). i.intent_id == v.uuid 0) intents ≡ false
      → any (is_rival v req) intents ≡ false
      → any (is_rival_of req.window (new_intent v req)) intents ≡ false
  unfolding is_rival in_window is_rival_of new_intent
  new_quiet v req intents fresh alone =
      any_mono (is_rival_of req.window (new_intent v req))
        (λ i. is_rival v req i || i.intent_id == v.uuid 0) (λ i h. ground arith) intents
        (any-or (is_rival v req) (λ (i : IntentRow). i.intent_id == v.uuid 0) intents
          ∙ rw (fresh, alone))

  granted_quiet :
      (v : Server) (req : Request) (intents : List IntentRow)
      → IsGoverned type window req
      → any (λ (i : IntentRow). i.intent_id == v.uuid 0) intents ≡ false
      → (req.enforce ≡ true → any (is_rival v req) intents ≡ false)
      → quiet type window intents ≡ true
      → quiet type window (new_intent v req ∷ intents) ≡ true
  unfolding quiet new_intent
  granted_quiet v req intents governed fresh alone h =
      elim (Bool-cases (req.resource_type == type)) [
        | inl e ↦
            let (on, same) = governed ((eq_iff req.resource_type type).0 e) in
            let none_rival =
              subst (λ w. any (is_rival_of w (new_intent v req)) intents ≡ false) same
                (new_quiet v req intents fresh (alone on)) in
            ground (arith, none_rival)
        | inr e ↦ rw e h
      ]

  elsewhere_quiet :
      (v : Server) (req : Request) (intents : List IntentRow)
      → (req.resource_type == type) ≡ false
      → quiet type window intents ≡ true
      → quiet type window (new_intent v req ∷ intents) ≡ true
  unfolding quiet new_intent
  elsewhere_quiet v req intents other h = rw other h

  rejected_quiet :
      (v : Server) (req : Request) (intents : List IntentRow)
      → quiet type window intents ≡ true
      → quiet type window
          (update_where (is_row (new_intent v req)) (void_at v) (new_intent v req ∷ intents))
        ≡ true
  unfolding quiet update_where
  rejected_quiet v req intents h =
      let own : is_row (new_intent v req) (new_intent v req) ≡ true =
        ground (arith, eq_refl (new_intent v req).intent_id) in
      rw own (
        quiet-update type window (void_at v) (void-IsTame type window v.now)
          (is_row (new_intent v req)) intents h)

  pub claim-quiet :
      (v : Server) (req : Request) (db : Db)
      → IsGoverned type window req
      → IsFresh (v.uuid 0) db
      → quiet type window db.intents ≡ true
      → quiet type window (claim v req db).0.intents ≡ true
  claim-quiet v req db governed fresh h = elim (Bool-cases (req.resource_type == type)) [
    | inl e ↦
        let on = (governed ((eq_iff req.resource_type type).0 e)).0 in
        elim (claim-Settles v req db on) [
          | inl (same, _) ↦ rw same h
          | inr (_, inl (_, added, alone), _) ↦
              rw added (granted_quiet v req db.intents governed fresh (λ _. alone.0) h)
          | inr (_, inr (_, voided), _) ↦ rw voided (rejected_quiet v req db.intents h)
        ]
    | inr e ↦ elim (claim-Effect v req db) [
      | inl (same, _) ↦ rw same h
      | inr (_, _, _, inl (_, _, added), _) ↦ rw added (elsewhere_quiet v req db.intents e h)
      | inr (_, _, _, inr (_, _, voided), _) ↦ rw voided (rejected_quiet v req db.intents h)
    ]
  ]

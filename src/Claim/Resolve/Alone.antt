-- ===== src/Claim/Resolve/Alone.antt =====
-- What a granted write has been checked against: the live intents on its resource.
use Prim.Native.String.{String}
use mathlib.Core.Option
use mathlib.Core.Path.{subst}
use idemio.Prelude.{
  ◌∙◌, ap, sym, refl, Bool, true, false, not, ◌&&◌, ◌||◌, List, [], ◌∷◌, map, ◌≡◌, arith, ◌==◌, ok,
  none, some, Option, >>=-eq-ok, if-cases, inl, inr, any, select_where, fun_ext,
}
use idemio.Prelude.Rows.{any-select, any_of_select, any_of_find, any-map, any_never}
use idemio.Claim.{Verdict, Request, Result, Intent, is_terminal}
use idemio.Claim.Resolve.{
  judge, enforce_on, serialize_or_proceed, first_pending, is_own, has_id, is_in_flight,
  resolve_conflicts,
}
use idemio.Claim.Resolve.Effects.{reject_effect}
use idemio.Claim.Statements.{in_window, insert_latest, by_latest, to_intent, conflicting_intents}
use idemio.Conflict.{compatible}
use idemio.Tables.{KeyRow, IntentRow, Db, Server}

any-insert_latest :
    (p : IntentRow → Bool) (i : IntentRow) (xs : List IntentRow)
    → any p (insert_latest i xs) ≡ (p i || any p xs)
unfolding any insert_latest
any-insert_latest p i [] = refl
any-insert_latest p i (j ∷ xs) = ground (arith, any-insert_latest p i xs)

any-by_latest : (p : IntentRow → Bool) (xs : List IntentRow) → any p (by_latest xs) ≡ any p xs
unfolding any by_latest
any-by_latest p [] = refl
any-by_latest p (i ∷ xs) =
    any-insert_latest p i (by_latest xs) ∙ ap (λ b. p i || b) (any-by_latest p xs)

has_id-any :
    (key : String) (cs : List Intent) → has_id key cs ≡ any (λ (c : Intent). key == c.key) cs
unfolding has_id any
has_id-any key [] = refl
has_id-any key (c ∷ cs) = ap (λ b. key == c.key || b) (has_id-any key cs)

and_assoc : (a b c : Bool) → ((a && b) && c) ≡ (a && (b && c))
and_assoc true b c = refl
and_assoc false b c = refl

no_row : (o : Option KeyRow) → Option.map (λ (r : KeyRow). r.idempotency_key) o ≡ none → o ≡ none
no_row none h = refl
no_row (some r) h = cc

module _ (v : Server) (req : Request) where
  -- a live intent in the window that conflicts with the request
  unfoldable pub conflicts_with : IntentRow → Bool
  conflicts_with i = in_window v req (v.uuid 0) i && not (compatible req.declared i.declared)

  -- one of another agent
  unfoldable pub is_rival : IntentRow → Bool
  unfolding conflicts_with
  is_rival i = conflicts_with i && not (i.agent_id == req.agent_id)

  -- a key of the same agent whose conflicting write may still be under way
  unfoldable pub is_under_way : List IntentRow → KeyRow → Bool
  unfolding conflicts_with
  is_under_way intents k =
      (k.agent_id == req.agent_id
        && any
            (λ i.
              conflicts_with i
              && (i.agent_id == req.agent_id && k.idempotency_key == i.idempotency_key))
            intents)
      && not (is_terminal k.status)

  -- the intents that resolveConflicts reads are those that conflict, and their own copies
  read_candidates :
      (db : Db) (y : List Intent × Db)
      → conflicting_intents v req (v.uuid 0) db ≡ ok y
      → (p : Intent → Bool) → any p y.0 ≡ any (λ i. conflicts_with i && p (to_intent i)) db.intents
  unfolding conflicting_intents conflicts_with
  read_candidates db y h p =
      let seen = by_latest (select_where (in_window v req (v.uuid 0)) db.intents) in
      let conflicts = λ (c : Intent). not (compatible req.declared c.declared) in
      let read : select_where conflicts (map to_intent seen) ≡ y.0 = ground arith in
      ap (any p) (sym read)
      ∙ any-select p conflicts (map to_intent seen)
      ∙ any-map (λ c. conflicts c && p c) to_intent seen
      ∙ any-by_latest (λ i. conflicts (to_intent i) && p (to_intent i))
          (select_where (in_window v req (v.uuid 0)) db.intents)
      ∙ any-select (λ i. conflicts (to_intent i) && p (to_intent i)) (in_window v req (v.uuid 0))
          db.intents
      ∙ ap (λ q. any q db.intents)
          (fun_ext λ i.
            sym (
              and_assoc (in_window v req (v.uuid 0) i) (conflicts (to_intent i)) (p (to_intent i))))

  -- the candidates of a grant are the agent's own, and none of their keys is pending
  abbrev Clear : List Intent → Db → Type 0
  Clear cs db =
      (select_where (λ d. not (is_own req d)) cs ≡ [])
      × (any (is_in_flight req.agent_id (select_where (is_own req) cs)) db.keys ≡ false)

  serialize_or_proceed-Clear :
      (row : IntentRow) (same : List Intent) (o : Option String) (db : Db) (x : Result × Db)
      → serialize_or_proceed v req row same o db ≡ ok x
      → x.0.verdict ≡ Verdict.claimed
      → o ≡ none
  unfolding serialize_or_proceed
  serialize_or_proceed-Clear row same none db x h granted = refl
  serialize_or_proceed-Clear row same (some key) db x h granted = ground arith

  enforce_on-Clear :
      (row : IntentRow) (all same others : List Intent) (db : Db) (x : Result × Db)
      → enforce_on v req row all same others db ≡ ok x
      → x.0.verdict ≡ Verdict.claimed
      → (others ≡ []) × (any (is_in_flight req.agent_id same) db.keys ≡ false)
  unfolding enforce_on first_pending
  enforce_on-Clear row all same (p ∷ others) db x h granted =
      let rejected = (reject_effect v req row p all db x h).3 in cc
  enforce_on-Clear row all same [] db x h granted =
      let (y, e, f) = >>=-eq-ok (first_pending v req.agent_id same db) _ h in
      let idle = serialize_or_proceed-Clear row same y.0 y.1 x f granted in
      (refl, any_of_find (is_in_flight req.agent_id same) db.keys (no_row _ (ground arith)))

  judge-Clear :
      (row : IntentRow) (cs : List Intent) (db : Db) (x : Result × Db)
      → req.enforce ≡ true
      → judge v req row cs db ≡ ok x
      → x.0.verdict ≡ Verdict.claimed
      → Clear cs db
  unfolding judge select_where is_in_flight has_id
  judge-Clear row [] db x on h granted =
      (refl, any_never (is_in_flight req.agent_id []) (λ k. ground arith) db.keys)
  judge-Clear row (c ∷ cs) db x on h granted = elim (if-cases (not req.enforce) _ _ h) [
    | inl (off, _) ↦ cc
    | inr (_, e) ↦
        enforce_on-Clear row (c ∷ cs) (select_where (is_own req) (c ∷ cs))
          (select_where (λ d. not (is_own req d)) (c ∷ cs)) db x e granted
  ]

  in_flight-eq :
      (db : Db) (y : List Intent × Db)
      → conflicting_intents v req (v.uuid 0) db ≡ ok y
      → (k : KeyRow)
      → is_in_flight req.agent_id (select_where (is_own req) y.0) k ≡ is_under_way db.intents k
  unfolding is_in_flight is_under_way
  in_flight-eq db y read k =
      ap (λ b. (k.agent_id == req.agent_id && b) && not (is_terminal k.status))
        (has_id-any k.idempotency_key (select_where (is_own req) y.0)
          ∙ any-select (λ (c : Intent). k.idempotency_key == c.key) (is_own req) y.0
          ∙ read_candidates db y read (λ c. is_own req c && k.idempotency_key == c.key))

  -- The live intents that conflict with a write granted under enforcement are the agent's own, and
  -- none of their keys is pending.
  pub resolve-alone :
      (row : IntentRow) (db : Db) (x : Result × Db)
      → row.intent_id ≡ v.uuid 0
      → req.enforce ≡ true
      → resolve_conflicts v req row db ≡ ok x
      → x.0.verdict ≡ Verdict.claimed
      → (any is_rival db.intents ≡ false) × (any (is_under_way db.intents) db.keys ≡ false)
  unfolding resolve_conflicts is_rival
  resolve-alone row db x own on h granted =
      let (y, e, f) = >>=-eq-ok (conflicting_intents v req row.intent_id db) _ h in
      let read = subst (λ id. conflicting_intents v req id db ≡ ok y) own e in
      let same : y.1 ≡ db = unfold conflicting_intents in ground arith in
      let (others, idle) = judge-Clear row y.0 y.1 x on f granted in
      (
        sym (read_candidates db y read (λ c. not (is_own req c)))
            ∙ any_of_select (λ c. not (is_own req c)) y.0 others,
        ap (λ p. any p db.keys) (sym (fun_ext (in_flight-eq db y read)))
            ∙ subst
                (λ (z : Db).
                  any (is_in_flight req.agent_id (select_where (is_own req) y.0)) z.keys ≡ false)
                same idle,
      )

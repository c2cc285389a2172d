-- ===== src/Fake/Oracle.antt =====
-- The ledger says of each execution what its reply promised.
use idemio.Prelude.{
  suc, String, Bool, true, false, some, List, [], ◌∷◌, ◌++◌, ◌≡◌, refl, ap, sym, ◌∙◌, arith, ◌==◌,
  eq_iff, length, length-append, pos, select_where, Bool-cases, ◌⊎◌, inl, inr, Except, ok, err,
}
use idemio.Downstream.{Reply}
use idemio.Downstream.Taxonomy.{Promised}
use idemio.Manifest.{ErrorClassification, is_definitive, is_not_executed}
use idemio.World.{count_run}
use idemio.Fake.{
  Execution, Ledger, Host, LedgerFault, append_record, record_execution, by_correlation,
  ExecuteRequest, FakeState, answer_recorded, execution_of, act, handle_execute, pop,
  behavior_business_failure, behavior_hang, behavior_refuse, encode_failed, write_failed,
  sync_failed,
}

-- A classification under which the statuses of the fake mean what it does: it declares neither a
-- refusal nor an error definitive, and neither answer to an execution not executed. The manifest of
-- subscriptions does; that of invoices declares 429, the refusal, definitive.
pub record Suits (c : ErrorClassification) : Type 0 where
  pub refused : is_definitive c (pos 429) ≡ false
  pub broken : is_definitive c (pos 500) ≡ false
  pub applied : is_not_executed c (pos 200) ≡ false
  pub rejected : is_not_executed c (pos 422) ≡ false

-- The index by correlation holds the records of each correlation.
abbrev pub IsIndexed : Ledger → Type 0
IsIndexed l = (id : String) → l.by_id id ≡ select_where (λ e. e.correlation_id == id) l.records

-- What an execution does to the ledger: nothing, or it adds one record of its correlation.
abbrev Added : String → Ledger → Ledger × Except LedgerFault Execution → Type 0
Added correlation l result =
    ((f : LedgerFault) × (result ≡ (l, err f)))
    ⊎ ((e : Execution) × (e.correlation_id ≡ correlation) × (result ≡ (append_record e l, ok e)))

record_execution-Added :
    (h : Host) (e : Execution) (l : Ledger) → Added e.correlation_id l (record_execution h e l)
unfolding record_execution
record_execution-Added h e l =
    let numbered = record e { sequence = suc (length l.records) } in
    elim (Bool-cases h.encode_fails) [
      | inl a ↦ inl (encode_failed, rw a refl)
      | inr a ↦ elim (Bool-cases h.write_fails) [
        | inl b ↦ inl (write_failed, rw (a, b) refl)
        | inr b ↦ elim (Bool-cases h.durable) [
          | inr d ↦ inr (numbered, refl, rw (a, b, d) refl)
          | inl d ↦ elim (Bool-cases h.sync_fails) [
            | inl g ↦ inl (sync_failed, rw (a, b, d, g) refl)
            | inr g ↦ inr (numbered, refl, rw (a, b, d, g) refl)
          ]
        ]
      ]
    ]

select_append {ℓ} :
    {A : Type ℓ} (p : A → Bool) (xs ys : List A)
    → select_where p (xs ++ ys) ≡ select_where p xs ++ select_where p ys
unfolding select_where
select_append p [] ys = refl
select_append p (x ∷ xs) ys = ground (arith, select_append p xs ys)

append_nil {ℓ} : {A : Type ℓ} (xs : List A) → xs ++ [] ≡ xs
append_nil [] = refl
append_nil (x ∷ xs) = ap (λ ys. x ∷ ys) (append_nil xs)

eq_comm : (a b : String) → (a == b) ≡ (b == a)
eq_comm a b = elim (Bool-cases (a == b)) [
  | inl e ↦ e ∙ sym ((eq_iff b a).1 (sym ((eq_iff a b).0 e)))
  | inr e ↦ elim (Bool-cases (b == a)) [
    | inl f ↦ (eq_iff a b).1 (sym ((eq_iff b a).0 f)) ∙ sym f
    | inr f ↦ e ∙ sym f
  ]
]

append_record-IsIndexed : (e : Execution) (l : Ledger) → IsIndexed l → IsIndexed (append_record e l)
unfolding append_record select_where
append_record-IsIndexed e l indexed = λ id.
    let selected = select_append (λ (x : Execution). x.correlation_id == id) l.records (e ∷ []) in
    elim (Bool-cases (e.correlation_id == id)) [
      | inl h ↦ rw (eq_comm id e.correlation_id, h, selected, h, indexed id) refl
      | inr h ↦ rw (eq_comm id e.correlation_id, h, selected, h, indexed id) (sym (append_nil _))
    ]

count_added :
    (e : Execution) (l : Ledger) (id : String)
    → e.correlation_id ≡ id
    → (id == "") ≡ false
    → length (by_correlation (append_record e l) id) ≡ suc (length (by_correlation l id))
unfolding append_record by_correlation
count_added e l id same given =
    let hit : (id == e.correlation_id) ≡ true = (eq_iff id e.correlation_id).1 (sym same) in
    rw (given, hit) (length-append (l.by_id id) (e ∷ []) ∙ omega arith)

-- What a request leaves: a reply that keeps its promise, the count of the probe, and the index.
abbrev pub Honest : ErrorClassification → String → Ledger → FakeState × Reply → Type 0
Honest c correlation l result =
    (ran : Bool) × Promised c result.1 ran
    × (length (by_correlation result.0.ledger correlation)
        ≡ count_run ran (length (by_correlation l correlation)))
    × IsIndexed result.0.ledger

module _ (c : ErrorClassification) (suits : Suits c) (h : Host) where
  recorded-Promised :
      (behavior : String) (e : Execution) → Promised c (answer_recorded h behavior e) true
  unfolding answer_recorded
  recorded-Promised behavior e = elim (Bool-cases (behavior == behavior_business_failure)) [
    | inl a ↦ rw a ((λ d. refl), λ d n. cc (n, suits.rejected))
    | inr a ↦ elim (Bool-cases (behavior == behavior_hang)) [
      | inl b ↦ rw (a, b) tt
      | inr b ↦ rw (a, b) ((λ d. refl), λ d n. cc (n, suits.applied))
    ]
  ]

  act-Honest :
      (correlation : String) (req : ExecuteRequest) (behavior : String) (s : FakeState)
      → (correlation == "") ≡ false
      → IsIndexed s.ledger
      → Honest c correlation s.ledger (act h correlation req behavior s)
  unfolding act
  act-Honest correlation req behavior s given indexed =
      elim (Bool-cases (behavior == behavior_refuse)) [
        | inl r ↦ (false, rw r ((λ d. cc (d, suits.refused)), λ d n. refl), rw r refl, rw r indexed)
        | inr r ↦
            elim (record_execution-Added h (execution_of h correlation req behavior) s.ledger) [
              | inl (f, e) ↦ (
                false,
                rw (r, e) ((λ d. cc (d, suits.broken)), λ d n. refl),
                rw (r, e) refl,
                rw (r, e) indexed,
              )
              | inr (x, same, e) ↦ (
                true,
                rw (r, e) (recorded-Promised behavior x),
                rw (r, e) (count_added x s.ledger correlation same given),
                rw (r, e) (append_record-IsIndexed x s.ledger indexed),
              )
            ]
      ]

  -- Under a classification that declares neither 429 nor 500 definitive, and neither 200 nor 422 not
  -- executed, a request that the fake can read and that has a correlation is answered as the
  -- classification promises, and the count that the probe then gives for its correlation is one more
  -- exactly if it was executed; the index of the ledger stays right, if it was.
  pub handle_execute-Honest :
      (correlation : String) (req : ExecuteRequest) (s : FakeState)
      → (correlation == "") ≡ false
      → IsIndexed s.ledger
      → Honest c correlation s.ledger (handle_execute h correlation (some req) s)
  unfolding handle_execute
  handle_execute-Honest correlation req s given indexed =
      act-Honest correlation req (pop req.resource_id s.scripts).0
        (record s { scripts = (pop req.resource_id s.scripts).1 }) given indexed

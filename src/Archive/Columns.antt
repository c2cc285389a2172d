-- ===== src/Archive/Columns.antt =====
-- Which columns an archive brings back, and under which conditions.
use idemio.Prelude.{
  ℕ, String, false, Option, none, some, List, [], ◌≡◌, refl, sym, ap, ◌∙◌, arith, ℤ, pos, negsuc,
  ◌⊎◌, inl, inr,
}
use idemio.Archive.{
  IntentColumns, ConflictColumns, AuditColumns, IntentRecord, AuditRecord, Casts, map_list, micros,
  from_micros, list_or_empty, to_intent_record, to_conflict_record, to_audit_record, intent_values,
  conflict_values, audit_values,
}
use idemio.Prelude.Rows.{All}
use idemio.Archive.RoundTrip.{Reads}
use idemio.Archive.Storage.{Rows, intents, conflicts, audits, ArchiveServer}

-- A reader may give back an empty list as a nil slice.
abbrev pub tidy_intent : (Option (List String) → Option (List String)) → IntentRecord → IntentRecord
tidy_intent slice r = record r { scope_selector = slice r.scope_selector }

abbrev pub tidy_audit : (Option (List String) → Option (List String)) → AuditRecord → AuditRecord
tidy_audit slice r = record r { intent_ids = slice r.intent_ids }

-- The server that restores reads what the one that archived wrote, and fails nothing.
pub record CanRestore (v w : ArchiveServer) : Type 0 where
  pub slice : Option (List String) → Option (List String)
  pub keeps_lists :
      (l : List String) → (slice (some l) ≡ some l) ⊎ ((l ≡ []) × (slice (some l) ≡ none))
  pub reads_intents : Reads (tidy_intent slice) v.intent_codec w.intent_codec
  pub reads_conflicts : Reads (λ r. r) v.conflict_codec w.conflict_codec
  pub reads_audits : Reads (tidy_audit slice) v.audit_codec w.audit_codec
  pub fetches : w.get_fails ≡ false
  pub creates : w.create_fails ≡ false
  pub inserts : (n : ℕ) → w.insert_fails n ≡ false

-- The columns of type uuid and jsonb hold texts that a cast leaves alone.
abbrev pub IsCanonicalIntent : Casts → IntentColumns → Type 0
IsCanonicalIntent k c =
    (k.uuid c.intent_id ≡ c.intent_id)
    × (k.uuid c.idempotency_key ≡ c.idempotency_key)
    × (k.jsonb c.payload ≡ c.payload)

abbrev pub IsCanonicalConflict : Casts → ConflictColumns → Type 0
IsCanonicalConflict k c =
    (k.uuid c.conflict_id ≡ c.conflict_id)
    × (k.uuid c.intent_id_a ≡ c.intent_id_a)
    × (k.uuid c.intent_id_b ≡ c.intent_id_b)

abbrev pub IsCanonicalList : Casts → Option (List String) → Type 0
IsCanonicalList k none = k.uuids [] ≡ []
IsCanonicalList k (some l) = k.uuids l ≡ l

abbrev pub IsCanonicalAudit : Casts → AuditColumns → Type 0
IsCanonicalAudit k c =
    (k.uuid c.audit_id ≡ c.audit_id)
    × (k.jsonb c.query_params ≡ c.query_params)
    × IsCanonicalList k c.intent_ids

abbrev pub IsCanonical : Casts → Option Rows → Type 0
IsCanonical k (some (intents cols)) = All (IsCanonicalIntent k) cols
IsCanonical k (some (conflicts cols)) = All (IsCanonicalConflict k) cols
IsCanonical k (some (audits cols)) = All (IsCanonicalAudit k) cols
IsCanonical k _ = Unit

micros-from_micros : (t : ℤ) → micros (from_micros t) ≡ t
micros-from_micros (pos n) = ground arith
micros-from_micros (negsuc n) = refl

module _ (v w : ArchiveServer) (can : CanRestore v w) where
  kept :
      (l : List String)
      → (can.slice (some l) ≡ some l) ⊎ ((l ≡ []) × (can.slice (some l) ≡ none))
      → list_or_empty (can.slice (some l)) ≡ some l
  kept l (inl e) = ap list_or_empty e
  kept l (inr (nil, e)) = ap list_or_empty e ∙ ap some (sym nil)

  kept_uuids :
      (l : List String)
      → (can.slice (some l) ≡ some l) ⊎ ((l ≡ []) × (can.slice (some l) ≡ none))
      → w.casts.uuids l ≡ l
      → list_or_empty (map_list w.casts.uuids (can.slice (some l))) ≡ some l
  kept_uuids l (inl e) canonical =
      ap (λ o. list_or_empty (map_list w.casts.uuids o)) e ∙ ap some canonical
  kept_uuids l (inr (nil, e)) canonical =
      ap (λ o. list_or_empty (map_list w.casts.uuids o)) e ∙ ap some (sym nil)

  same_list :
      (o : Option (List String)) → list_or_empty (can.slice (list_or_empty o)) ≡ list_or_empty o
  same_list none = kept [] (can.keeps_lists [])
  same_list (some l) = kept l (can.keeps_lists l)

  same_uuids :
      (o : Option (List String))
      → IsCanonicalList w.casts o
      → list_or_empty (map_list w.casts.uuids (can.slice (list_or_empty o))) ≡ list_or_empty o
  same_uuids none canonical = kept_uuids [] (can.keeps_lists []) canonical
  same_uuids (some l) canonical = kept_uuids l (can.keeps_lists l) canonical

  pub same_intent :
      (c : IntentColumns)
      → IsCanonicalIntent w.casts c
      → to_intent_record (intent_values w.casts (tidy_intent can.slice (to_intent_record c)))
        ≡ to_intent_record c
  unfolding to_intent_record intent_values
  same_intent c (id, key, payload) =
      rw
        (
          id,
          key,
          payload,
          same_list c.scope_selector,
          micros-from_micros (micros c.published_at),
          micros-from_micros (micros c.voided_at),
        )
        refl

  pub same_conflict :
      (c : ConflictColumns)
      → IsCanonicalConflict w.casts c
      → to_conflict_record (conflict_values w.casts (to_conflict_record c)) ≡ to_conflict_record c
  unfolding to_conflict_record conflict_values
  same_conflict c (id, a, b) = rw (id, a, b) refl

  pub same_audit :
      (c : AuditColumns)
      → IsCanonicalAudit w.casts c
      → to_audit_record (audit_values w.casts (tidy_audit can.slice (to_audit_record c)))
        ≡ to_audit_record c
  unfolding to_audit_record audit_values
  same_audit c (id, params, ids) = rw (id, params, same_uuids c.intent_ids ids) refl

-- ===== src/Api/Reads/Audit/Disclosure.antt =====
-- What the read of intents discloses, and what its audit says of it.
use mathlib.Core.Path.{subst}
use idemio.Prelude.{
  or_fail, or_fail-ok, ℕ, String, Bool, true, false, not, Option, none, some, List, [], ◌∷◌, ◌++◌,
  map, ◌≡◌, ◌≢◌, refl, ap, sym, ◌∙◌, arith, Except, ok, err, >>=-eq-ok, ◌⊎◌, inl, inr, eq_iff,
  length, if-cases, ◌==◌, ◌||◌,
}
use idemio.Tables.{IntentRow, CommitReply}
use idemio.Api.Identity.{Identity, read_identity, trim_space}
use idemio.Api.Reads.{select_page, Formats, Window, Page, read_window, page_of}
use idemio.Api.Reads.Sorted.{All}
use idemio.Api.Reads.Audit.{
  ReadRequest, ReadServer, ReadProblem, IntentView, AuditRow, role_operator, role_investigator,
  ensure, in_range, is_some, view_intent, is_intent_of, intent_key, shown_key, missing_identity,
  role_insufficient, payload_role_insufficient, reason_required, read_failed, panicked,
  reader_identity, payload_request, record_payload_access, audit_row, audit_page, read_intents,
  commit_reply, commit_read, handle_intents,
}
use idemio.Api.Reads.Parts.{map-All, paginate-All}

commit_reply-ok :
    (c : CommitReply) (audit after a : List AuditRow) (page p : Page IntentView)
    → commit_reply c audit a p ≡ (after, ok page)
    → (p ≡ page) × (a ≡ after)
commit_reply-ok CommitReply.applied audit after a page p h = (cc h, cc h)
commit_reply-ok CommitReply.refused audit after a page p h = absurd (cc h)
commit_reply-ok CommitReply.lost audit after a page p h = absurd (cc h)

commit_read-ok :
    (v : ReadServer) (audit after : List AuditRow) (page : Page IntentView)
    (result : Except ReadProblem (Page IntentView × List AuditRow))
    → commit_read v audit result ≡ (after, ok page)
    → result ≡ ok (page, after)
unfolding commit_read
commit_read-ok v audit after page (err p) h = absurd (cc h)
commit_read-ok v audit after page (ok (p, a)) h =
    let (e, e') = commit_reply-ok v.commit audit after a page p h in cc (e, e')

ensure_passes : (b : Bool) (p : ReadProblem) {u : Unit {0}} → ensure b p ≡ ok u → b ≡ true
ensure_passes true p h = refl
ensure_passes false p h = cc

payload_request-reason :
    (r : ReadRequest) (caller : Identity) {reason : String}
    → payload_request r caller ≡ ok (some reason)
    → (caller.role ≡ role_investigator) × (reason ≡ trim_space r.reason_header) × (reason ≢ "")
unfolding payload_request
payload_request-reason r caller {reason} h =
    elim (if-cases (not (r.query.include == "payload")) _ _ h) [
      | inl (e, k) ↦ absurd (cc k)
      | inr (e, k) ↦
          let (_, role, k₁) =
            >>=-eq-ok (ensure (caller.role == role_investigator) payload_role_insufficient) _ k in
          let (_, given, k₂) =
            >>=-eq-ok (ensure (not (trim_space r.reason_header == "")) reason_required) _ k₁ in
          let same : trim_space r.reason_header ≡ reason = cc k₂ in
          (
            (eq_iff caller.role role_investigator).0
                (ensure_passes (caller.role == role_investigator) payload_role_insufficient role),
            sym same,
            λ empty. ground (
              arith,
              (eq_iff (trim_space r.reason_header) "").1 (same ∙ empty),
              ensure_passes (not (trim_space r.reason_header == "")) reason_required given,
            ),
          )
    ]

-- What an intent shows without its payload.
abbrev pub IsRedacted : IntentView → Type 0
IsRedacted i = (i.payload ≡ none) × (i.redacted ≡ true)

-- The row of the audit says who read which intents, in which role and why.
abbrev pub Names : ReadRequest → Page IntentView → AuditRow → Type 0
Names r page entry =
    (read_identity r.agent_header r.role_header
      ≡ some (record { agent_id = entry.principal; role = role_investigator }))
    × (entry.caller_role ≡ role_investigator)
    × (entry.intent_ids ≡ map (λ i. i.intent_id) page.rows)
    × (entry.record_count ≡ length page.rows)
    × (entry.stated_reason ≡ trim_space r.reason_header)
    × (entry.stated_reason ≢ "")

record_payload_access-ok :
    (v : ReadServer) (entry : AuditRow) (audit : List AuditRow) {after : List AuditRow}
    → record_payload_access v entry audit ≡ ok after
    → after ≡ audit ++ (entry ∷ [])
unfolding record_payload_access
record_payload_access-ok v entry audit h = elim (if-cases v.audit_fails _ _ h) [
  | inl (e, k) ↦ absurd (cc k)
  | inr (e, k) ↦ cc k
]

-- What a read may do: return no payload, or add the row that names what it returns.
abbrev pub Discloses : ReadRequest → List AuditRow → List AuditRow → Page IntentView → Type 0
Discloses r audit after page =
    (All IsRedacted page.rows × (after ≡ audit))
    ⊎ ((entry : AuditRow) × (after ≡ audit ++ (entry ∷ [])) × Names r page entry)

audit_page-Discloses :
    (v : ReadServer) (r : ReadRequest) (caller : Identity) (reason : Option String)
    (page : Page IntentView) (audit after : List AuditRow)
    → read_identity r.agent_header r.role_header ≡ some caller
    → payload_request r caller ≡ ok reason
    → (reason ≡ none → All IsRedacted page.rows)
    → audit_page v r caller reason page audit ≡ ok after
    → Discloses r audit after page
unfolding audit_page
audit_page-Discloses v r caller none page audit after who asked hidden h = inl (hidden refl, cc h)
audit_page-Discloses v r caller (some reason) page audit after who asked hidden h =
    let (role, because, given) = payload_request-reason r caller asked in
    let investigator : caller ≡ record { agent_id = caller.agent_id; role = role_investigator } =
      ap (λ role. record { agent_id = caller.agent_id; role = role }) role in
    inr (
      audit_row r caller reason page,
      record_payload_access-ok v (audit_row r caller reason page) audit h,
      (who ∙ ap some investigator, role, refl, refl, because, given),
    )

reader_identity-eq-ok :
    (r : ReadRequest) {caller : Identity}
    → reader_identity r ≡ ok caller
    → read_identity r.agent_header r.role_header ≡ some caller
unfolding reader_identity
reader_identity-eq-ok r {caller} h =
    let (c, found, k) =
      >>=-eq-ok (or_fail (read_identity r.agent_header r.role_header) missing_identity) _ h in
    let (_, allowed, made) =
      >>=-eq-ok (ensure (c.role == role_operator || c.role == role_investigator) role_insufficient)
        _ k in
    let same : c ≡ caller = cc made in
    or_fail-ok (read_identity r.agent_header r.role_header) missing_identity found ∙ ap some same

page_of-IsRedacted :
    {page : Page IntentView} (f : Formats) (r : ReadRequest) (w : Window) (rows : List IntentRow)
    (reason : Option String)
    → page_of f intent_key (is_intent_of r w) (view_intent (is_some reason)) shown_key w rows
      ≡ some page
    → reason ≡ none
    → All IsRedacted page.rows
unfolding page_of view_intent
page_of-IsRedacted f r w rows (some reason) h e = absurd (cc e)
page_of-IsRedacted f r w rows none h e =
    paginate-All IsRedacted
      (map (view_intent false) (select_page intent_key (is_intent_of r w) w rows)) w.limit _ h
      (map-All IsRedacted (view_intent false) (select_page intent_key (is_intent_of r w) w rows)
        (λ i. (refl, refl)))

read_intents-Discloses :
    (f : Formats) (v : ReadServer) (r : ReadRequest) (caller : Identity) (w : Window)
    (reason : Option String) (rows : List IntentRow) (audit after : List AuditRow)
    (page : Page IntentView)
    → read_identity r.agent_header r.role_header ≡ some caller
    → payload_request r caller ≡ ok reason
    → read_intents f v r caller w reason rows audit ≡ ok (page, after)
    → Discloses r audit after page
unfolding read_intents
read_intents-Discloses f v r caller w reason rows audit after page who asked h =
    let (_, begun, k₁) = >>=-eq-ok (ensure (not v.begin_fails) read_failed) _ h in
    let (_, queried, k₂) = >>=-eq-ok (ensure (not v.query_fails) read_failed) _ k₁ in
    let (p, paged, k₃) =
      >>=-eq-ok
        (or_fail
          (page_of f intent_key (is_intent_of r w) (view_intent (is_some reason)) shown_key w rows)
          panicked)
        _ k₂ in
    let (a, audited, made) = >>=-eq-ok (audit_page v r caller reason p audit) _ k₃ in
    let same_page : p ≡ page = cc made in
    let same_audit : a ≡ after = cc made in
    subst (λ z. Discloses r audit z page) same_audit
      (subst (λ z. Discloses r audit a z) same_page
        (audit_page-Discloses v r caller reason p audit a who asked
          (page_of-IsRedacted f r w rows reason (
            or_fail-ok
              (page_of f intent_key (is_intent_of r w) (view_intent (is_some reason)) shown_key w
                rows)
              panicked paged))
          audited))

-- An answer of the read of intents carries no payload and leaves the audit as it was, or the caller
-- is an investigator who gave a reason, and the audit ends with a row that names the caller, the
-- reason, and every intent of the answer.
pub handle_intents-Discloses :
    (f : Formats) (v : ReadServer) (max_span : ℕ) (r : ReadRequest) (rows : List IntentRow)
    (audit after : List AuditRow) (page : Page IntentView)
    → handle_intents f v max_span r rows audit ≡ (after, ok page)
    → Discloses r audit after page
unfolding handle_intents
handle_intents-Discloses f v max_span r rows audit after page h =
    let done = commit_read-ok v audit after page _ h in
    let (caller, known, k₁) = >>=-eq-ok (reader_identity r) _ done in
    let (w, bounded, k₂) = >>=-eq-ok (in_range (read_window f max_span v.now r.query)) _ k₁ in
    let (reason, asked, k₃) = >>=-eq-ok (payload_request r caller) _ k₂ in
    read_intents-Discloses f v r caller w reason rows audit after page
      (reader_identity-eq-ok r known) asked k₃

-- ===== src/Tests/Reads.antt =====
-- The read endpoints on two intents, a page at a time.
use idemio.Prelude.{
  ℕ, zero, suc, String, true, false, none, some, List, [], ◌∷◌, ◌≡◌, refl, ap, arith, ok, pos, any,
  select_where, eq_iff,
}
use idemio.Tables.{IntentRow, CommitReply}
use idemio.Api.Identity.{trim_left, trim_right, trim_space, read_identity, is_uuid, to_lower}
use idemio.Api.Reads.{
  paginate, select_page, last, lex_less, read_until, read_limit, read_cursor, latest_first,
  insert_latest, key_less, Window, Formats, Query, Page, encode_cursor, read_window, page_of,
}
use idemio.Api.Reads.Cursors.{Laws, has_bar}
use idemio.Api.Reads.Paging.{follow, pages_cover}
use idemio.Api.Reads.Audit.{
  ReadRequest, ReadServer, IntentView, AuditRow, commit_read, reader_identity, payload_request,
  read_intents, audit_page, record_payload_access, view_intent, intent_key, shown_key, is_intent_of,
  handle_intents,
}
use idemio.Api.Reads.Audit.Disclosure.{Discloses, handle_intents-Discloses}
use idemio.Tests.Data.{replace_order}

-- times as tallies
unfoldable pub tally : ℕ → String
tally zero = String.[]
tally (suc n) = String.◌∷◌ "1" (tally n)

unfoldable pub count : String → ℕ
count String.[] = zero
count (String.◌∷◌ c s) = suc (count s)

pub count-tally : (n : ℕ) → count (tally n) ≡ n
unfolding count tally
count-tally zero = refl
count-tally (suc n) = ap suc (count-tally n)

tally_no_bar : (n : ℕ) → has_bar (tally n) ≡ false
unfolding tally any
tally_no_bar zero = refl
tally_no_bar (suc n) = tally_no_bar n

abbrev formats : Formats
formats = record {
  format_time = tally;
  parse_nano = λ s. some (count s);
  parse_time = λ s. some (count s);
  encode = λ s. s;
  decode = λ s. some s;
  atoi = λ s. some (pos 1);
}

formats-Laws : Laws formats
formats-Laws = record {
  decode-encode = λ s. refl;
  parse-format = λ t. ap some (count-tally t);
  format_no_bar = tally_no_bar;
}

abbrev uuid_1 : String
uuid_1 = "00000000-0000-0000-0000-000000000001"

abbrev uuid_2 : String
uuid_2 = "00000000-0000-0000-0000-000000000002"

abbrev intent : String → ℕ → IntentRow
intent id at = record {
  intent_id = id;
  agent_id = "a";
  idempotency_key = "k";
  resource_type = "order";
  resource_id = "1";
  operation = "set_price";
  declared = replace_order;
  payload = "{}";
  emitted_at = at;
  published_at = none;
  voided_at = none;
}

abbrev pub intents : List IntentRow
intents = intent uuid_1 1 ∷ intent uuid_2 2 ∷ []

abbrev query : Query
query = record {
  since = "1";
  until = "111";
  limit = "1";
  cursor = "";
  include = "payload";
  agent_id = "";
  resource_type = "";
  resolution = "";
}

abbrev read_request : ReadRequest
read_request = record {
  agent_header = "eve";
  role_header = "investigator";
  reason_header = "incident 7";
  path = "/v1/resources/order/1/intents";
  resource_type = "order";
  resource_id = "1";
  query = query;
}

abbrev reader : ReadServer
reader = record {
  now = 9;
  begin_fails = false;
  query_fails = false;
  audit_fails = false;
  commit = CommitReply.applied;
}

abbrev window : Window
window = record { since = 1; until = 3; limit = 1; cursor = none }

opened : read_window formats 5 9 query ≡ ok window
unfolding read_window read_until count read_limit read_cursor
opened = refl

apart : (uuid_2 ≡ uuid_1) → ⊥
apart e = let differ : false ≡ true = (eq_iff uuid_2 uuid_1).1 e in cc differ

pages_cover_example :
    follow formats intent_key
      (is_intent_of read_request window)
      (view_intent true)
      shown_key
      window
      intents
      3
      none
    ≡ some (view_intent true (intent uuid_2 2) ∷ view_intent true (intent uuid_1 1) ∷ [])
unfolding view_intent latest_first select_where is_intent_of insert_latest key_less is_uuid to_lower
pages_cover_example =
    pages_cover formats intent_key (is_intent_of read_request window) (view_intent true) shown_key
      window intents 3 (omega arith) (λ r. refl) formats-Laws ((apart, tt), (tt, tt))
      ((refl, refl), ((refl, refl), tt)) (omega arith)

abbrev page : Page IntentView
page = record {
  rows = view_intent true (intent uuid_2 2) ∷ [];
  has_more = true;
  next = encode_cursor formats 2 uuid_2;
}

abbrev audit_entry : AuditRow
audit_entry = record {
  principal = "eve";
  caller_role = "investigator";
  endpoint = "/v1/resources/order/1/intents";
  query_params = query;
  record_count = 1;
  intent_ids = uuid_2 ∷ [];
  stated_reason = "incident 7";
}

read : handle_intents formats reader 5 read_request intents [] ≡ (audit_entry ∷ [], ok page)
unfolding handle_intents commit_read reader_identity read_identity read_window read_until count
    read_limit read_cursor payload_request read_intents page_of paginate select_page latest_first
    select_where is_intent_of insert_latest audit_page record_payload_access view_intent
    encode_cursor key_less last lex_less trim_left trim_right trim_space
read = refl

handle_intents-Discloses_example : Discloses read_request [] (audit_entry ∷ []) page
handle_intents-Discloses_example =
    handle_intents-Discloses formats reader 5 read_request intents [] (audit_entry ∷ []) page read

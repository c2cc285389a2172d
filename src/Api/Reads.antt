-- ===== src/Api/Reads.antt =====
-- internal/api/reads.go and audit.go: the read endpoints. The formats of times, numbers and base64
-- are those of Go's library and the parameter `Formats`; a time is a number.
pub mod Order
pub mod Sorted
pub mod Slices
pub mod Parts
pub mod Bounds
pub mod Paging
pub mod Cursors
pub mod Audit
use Prim.Native.String.{◌++◌ as ◌⧺◌}
use idemio.Prelude.{
  ℕ, suc, ◌+◌, ◌-◌, String, Bool, true, false, not, ◌&&◌, ◌||◌, Option, none, some, List, [], ◌∷◌,
  map, ◌==◌, ltb, leb, eqb, codes, length, take, ℤ, pos, leb_int, Except, or_fail, ok, err, ◌>>=◌,
  select_where, if◌then◌else◌,
}
use Prim.Native.Char.{Char, code}
use idemio.Api.Identity.{is_uuid, to_lower}
use idemio.Manifest.{Operation}
use idemio.Tables.{IntentRow}

abbrev pub default_limit : ℤ
default_limit = pos 100

abbrev pub max_limit : ℤ
max_limit = pos 1000

pub record Cursor : Type 0 where
  pub at : ℕ
  pub id : String

pub record Window : Type 0 where
  pub since : ℕ
  pub until : ℕ
  pub limit : ℕ
  pub cursor : Option Cursor

pub record Formats : Type 0 where
  pub format_time : ℕ → String
  pub parse_nano : String → Option ℕ
  pub parse_time : String → Option ℕ
  pub encode : String → String
  pub decode : String → Option String
  pub atoi : String → Option ℤ

unfoldable pub encode_cursor : Formats → ℕ → String → String
encode_cursor f at id = f.encode (f.format_time at ⧺ ("|" ⧺ id))

-- strings.Cut at the first code `sep`
unfoldable pub cut : ℕ → String → Option (String × String)
cut sep String.[] = none
cut sep (String.◌∷◌ c s) = if eqb (code c) sep then some (String.[], s) else (elim (cut sep s) [
  | some (before, after) ↦ some (String.◌∷◌ c before, after)
  | none ↦ none
])

pub data CursorProblem : Type 0 where
  not_base64 malformed no_timestamp no_identifier : CursorProblem

unfoldable pub decode_cursor : Formats → String → Except CursorProblem Cursor
decode_cursor f raw = do
  decoded ← or_fail (f.decode raw) not_base64
  (at, id) ← or_fail (cut b'|' decoded) malformed
  parsed ← or_fail (f.parse_nano at) no_timestamp
  if is_uuid (to_lower id) then ok (record { at = parsed; id = id }) else err no_identifier

-- the parameters of a read, empty when the query has none
pub record Query : Type 0 where
  pub since : String
  pub until : String
  pub limit : String
  pub cursor : String
  pub include : String
  pub agent_id : String
  pub resource_type : String
  pub resolution : String

pub data WindowProblem : Type 0 where
  since_required bad_since bad_until until_not_after span_too_wide bad_limit : WindowProblem
  bad_cursor : CursorProblem → WindowProblem

unfoldable pub read_until : Formats → ℕ → String → Except WindowProblem ℕ
read_until f now raw = if raw == "" then ok now else or_fail (f.parse_time raw) bad_until

abbrev pub to_limit : ℤ → Except WindowProblem ℕ
to_limit (pos n) = if leb 1 n && leb n 1000 then ok n else err bad_limit
to_limit _ = err bad_limit

unfoldable pub read_limit : Formats → String → Except WindowProblem ℕ
read_limit f raw =
    if raw == "" then ok 100 else (do limit ← or_fail (f.atoi raw) bad_limit; to_limit limit)

abbrev pub wrap_cursor : Except CursorProblem Cursor → Except WindowProblem (Option Cursor)
wrap_cursor (err e) = err (bad_cursor e)
wrap_cursor (ok c) = ok (some c)

unfoldable pub read_cursor : Formats → String → Except WindowProblem (Option Cursor)
read_cursor f raw = if raw == "" then ok none else wrap_cursor (decode_cursor f raw)

abbrev pub check : Bool → WindowProblem → Except WindowProblem (Unit {0})
check b p = if b then ok tt else err p

-- readWindow, with ReadMaxSpan and the time of the call
unfoldable pub read_window : Formats → ℕ → ℕ → Query → Except WindowProblem Window
read_window f max_span now q = do
  _ ← check (not (q.since == "")) since_required
  since ← or_fail (f.parse_time q.since) bad_since
  until ← read_until f now q.until
  _ ← check (ltb since until) until_not_after
  _ ← check (leb (until - since) max_span) span_too_wide
  limit ← read_limit f q.limit
  cursor ← read_cursor f q.cursor
  ok (record { since = since; until = until; limit = limit; cursor = cursor })

-- the order of the bytes of two texts
unfoldable pub lex_less : List ℕ → List ℕ → Bool
lex_less xs [] = false
lex_less [] (y ∷ ys) = true
lex_less (x ∷ xs) (y ∷ ys) = ltb x y || (eqb x y && lex_less xs ys)

-- `(emitted_at, intent_id) < (at, id)`
unfoldable pub key_less : Cursor → Cursor → Bool
key_less a b = ltb a.at b.at || (eqb a.at b.at && lex_less (codes a.id) (codes b.id))

-- the cast of a cursor's identifier to uuid, whose text is in lower case
abbrev pub cast_cursor : Option Cursor → Option Cursor
cast_cursor none = none
cast_cursor (some c) = some (record { at = c.at; id = to_lower c.id })

-- what a row is paged by: its time and its identifier
module _ {ℓ} {A : Type ℓ} (key : A → Cursor) where
  -- `$5 IS NULL OR key < ($5, $6)`
  abbrev pub is_below : Option Cursor → A → Bool
  is_below none r = true
  is_below (some c) r = key_less (key r) c

  unfoldable pub insert_latest : A → List A → List A
  insert_latest r [] = r ∷ []
  insert_latest r (x ∷ xs) =
      let rest = insert_latest r xs in if key_less (key x) (key r) then r ∷ x ∷ xs else x ∷ rest

  -- `ORDER BY at DESC, id DESC`
  unfoldable pub latest_first : List A → List A
  latest_first [] = []
  latest_first (r ∷ rows) = insert_latest r (latest_first rows)

  -- the two statements: a condition, the window's cursor, the order and `LIMIT limit + 1`
  unfoldable pub select_page : (A → Bool) → Window → List A → List A
  select_page matches w rows =
      take (suc w.limit)
        (latest_first (select_where (λ r. matches r && is_below (cast_cursor w.cursor) r) rows))

pub record Page {ℓ} (A : Type ℓ) : Type ℓ where
  pub rows : List A
  pub has_more : Bool
  pub next : String

unfoldable pub last {ℓ} : {A : Type ℓ} → List A → Option A
last [] = none
last (x ∷ []) = some x
last (x ∷ y ∷ xs) = last (y ∷ xs)

abbrev pub cut_page {ℓ} : {A : Type ℓ} → List A → (A → String) → Option A → Option (Page A)
cut_page page key none = none
cut_page page key (some r) = some (record { rows = page; has_more = true; next = key r })

-- paginate; `none` is the panic of an index out of range, on a limit of zero
unfoldable pub paginate {ℓ} : {A : Type ℓ} → List A → ℕ → (A → String) → Option (Page A)
paginate rows limit key =
    if leb (length rows) limit
    then some (record { rows = rows; has_more = false; next = "" })
    else cut_page (take limit rows) key (last (take limit rows))

-- A page as both handlers make it: the rows of the statement, each as the view that is sent,
-- which `shown` pages by.
unfoldable pub page_of {ℓ κ} :
    {A : Type ℓ} {B : Type κ}
    → Formats
    → (A → Cursor)
    → (A → Bool)
    → (A → B)
    → (B → Cursor)
    → Window
    → List A
    → Option (Page B)
page_of f key matches view shown w rows =
    paginate (map view (select_page key matches w rows)) w.limit
      (λ v. encode_cursor f (shown v).at (shown v).id)

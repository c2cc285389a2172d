-- ===== src/Api/Reads/Cursors.antt =====
-- A cursor that the server gave out is read back as it was.
use Prim.Native.String.{◌++◌ as ◌⧺◌}
use text.Mathlib.TextLemmas.{cons-append, nil-append}
use idemio.Prelude.{
  ℕ, String, Bool, true, false, some, ◌≡◌, refl, ap, ◌∙◌, arith, ok, eqb, codes, any,
}
use idemio.Api.Identity.{is_uuid, to_lower}
use idemio.Api.Reads.{Formats, cut, encode_cursor, decode_cursor}

abbrev pub has_bar : String → Bool
has_bar s = any (λ c. eqb c b'|') (codes s)

-- What the formats promise: base64 and times are read back, and a time has no bar.
pub record Laws (f : Formats) : Type 0 where
  pub decode-encode : (s : String) → f.decode (f.encode s) ≡ some s
  pub parse-format : (t : ℕ) → f.parse_nano (f.format_time t) ≡ some t
  pub format_no_bar : (t : ℕ) → has_bar (f.format_time t) ≡ false

bar-append : (id : String) → "|" ⧺ id ≡ String.◌∷◌ "|" id
bar-append id = cons-append "|" String.[] id ∙ ap (λ s. String.◌∷◌ "|" s) (nil-append id)

cut-append : (s id : String) → has_bar s ≡ false → cut b'|' (s ⧺ ("|" ⧺ id)) ≡ some (s, id)
unfolding cut any
cut-append String.[] id h = rw (nil-append ("|" ⧺ id), bar-append id) refl
cut-append (String.◌∷◌ c s) id h = ground (arith, cut-append s id, cons-append c s ("|" ⧺ id))

-- Decoding the cursor of a row gives its time and its identifier, if the identifier is a UUID.
pub decode-encode_cursor :
    (f : Formats) (at : ℕ) (id : String)
    → Laws f
    → is_uuid (to_lower id) ≡ true
    → decode_cursor f (encode_cursor f at id) ≡ ok (record { at = at; id = id })
unfolding decode_cursor encode_cursor
decode-encode_cursor f at id l uuid =
    rw
      (
        l.decode-encode (f.format_time at ⧺ ("|" ⧺ id)),
        cut-append (f.format_time at) id (l.format_no_bar at),
        l.parse-format at,
        uuid,
      )
      refl

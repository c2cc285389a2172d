-- ===== src/Tests/Rules.antt =====
-- The conflict rules and the manifest, run.
use idemio.Prelude.{List, ok, some, String, ◌≡◌, refl, true, false, ◌||◌, [], ◌∷◌, any, pos}
use idemio.Conflict.{overlaps, scopes_disjoint, compatible}
use idemio.Conflict.Matrix.{compatible_complete, writes}
use idemio.Conflict.Segments.{leads, path_segments, segments, overlaps-leads}
use idemio.Manifest.{
  Operation, validate, is_definitive, is_not_executed, in_range, definition, Document,
}
use idemio.Manifest.Load.{
  Loader, File, Snapshot, load, lookup, find_type, gather_all, gather, gather_parsed, to_snapshot,
}
use idemio.Manifest.Load.Valid.{IsValid, load-IsValid}
use idemio.Manifest.Validate.{validate-separates}
use idemio.Manifest.Window.{definition-window_wraps}
use idemio.Tests.Data.{replace_order, order_document}

abbrev set_stock : Operation
set_stock = record { class = "mutate"; scope = "stock" ∷ [] }

abbrev set_prices : Operation
set_prices = record { class = "mutate"; scope = "price" ∷ [] }

overlaps-leads_example : overlaps "price" "price.net" ≡ (
    leads (path_segments "price") (path_segments "price.net")
    || leads (path_segments "price.net") (path_segments "price"))
overlaps-leads_example = overlaps-leads "price" "price.net"

apart : compatible replace_order set_stock ≡ true
unfolding compatible scopes_disjoint overlaps any
apart = refl

net_written : writes replace_order.scope "price.net" ≡ true
unfolding writes any leads segments
net_written = refl

clash : compatible replace_order set_prices ≡ false
unfolding compatible scopes_disjoint overlaps any
clash = refl

compatible_complete_example :
    (field : String) × (writes replace_order.scope field ≡ true)
    × (writes set_prices.scope field ≡ true)
compatible_complete_example = compatible_complete replace_order set_prices refl refl clash

valid : validate order_document "order" ≡ []
unfolding validate
valid = refl

ran : is_definitive order_document.errors (pos 201) ≡ true
unfolding is_definitive in_range any
ran = refl

validate-separates_example : is_not_executed order_document.errors (pos 201) ≡ false
validate-separates_example = validate-separates order_document "order" (pos 201) valid ran

abbrev far_window : Document
far_window = record order_document { conflict_window_ms = pos 288230376151711744 }

definition-window_wraps_example : (definition far_window).conflict_window ≡ pos 0
definition-window_wraps_example = definition-window_wraps far_window 1 refl

abbrev pub loader : Loader
loader = record { parse = λ raw. ok order_document; digest = λ s. s }

abbrev pub directory : List File
directory = (record { stem = "order"; raw = ok "{}" }) ∷ []

abbrev pub snapshot : Snapshot
snapshot = record { version = "order{}"; by_type = ("order", definition order_document) ∷ [] }

pub loaded : load loader directory ≡ ok snapshot
unfolding load gather_all gather gather_parsed to_snapshot find_type validate
loaded = refl

serves : lookup snapshot "order" ≡ some (definition order_document)
unfolding lookup find_type
serves = refl

load-IsValid_example : IsValid "order" (definition order_document)
load-IsValid_example =
    load-IsValid loader directory snapshot "order" (definition order_document) loaded serves

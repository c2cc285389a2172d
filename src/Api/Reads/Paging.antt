-- ===== src/Api/Reads/Paging.antt =====
-- A reader who follows the cursors sees every row once.
use idemio.Prelude.{
  ℕ, zero, suc, ◌<◌, ◌≤◌, Bool, true, false, ◌&&◌, Option, none, some, List, [], ◌∷◌, ◌++◌, ◌≡◌,
  refl, ap, sym, ◌∙◌, arith, map, length, take, drop, length-take, select_where, Bool-cases, inl,
  inr, if◌then◌else◌, leb, ok, err,
}
use idemio.Api.Identity.{is_uuid, to_lower}
use mathlib.Core.Option
use idemio.Api.Reads.{
  Formats, Cursor, Window, key_less, latest_first, is_below, last, cast_cursor, paginate,
  select_page, page_of, encode_cursor, decode_cursor,
}
use idemio.Api.Reads.Cursors.{Laws, decode-encode_cursor}
use idemio.Api.Reads.Order.{key_irrefl, key_trans, key_asym}
use idemio.Api.Reads.Slices.{
  take-append-drop, length-drop, take_short, take-take-suc, All-zip, map-append, length-map,
  take-map, last-map,
}
use idemio.Api.Reads.Sorted.{
  All, All-imp, select_and, select_every, select_weaker, select-All, IsDescending, HasUniqueIds,
  select-IsDescending, select-HasUniqueIds, select_holds, latest-All, latest-IsDescending,
  latest_select,
}

module _ {ℓ} {A : Type ℓ} (key : A → Cursor) where
  -- The last row of a page, and what is below it.
  below_last {κ} :
      (P : A → Type κ) (n : ℕ) (rows : List A)
      → IsDescending key rows
      → All P rows
      → suc n ≤ length rows
      → (r : A) × (last (take (suc n) rows) ≡ some r)
        × (select_where (is_below key (some (key r))) rows ≡ drop (suc n) rows)
        × P r
  unfolding last select_where
  below_last P n [] d all h = absurd (omega (arith, h))
  below_last P zero (x ∷ xs) (above, d) (p, all) h =
      (x, refl, rw (key_irrefl (key x)) (select_every (is_below key (some (key x))) xs above), p)
  below_last P (suc n) (x ∷ []) d all h = absurd (omega (arith, h))
  below_last P (suc n) (x ∷ y ∷ xs) (above, d) (p, all) h =
      let (r, ends, below, both) =
        below_last (λ z. (key_less (key z) (key x) ≡ true) × P z) n (y ∷ xs) d
          (All-zip (λ z. key_less (key z) (key x) ≡ true) P (y ∷ xs) above all)
          (omega (arith, h)) in
      (r, ends, rw (key_asym (key r) (key x) both.0) below, both.1)

-- A reader who asks for pages from a cursor on until there is no more. `none` is a request that
-- failed, or a reader who ran out of fuel.
module _ {ℓ κ} {A : Type ℓ} {B : Type κ} (f : Formats) (key : A → Cursor) (matches : A → Bool)
    (view : A → B) (shown : B → Cursor) (w : Window) (rows : List A) where
  unfoldable pub follow : ℕ → Option Cursor → Option (List B)
  follow zero c = none
  follow (suc n) c = elim (page_of f key matches view shown (record w { cursor = c }) rows) [
    | none ↦ none
    | some page ↦
        if page.has_more
        then (elim (decode_cursor f page.next) [
          | err e ↦ none
          | ok next ↦ Option.map (λ rest. page.rows ++ rest) (follow n (some next))
        ])
        else some page.rows
  ]

  abbrev matching : List A
  matching = latest_first key (select_where matches rows)

  abbrev below : Option Cursor → List A
  below c = select_where (is_below key c) matching

  select_page_lem :
      (c : Option Cursor)
      → cast_cursor c ≡ c
      → HasUniqueIds key rows
      → select_page key matches (record w { cursor = c }) rows ≡ take (suc w.limit) (below c)
  unfolding select_page
  select_page_lem c fixed u =
      ap
        (λ d.
          take (suc w.limit)
            (latest_first key (select_where (λ r. matches r && is_below key d r) rows)))
        fixed
      ∙ ap (λ z. take (suc w.limit) (latest_first key z)) (select_and matches (is_below key c) rows)
      ∙ ap (take (suc w.limit)) (
          latest_select key (is_below key c) (select_where matches rows)
            (select-HasUniqueIds key matches rows u))

  page_of-last :
      (c : Option Cursor)
      → cast_cursor c ≡ c
      → HasUniqueIds key rows
      → length (below c) ≤ w.limit
      → page_of f key matches view shown (record w { cursor = c }) rows
        ≡ some (record { rows = map view (below c); has_more = false; next = "" })
  unfolding page_of paginate
  page_of-last c fixed u h =
      rw
        (
          select_page_lem c fixed u,
          take_short (suc w.limit) (below c) (omega (arith, h)),
          length-map view (below c),
        )
        (ground (arith, h))

  page_of-full :
      (c : Option Cursor) (r : A)
      → cast_cursor c ≡ c
      → HasUniqueIds key rows
      → w.limit < length (below c)
      → last (take w.limit (below c)) ≡ some r
      → shown (view r) ≡ key r
      → page_of f key matches view shown (record w { cursor = c }) rows
        ≡ some (record {
          rows = map view (take w.limit (below c));
          has_more = true;
          next = encode_cursor f (key r).at (key r).id;
        })
  unfolding page_of paginate
  page_of-full c r fixed u h ends e =
      rw
        (
          select_page_lem c fixed u,
          length-map view (take (suc w.limit) (below c)),
          take-map view w.limit (take (suc w.limit) (below c)),
          take-take-suc w.limit (below c),
          last-map view (take w.limit (below c)) ends,
          e,
        )
        (ground (arith, h, length-take (suc w.limit) (below c)))

  below_weaker :
      (c : Option Cursor) (r : A)
      → is_below key c r ≡ true
      → below (some (key r)) ≡ select_where (is_below key (some (key r))) (below c)
  below_weaker none r h =
      sym (select_weaker (is_below key (some (key r))) (is_below key none) matching (λ x e. refl))
  below_weaker (some d) r h = sym (
      select_weaker (is_below key (some (key r))) (is_below key (some d)) matching
        (λ x e. key_trans (key x) (key r) d e h))

  abbrev HasUuid : A → Type 0
  HasUuid r = (is_uuid (to_lower (key r).id) ≡ true) × (to_lower (key r).id ≡ (key r).id)

  -- The last row of a full page, from where the reader goes on.
  page_end :
      (c : Option Cursor) (n : ℕ)
      → 1 ≤ n
      → HasUniqueIds key rows
      → All HasUuid rows
      → n ≤ length (below c)
      → (r : A) × (last (take n (below c)) ≡ some r)
        × (below (some (key r)) ≡ drop n (below c))
        × HasUuid r
  page_end c zero positive u uuids h = absurd (omega (arith, positive))
  page_end c (suc n) positive u uuids h =
      let uuids_below = select-All HasUuid (is_below key c) matching (
        latest-All key HasUuid (select_where matches rows)
          (select-All HasUuid matches rows uuids)) in
      let descending = select-IsDescending key (is_below key c) matching (
        latest-IsDescending key (select_where matches rows)
          (select-HasUniqueIds key matches rows u)) in
      let (r, ends, rest, both) =
        below_last key (λ x. (is_below key c x ≡ true) × HasUuid x) n (below c) descending
          (All-zip (λ x. is_below key c x ≡ true) HasUuid (below c)
            (select_holds (is_below key c) matching) uuids_below)
          h in
      (r, ends, below_weaker c r both.0 ∙ rest, both.1)

  follow-below :
      (n : ℕ) (c : Option Cursor)
      → cast_cursor c ≡ c
      → 1 ≤ w.limit
      → ((r : A) → shown (view r) ≡ key r)
      → Laws f
      → HasUniqueIds key rows
      → All HasUuid rows
      → length (below c) < n
      → follow n c ≡ some (map view (below c))
  unfolding follow
  follow-below zero c fixed positive e l u uuids h = absurd (omega (arith, h))
  follow-below (suc n) c fixed positive e l u uuids h =
      elim (Bool-cases (leb (length (below c)) w.limit)) [
        | inl small ↦ rw (follow, page_of-last c fixed u (ground (arith, small))) refl
        | inr large ↦
            let long : w.limit < length (below c) = ground (arith, large) in
            let (r, ends, rest, uuid) = page_end c w.limit positive u uuids (omega (arith, long)) in
            let again =
              follow-below n (some (key r))
                (ap (λ i. some (record { at = (key r).at; id = i })) uuid.1) positive e l u uuids
                (rw rest (omega (arith, h, long, positive, length-drop w.limit (below c)))) in
            rw
              (
                follow,
                page_of-full c r fixed u long ends (e r),
                decode-encode_cursor f (key r).at (key r).id l uuid.0,
                again,
                rest,
                sym (map-append view (take w.limit (below c)) (drop w.limit (below c))),
                take-append-drop w.limit (below c),
              )
              refl
      ]

  -- A reader with a limit of at least 1, who starts without a cursor, sees exactly the rows that
  -- match, each once and latest first, in at most as many requests as there are rows and one more,
  -- if the rows have distinct identifiers that are UUIDs in lower case.
  pub pages_cover :
      (n : ℕ)
      → 1 ≤ w.limit
      → ((r : A) → shown (view r) ≡ key r)
      → Laws f
      → HasUniqueIds key rows
      → All HasUuid rows
      → length (latest_first key (select_where matches rows)) < n
      → follow n none ≡ some (map view (latest_first key (select_where matches rows)))
  pages_cover n positive e l u uuids h =
      let whole : below none ≡ matching = select_every (is_below key none) matching (
        latest-All key (λ x. true ≡ true) (select_where matches rows)
          (All-imp (λ x. matches x ≡ true) (λ x. true ≡ true) (select_where matches rows)
            (λ x e. refl) (select_holds matches rows))) in
      follow-below n none refl positive e l u uuids (rw whole h) ∙ ap (λ z. some (map view z)) whole

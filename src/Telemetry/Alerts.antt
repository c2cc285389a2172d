-- ===== src/Telemetry/Alerts.antt =====
-- What the gauges of a scrape say of the work that is left to the reconciler, the relay and the
-- retention of keys.
use idemio.Prelude.{
  ℕ, zero, suc, ◌+◌, ◌≤◌, ◌<◌, String, Bool, true, false, not, ◌&&◌, ◌||◌, Option, none, some, List,
  [], ◌∷◌, ◌++◌, ◌≡◌, refl, sym, ap, ◌∙◌, arith, ◌==◌, map, leb, ltb, ltb_int, ℤ, pos, negsuc, ◌+ℤ◌,
  any, any-append, select_where, count_where, take, if◌then◌else◌, Bool-cases, inl, inr,
}
use idemio.Prelude.Rows.{All, any-map, any-select}
use idemio.Config.{Config}
use idemio.Claim.Complete.{is_pending}
use idemio.Maintenance.Expiry.{is_expired, is_empty}
use idemio.Maintenance.Partitions.{Range}
use idemio.Reconcile.{Reconciler, is_stale, select_stale, by_claimed_at, insert_oldest}
use idemio.Relay.{is_none, unpublished, earliest_first, insert_earliest}
use idemio.Startup.{until, latest_bound}
use idemio.Tables.{KeyRow, IntentRow}
use idemio.Telemetry.{
  Metric, ScrapeServer, Scraped, Window, least, oldest_age, past_window, at_least_zero, negate,
  collect, collect_counts, collect_headroom, collect_outbox, collect_lags, collect_retention_lag,
  windows, oldest_pending_age, unpublished_intents, partition_headroom, retention_lag, counts,
  outbox, bound, lag,
}

-- A test that holds of all that is earlier holds of the least of some times if it holds of one.
least-any :
    (q : ℕ → Bool)
    → ((a b : ℕ) → a ≤ b → q b ≡ true → q a ≡ true)
    → (m : ℕ) (ts : List ℕ) → q (least m ts) ≡ (q m || any q ts)
unfolding least any
least-any q down m [] = ground arith
least-any q down m (t ∷ ts) = elim (Bool-cases (leb m t)) [
  | inl e ↦ rw e (ground (arith, e, least-any q down m ts, down m t))
  | inr e ↦ rw e (ground (arith, e, least-any q down t ts, down t m))
]

age_over :
    (s now : ℕ) (ts : List ℕ) → ltb_int (pos s) (oldest_age now ts) ≡ any (λ t. ltb (t + s) now) ts
unfolding oldest_age any
age_over s now [] = ground arith
age_over s now (t ∷ ts) =
    let m = least t ts in
    let over : ltb_int (pos s) (until now m) ≡ ltb (m + s) now = ground arith in
    over ∙ least-any (λ t. ltb (t + s) now) (λ a b h late. ground arith) t ts

past_by :
    (now m : ℕ) (hot : ℤ)
    → ltb_int (pos 0) (at_least_zero (until now m +ℤ negate hot)) ≡ ltb_int (pos m +ℤ hot) (pos now)
past_by now m (pos zero) = ground arith
past_by now m (pos (suc n)) = ground arith
past_by now m (negsuc n) = ground arith

earlier :
    (now : ℕ) (hot : ℤ) (a b : ℕ)
    → a ≤ b
    → ltb_int (pos b +ℤ hot) (pos now) ≡ true
    → ltb_int (pos a +ℤ hot) (pos now) ≡ true
earlier now (pos n) a b h late = ground arith
earlier now (negsuc n) a b h late = ground arith

past_over :
    (now : ℕ) (hot : ℤ) (ts : List ℕ)
    → ltb_int (pos 0) (at_least_zero (past_window now hot ts))
      ≡ any (λ t. ltb_int (pos t +ℤ hot) (pos now)) ts
unfolding past_window any
past_over now hot [] = refl
past_over now hot (t ∷ ts) =
    past_by now (least t ts) hot
    ∙ least-any (λ t. ltb_int (pos t +ℤ hot) (pos now)) (earlier now hot) t ts

module _ {ℓ} {A : Type ℓ} where
  count_positive : (p : A → Bool) (xs : List A) → ltb 0 (count_where p xs) ≡ any p xs
  unfolding count_where any
  count_positive p [] = ground arith
  count_positive p (x ∷ xs) = ground (arith, count_positive p xs)

  some_selected : (p : A → Bool) (xs : List A) → not (is_empty (select_where p xs)) ≡ any p xs
  unfolding select_where any
  some_selected p [] = refl
  some_selected p (x ∷ xs) = elim (Bool-cases (p x)) [
    | inl e ↦ rw e refl
    | inr e ↦ rw e (some_selected p xs)
  ]

  some_taken : (n : ℕ) (xs : List A) → 0 < n → is_empty (take n xs) ≡ is_empty xs
  some_taken zero xs h = absurd (omega (arith, h))
  some_taken (suc n) [] h = refl
  some_taken (suc n) (x ∷ xs) h = refl

some_mapped {ℓ κ} :
    {A : Type ℓ} {B : Type κ} (f : A → B) (xs : List A) → is_empty (map f xs) ≡ is_empty xs
some_mapped f [] = refl
some_mapped f (x ∷ xs) = refl

insert_some : (r : KeyRow) (xs : List KeyRow) → is_empty (insert_oldest r xs) ≡ false
unfolding insert_oldest
insert_some r [] = refl
insert_some r (x ∷ xs) = ground arith

oldest_some : (xs : List KeyRow) → is_empty (by_claimed_at xs) ≡ is_empty xs
unfolding by_claimed_at
oldest_some [] = refl
oldest_some (r ∷ xs) = insert_some r (by_claimed_at xs)

insert_earliest_some :
    (r : IntentRow) (xs : List IntentRow) → is_empty (insert_earliest r xs) ≡ false
unfolding insert_earliest
insert_earliest_some r [] = refl
insert_earliest_some r (x ∷ xs) = ground arith

earliest_some : (xs : List IntentRow) → is_empty (earliest_first xs) ≡ is_empty xs
unfolding earliest_first
earliest_some [] = refl
earliest_some (r ∷ xs) = insert_earliest_some r (earliest_first xs)

-- A sweep takes up a key if one is due.
candidate_some :
    (r : Reconciler) (now : ℕ) (keys : List KeyRow)
    → 0 < r.batch
    → not (is_empty (select_stale r now keys)) ≡ any (is_stale now r.stale_after) keys
unfolding select_stale
candidate_some r now keys h =
    let due = select_where (is_stale now r.stale_after) keys in
    ap not (some_taken r.batch (by_claimed_at due) h ∙ oldest_some due)
    ∙ some_selected (is_stale now r.stale_after) keys

message_some :
    (batch : ℕ) (intents : List IntentRow)
    → 0 < batch
    → not (is_empty (unpublished batch intents)) ≡ any (λ i. is_none i.published_at) intents
unfolding unpublished
message_some batch intents h =
    let left = select_where (λ (i : IntentRow). is_none i.published_at) intents in
    ap not (
      some_mapped _ (take batch (earliest_first left))
      ∙ some_taken batch (earliest_first left) h
      ∙ earliest_some left)
    ∙ some_selected (λ (i : IntentRow). is_none i.published_at) intents

or_none : (a : Bool) → (a || false) ≡ a
or_none a = ground arith

both_false : (a b : Bool) → a ≡ false → b ≡ false → (a || b) ≡ false
both_false a b h k = ground (arith, h, k)

-- A test that no gauge of a partition passes finds none in the loop over the tables.
no_headroom :
    (p : Metric → Bool)
    → ((table : String) (left : ℤ) → p (partition_headroom table left) ≡ false)
    → (v : ScrapeServer) (rs : List Range) (tables : List String)
    → any p (collect_headroom v rs tables) ≡ false
unfolding any collect_headroom
no_headroom p never v rs [] = refl
no_headroom p never v rs (table ∷ tables) =
    bounded (latest_bound table rs) (no_headroom p never v rs tables)
  where
    bounded :
        (latest : Option ℕ)
        → any p (collect_headroom v rs tables) ≡ false
        → any p (
            if v.fails (bound table) then collect_headroom v rs tables else elim latest [
              | none ↦ collect_headroom v rs tables
              | some t ↦
                  partition_headroom table (until t (v.now (bound table)))
                  ∷ collect_headroom v rs tables
            ])
          ≡ false
    bounded none rest = elim (Bool-cases (v.fails (bound table))) [
      | inl e ↦ rw e rest
      | inr e ↦ rw e rest
    ]
    bounded (some t) rest = elim (Bool-cases (v.fails (bound table))) [
      | inl e ↦ rw e rest
      | inr e ↦ rw e (both_false _ _ (never table (until t (v.now (bound table)))) rest)
    ]

no_lags :
    (p : Metric → Bool)
    → (v : ScrapeServer) (ws : List Window)
    → All (λ w. (l : ℤ) → p (retention_lag w.table l) ≡ false) ws
    → any p (collect_lags v ws) ≡ false
unfolding any collect_lags
no_lags p v [] all = refl
no_lags p v (w ∷ ws) (never, all) =
    let rest = no_lags p v ws all in
    elim (Bool-cases (v.fails (lag w.table))) [
      | inl e ↦ rw e rest
      | inr e ↦ rw e (both_false _ _ (never _) rest)
    ]

-- `idemio_oldest_pending_age_seconds` above a threshold
abbrev pub is_overdue : ℕ → Metric → Bool
is_overdue threshold (oldest_pending_age age) = ltb_int (pos threshold) age
is_overdue threshold _ = false

-- `idemio_unpublished_intents` above zero
abbrev pub has_backlog : Metric → Bool
has_backlog (unpublished_intents n) = ltb 0 n
has_backlog _ = false

-- `idemio_retention_lag_seconds` of the keys above zero
abbrev pub has_key_lag : Metric → Bool
has_key_lag (retention_lag table l) = table == "idempotency_keys" && ltb_int (pos 0) l
has_key_lag _ = false

first_lag :
    (v : ScrapeServer) (w : Window) (ws : List Window)
    → (w.table == "idempotency_keys") ≡ true
    → All (λ w. (l : ℤ) → has_key_lag (retention_lag w.table l) ≡ false) ws
    → any has_key_lag (collect_lags v (w ∷ ws)) ≡ (
        not (v.fails (lag w.table))
        && ltb_int (pos 0) (at_least_zero (past_window (v.now (lag w.table)) w.hot w.times)))
unfolding any collect_lags
first_lag v w ws keys all =
    let rest = no_lags has_key_lag v ws all in
    elim (Bool-cases (v.fails (lag w.table))) [
      | inl e ↦ rw e rest
      | inr e ↦ rw e (chosen _ _ _ keys rest)
    ]
  where
    chosen : (a b c : Bool) → a ≡ true → c ≡ false → ((a && b) || c) ≡ b
    chosen a b c h k = ground (arith, h, k)

module _ (cfg : Config) (v : ScrapeServer) (d : Scraped) where
  parts :
      (p : Metric → Bool)
      → ((table : String) (left : ℤ) → p (partition_headroom table left) ≡ false)
      → any p (collect cfg v d) ≡ (
          any p (collect_counts v d.db)
          || (any p (collect_outbox v d.db) || any p (collect_retention_lag cfg v d)))
  unfolding collect
  parts p never =
      any-append p (collect_counts v d.db) _
      ∙ ap (λ b. any p (collect_counts v d.db) || b)
          (any-append p (collect_headroom v d.ranges _) _
            ∙ ap (λ b. b || any p (collect_outbox v d.db ++ collect_retention_lag cfg v d))
                (no_headroom p never v d.ranges _)
            ∙ any-append p (collect_outbox v d.db) _)

  overdue_counts :
      (s : ℕ)
      → any (is_overdue s) (collect_counts v d.db)
        ≡ (not (v.fails counts) && any (is_stale (v.now counts) s) d.db.keys)
  unfolding any collect_counts
  overdue_counts s =
      let age =
        age_over s (v.now counts) _
        ∙ any-map (λ t. ltb (t + s) (v.now counts)) (λ (k : KeyRow). k.claimed_at) _
        ∙ any-select (λ (k : KeyRow). ltb (k.claimed_at + s) (v.now counts))
            (λ k. is_pending k.status) d.db.keys in
      elim (Bool-cases (v.fails counts)) [ inl e ↦ rw e refl | inr e ↦ rw e (or_none _ ∙ age) ]

  overdue_outbox : (s : ℕ) → any (is_overdue s) (collect_outbox v d.db) ≡ false
  unfolding any collect_outbox
  overdue_outbox s = elim (Bool-cases (v.fails outbox)) [ inl e ↦ rw e refl | inr e ↦ rw e refl ]

  backlog_counts : any has_backlog (collect_counts v d.db) ≡ false
  unfolding any collect_counts
  backlog_counts = elim (Bool-cases (v.fails counts)) [ inl e ↦ rw e refl | inr e ↦ rw e refl ]

  backlog_outbox :
      any has_backlog (collect_outbox v d.db)
      ≡ (not (v.fails outbox) && any (λ i. is_none i.published_at) d.db.intents)
  unfolding any collect_outbox
  backlog_outbox = elim (Bool-cases (v.fails outbox)) [
    | inl e ↦ rw e refl
    | inr e ↦
        rw e (or_none _ ∙ count_positive (λ (i : IntentRow). is_none i.published_at) d.db.intents)
  ]

  overdue_lags : (s : ℕ) → any (is_overdue s) (collect_retention_lag cfg v d) ≡ false
  unfolding collect_retention_lag windows
  overdue_lags s =
      no_lags (is_overdue s) v (windows cfg d)
        (λ l. refl, (λ l. refl, (λ l. refl, (λ l. refl, tt))))

  backlog_lags : any has_backlog (collect_retention_lag cfg v d) ≡ false
  unfolding collect_retention_lag windows
  backlog_lags =
      no_lags has_backlog v (windows cfg d) (λ l. refl, (λ l. refl, (λ l. refl, (λ l. refl, tt))))

  lag_counts : any has_key_lag (collect_counts v d.db) ≡ false
  unfolding any collect_counts
  lag_counts = elim (Bool-cases (v.fails counts)) [ inl e ↦ rw e refl | inr e ↦ rw e refl ]

  lag_outbox : any has_key_lag (collect_outbox v d.db) ≡ false
  unfolding any collect_outbox
  lag_outbox = elim (Bool-cases (v.fails outbox)) [ inl e ↦ rw e refl | inr e ↦ rw e refl ]

  key_lags : any has_key_lag (collect_retention_lag cfg v d) ≡ (
      not (v.fails (lag "idempotency_keys"))
      && any (is_expired cfg.retention_keys (v.now (lag "idempotency_keys"))) d.db.keys)
  unfolding collect_retention_lag windows
  key_lags =
      let now = v.now (lag "idempotency_keys") in
      first_lag v _ _ refl (λ l. refl, (λ l. refl, (λ l. refl, tt)))
      ∙ ap (λ b. not (v.fails (lag "idempotency_keys")) && b)
          (past_over now cfg.retention_keys (map (λ (k : KeyRow). k.created_at) d.db.keys)
            ∙ any-map (λ t. ltb_int (pos t +ℤ cfg.retention_keys) (pos now))
                (λ (k : KeyRow). k.created_at) d.db.keys)

  whole : (a b c : Bool) → b ≡ false → c ≡ false → (a || (b || c)) ≡ a
  whole a b c h k = ground (arith, h, k)

  -- What a scrape says of the work that is left. The oldest pending age is reported above the
  -- reconciler's stale_after if and only if its query answers and a sweep at the time of the query
  -- takes up a key; unpublished intents are reported if and only if their query answers and the
  -- relay finds a message to publish; and a retention lag of the keys above zero is reported if and
  -- only if its query answers and a key has expired. The batches of the sweep and of the relay hold
  -- at least one row.
  pub collect_tells :
      (r : Reconciler) (batch : ℕ)
      → 0 < r.batch
      → 0 < batch
      → (any (is_overdue r.stale_after) (collect cfg v d)
          ≡ (not (v.fails counts) && not (is_empty (select_stale r (v.now counts) d.db.keys))))
        × (any has_backlog (collect cfg v d)
            ≡ (not (v.fails outbox) && not (is_empty (unpublished batch d.db.intents))))
        × (any has_key_lag (collect cfg v d) ≡ (
            not (v.fails (lag "idempotency_keys"))
            && any (is_expired cfg.retention_keys (v.now (lag "idempotency_keys"))) d.db.keys))
  collect_tells r batch some_rows some_messages = (
    parts (is_overdue r.stale_after) (λ t l. refl)
        ∙ whole _ _ _ (overdue_outbox r.stale_after) (overdue_lags r.stale_after)
        ∙ overdue_counts r.stale_after
        ∙ ap (λ b. not (v.fails counts) && b)
            (sym (candidate_some r (v.now counts) d.db.keys some_rows)),
    parts has_backlog (λ t l. refl)
        ∙ middle _ _ _ backlog_counts backlog_lags
        ∙ backlog_outbox
        ∙ ap (λ b. not (v.fails outbox) && b) (sym (message_some batch d.db.intents some_messages)),
    parts has_key_lag (λ t l. refl) ∙ last _ _ _ lag_counts lag_outbox ∙ key_lags,
  )
    where
      middle : (a b c : Bool) → a ≡ false → c ≡ false → (a || (b || c)) ≡ b
      middle a b c h k = ground (arith, h, k)

      last : (a b c : Bool) → a ≡ false → b ≡ false → (a || (b || c)) ≡ c
      last a b c h k = ground (arith, h, k)

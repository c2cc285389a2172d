-- ===== src/Downstream/Taxonomy.antt =====
-- What a disposition says of the write.
use mathlib.Core.Path.{subst}
use idemio.Prelude.{
  String, Bool, true, false, Option, none, some, ◌≡◌, refl, inl, inr, ℤ, Bool-cases,
}
use idemio.Manifest.{ErrorClassification, is_definitive, is_not_executed}
use idemio.Downstream.{
  Disposition, Reply, Wire, not_dialed, transport_error, unread, answered, execute, receive,
  classify_response, build, encode,
}

-- What the downstream promises of a reply, `ran` saying whether the write took effect: a call that
-- was never dialled did not run, a definitive status is that of a write that ran, and a status
-- declared as not executed that of one that did not.
abbrev pub Promised : ErrorClassification → Reply → Bool → Type 0
Promised c (not_dialed e) ran = ran ≡ false
Promised c (transport_error e) ran = Unit
Promised c (unread e) ran = Unit
Promised c (answered status payload) ran =
    (is_definitive c status ≡ true → ran ≡ true)
    × (is_definitive c status ≡ false → is_not_executed c status ≡ true → ran ≡ false)

-- A request that could not be encoded or built did not run.
abbrev Built : ErrorClassification → Reply → Bool → Option String → Type 0
Built c reply ran (some e) = ran ≡ false
Built c reply ran none = Promised c reply ran

abbrev Encoded : ErrorClassification → Reply → Bool → Option String → Option String → Type 0
Encoded c reply ran b (some e) = ran ≡ false
Encoded c reply ran b none = Built c reply ran b

abbrev pub Truthful : Wire → ErrorClassification → Bool → Type 0
Truthful w c ran = Encoded c w.reply ran w.build_error w.encode_error

-- The half of that promise which a retry rests on: what was not dialled, and what is declared as not
-- executed, did not run.
abbrev Declined : ErrorClassification → Reply → Bool → Type 0
Declined c (not_dialed e) ran = ran ≡ false
Declined c (transport_error e) ran = Unit
Declined c (unread e) ran = Unit
Declined c (answered status payload) ran =
    is_definitive c status ≡ false → is_not_executed c status ≡ true → ran ≡ false

abbrev Unsent : ErrorClassification → Reply → Bool → Option String → Option String → Type 0
Unsent c reply ran b (some e) = ran ≡ false
Unsent c reply ran (some e) none = ran ≡ false
Unsent c reply ran none none = Declined c reply ran

abbrev pub Spares : Wire → ErrorClassification → Bool → Type 0
Spares w c ran = Unsent c w.reply ran w.build_error w.encode_error

-- the whole promise, or that half of it
abbrev pub Keeps : Bool → Wire → ErrorClassification → Bool → Type 0
Keeps true = Truthful
Keeps false = Spares

-- what a disposition says of `ran`
abbrev Means : Disposition → Bool → Type 0
Means Disposition.failed ran = ran ≡ false
Means Disposition.done ran = ran ≡ true
Means Disposition.indeterminate ran = Unit

module _ (w : Wire) (c : ErrorClassification) (ran : Bool) where
  classify-Means :
      (status : ℤ) (payload : String)
      → Promised c (answered status payload) ran
      → Means (classify_response w c status payload).disposition ran
  unfolding classify_response
  classify-Means status payload (definitive, declined) =
      elim (Bool-cases (is_definitive c status)) [
        | inl e ↦ rw e (definitive e)
        | inr e ↦ elim (Bool-cases (is_not_executed c status)) [
          | inl f ↦ rw (e, f) (declined e f)
          | inr f ↦ rw (e, f) tt
        ]
      ]

  receive-Means : (reply : Reply) → Promised c reply ran → Means (receive w c reply).disposition ran
  unfolding receive
  receive-Means (not_dialed e) h = h
  receive-Means (transport_error e) h = tt
  receive-Means (unread e) h = tt
  receive-Means (answered status payload) h = classify-Means status payload h

  build-Means : (b : Option String) → Built c w.reply ran b → Means (build w c b).disposition ran
  unfolding build
  build-Means (some e) h = h
  build-Means none h = receive-Means w.reply h

  encode-Means :
      (o : Option String)
      → Encoded c w.reply ran w.build_error o
      → Means (encode w c o).disposition ran
  unfolding encode
  encode-Means (some e) h = h
  encode-Means none h = build-Means w.build_error h

  -- Of a truthful downstream, a write whose disposition is `failed` did not run, and one whose
  -- disposition is `done` ran.
  pub execute-Means :
      Truthful w c ran
      → ((execute w c).disposition ≡ Disposition.failed → ran ≡ false)
        × ((execute w c).disposition ≡ Disposition.done → ran ≡ true)
  unfolding execute
  execute-Means truth =
      let m = encode-Means w.encode_error truth in
      (λ e. subst (λ d. Means d ran) e m, λ e. subst (λ d. Means d ran) e m)

  Declined-failed :
      (reply : Reply)
      → Declined c reply ran
      → (receive w c reply).disposition ≡ Disposition.failed
      → ran ≡ false
  unfolding receive classify_response
  Declined-failed (not_dialed e) h failed = h
  Declined-failed (transport_error e) h failed = cc
  Declined-failed (unread e) h failed = cc
  Declined-failed (answered status payload) h failed = elim (Bool-cases (is_definitive c status)) [
    | inl e ↦ cc (rw e at failed)
    | inr e ↦ elim (Bool-cases (is_not_executed c status)) [
      | inl f ↦ h e f
      | inr f ↦ cc (rw (e, f) at failed)
    ]
  ]

  Unsent-failed :
      (b o : Option String)
      → Unsent c w.reply ran b o
      → (encode w c o).disposition ≡ Disposition.failed
      → w.build_error ≡ b
      → ran ≡ false
  unfolding encode build
  Unsent-failed b (some e) h failed built = h
  Unsent-failed (some e) none h failed built = h
  Unsent-failed none none h failed built = Declined-failed w.reply h (rw built at failed)

  -- what a disposition says under either promise
  pub Keeps-Means :
      (whole : Bool)
      → Keeps whole w c ran
      → ((execute w c).disposition ≡ Disposition.failed → ran ≡ false)
        × (whole ≡ true → (execute w c).disposition ≡ Disposition.done → ran ≡ true)
  unfolding execute
  Keeps-Means true truth = let (failed, done) = execute-Means truth in (failed, λ e. done)
  Keeps-Means false spares =
      (λ e. Unsent-failed w.build_error w.encode_error spares e refl, λ e. cc)

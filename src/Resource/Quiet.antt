-- ===== src/Resource/Quiet.antt =====
-- Tables in which no live intent has a rival, and the updates that keep them so.
use idemio.Prelude.{
  ℕ, String, Bool, true, not, ◌&&◌, some, List, [], ◌∷◌, ◌≡◌, refl, ◌==◌, ℤ, any, select_where,
  update_where, arith, Bool-cases, and-eq-true, ap, fun_ext, inl, inr,
}
use idemio.Prelude.Rows.{any-update, any-sublist}
use idemio.Claim.Statements.{is_live}
use idemio.Tables.{IntentRow}
use idemio.Resource.{is_rival_of}

module _ (type : String) (window : ℤ) where
  -- the head of a table, newest first, beside the older intents
  abbrev pub head_quiet : IntentRow → List IntentRow → Bool
  head_quiet i rest =
      not (is_live i.voided_at && (i.resource_type == type && any (is_rival_of window i) rest))

  unfoldable pub quiet : List IntentRow → Bool
  quiet [] = true
  quiet (i ∷ rest) = head_quiet i rest && quiet rest

  -- An update that only voids or marks rows: it revives none, and leaves the rest of a row.
  pub record IsTame (f : IntentRow → IntentRow) : Type 0 where
    pub revives_none : (i : IntentRow) → is_live (f i).voided_at ≡ true → is_live i.voided_at ≡ true
    pub keeps_rivals : (i j : IntentRow) → is_rival_of window (f i) j ≡ is_rival_of window i j
    pub keeps_type : (i : IntentRow) → (f i).resource_type ≡ i.resource_type
    pub adds_no_rival :
        (i j : IntentRow) → is_rival_of window i (f j) ≡ true → is_rival_of window i j ≡ true

  module _ (f : IntentRow → IntentRow) (tame : IsTame f) (q : IntentRow → Bool) where
    head-update_rest :
        (i : IntentRow) (rest : List IntentRow)
        → head_quiet i rest ≡ true
        → head_quiet i (update_where q f rest) ≡ true
    head-update_rest i rest h =
        ground (arith, any-update (is_rival_of window i) q f (tame.adds_no_rival i) rest)

    head-update_self :
        (i : IntentRow) (rest : List IntentRow)
        → head_quiet i rest ≡ true
        → head_quiet (f i) rest ≡ true
    head-update_self i rest h =
        let same : any (is_rival_of window (f i)) rest ≡ any (is_rival_of window i) rest =
          ap (λ p. any p rest) (fun_ext (tame.keeps_rivals i)) in
        ground (arith, same, tame.revives_none i, ap (λ t. t == type) (tame.keeps_type i))

    pub quiet-update : (xs : List IntentRow) → quiet xs ≡ true → quiet (update_where q f xs) ≡ true
    unfolding quiet update_where
    quiet-update [] h = refl
    quiet-update (i ∷ rest) h =
        let (head, tail) = and-eq-true _ _ h in
        let kept = quiet-update rest tail in
        let older = head-update_rest i rest head in
        elim (Bool-cases (q i)) [
          | inl e ↦ rw (e, head-update_self i (update_where q f rest) older) kept
          | inr e ↦ rw (e, older) kept
        ]

  pub quiet-select :
      (q : IntentRow → Bool) (xs : List IntentRow)
      → quiet xs ≡ true
      → quiet (select_where q xs) ≡ true
  unfolding quiet select_where
  quiet-select q [] h = refl
  quiet-select q (i ∷ rest) h =
      ground (arith, quiet-select q rest, any-sublist (is_rival_of window i) q rest)

  pub void-IsTame : (at : ℕ) → IsTame (λ i. record i { voided_at = some at })
  unfolding is_rival_of
  void-IsTame at = record {
    revives_none = λ i h. cc;
    keeps_rivals = λ i j. refl;
    keeps_type = λ i. refl;
    adds_no_rival = λ i j h. ground arith;
  }

  pub publish-IsTame : (at : ℕ) → IsTame (λ i. record i { published_at = some at })
  unfolding is_rival_of
  publish-IsTame at = record {
    revives_none = λ i h. h;
    keeps_rivals = λ i j. refl;
    keeps_type = λ i. refl;
    adds_no_rival = λ i j h. h;
  }

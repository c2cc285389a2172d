-- ===== src/Maintenance/Expiry/Laws.antt =====
-- Which keys expire: only old ones, and all of them where nothing fails.
use idemio.Prelude.{
  ℕ, zero, suc, ◌+◌, ◌*◌, ◌<◌, ◌≤◌, Bool, true, false, not, ◌&&◌, Option, none, some, List, [], ◌∷◌,
  ◌≡◌, refl, ap, ◌∙◌, arith, ltb, length, ℤ, pos, negsuc, ◌+ℤ◌, ltb_int, select_where, any,
  Bool-cases, inl, inr, if◌then◌else◌,
}
use idemio.Tables.{KeyRow}
use idemio.Maintenance.Expiry.{
  batch_size, is_expired, delete_some, refs_of, is_empty, ExpireFault, Turn, Expiry, expire_batch,
  after_batch, expire_keys,
}

module _ {ℓ} {A : Type ℓ} where
  delete_some-keeps :
      (n : ℕ) (p q : A → Bool) (xs : List A)
      → ((x : A) → q x ≡ true → p x ≡ false)
      → select_where q (delete_some n p xs).1 ≡ select_where q xs
  unfolding delete_some select_where
  delete_some-keeps zero p q xs apart = refl
  delete_some-keeps (suc n) p q [] apart = refl
  delete_some-keeps (suc n) p q (x ∷ xs) apart =
      ground
        (arith, apart x, delete_some-keeps n p q xs apart, delete_some-keeps (suc n) p q xs apart)

  length-delete_some :
      (n : ℕ) (p : A → Bool) (xs : List A)
      → length (delete_some n p xs).0 + length (delete_some n p xs).1 ≡ length xs
  unfolding delete_some
  length-delete_some zero p xs = omega arith
  length-delete_some (suc n) p [] = omega arith
  length-delete_some (suc n) p (x ∷ xs) =
      ground (arith, length-delete_some n p xs, length-delete_some (suc n) p xs)

  -- A batch that is not full leaves nothing behind.
  delete_some-short :
      (n : ℕ) (p : A → Bool) (xs : List A)
      → length (delete_some n p xs).0 < n
      → any p (delete_some n p xs).1 ≡ false
  unfolding delete_some any
  delete_some-short zero p xs h = absurd (omega (arith, h))
  delete_some-short (suc n) p [] h = refl
  delete_some-short (suc n) p (x ∷ xs) h = elim (Bool-cases (p x)) [
    | inl e ↦ rw e (delete_some-short n p xs (ground (arith, h, e)))
    | inr e ↦ rw (e, e) (delete_some-short (suc n) p xs (ground (arith, h, e)))
  ]

  any_weaker :
      (p q : A → Bool) (xs : List A)
      → ((x : A) → p x ≡ true → q x ≡ true)
      → any q xs ≡ false
      → any p xs ≡ false
  unfolding any
  any_weaker p q [] imp h = refl
  any_weaker p q (x ∷ xs) imp h = ground (arith, imp x, any_weaker p q xs imp, h)

ltb_int-later :
    (z : ℤ) (now latest : ℕ)
    → now ≤ latest
    → ltb_int z (pos now) ≡ true
    → ltb_int z (pos latest) ≡ true
ltb_int-later (pos n) now latest h e = ground (arith, h, e)
ltb_int-later (negsuc n) now latest h e = refl

-- A key that is expired is so later on.
is_expired_later :
    (hot : ℤ) (now latest : ℕ) (r : KeyRow)
    → now ≤ latest
    → is_expired hot now r ≡ true
    → is_expired hot latest r ≡ true
is_expired_later hot now latest r h e = ltb_int-later (pos r.created_at +ℤ hot) now latest h e

-- The turns that start by a time.
abbrev pub IsBy : ℕ → List Turn → Type 0
IsBy latest [] = Unit
IsBy latest (turn ∷ turns) = (turn.now ≤ latest) × IsBy latest turns

-- Turns from a time on in which nothing fails.
abbrev pub IsCalm : ℕ → List Turn → Type 0
IsCalm t [] = Unit
IsCalm t (turn ∷ turns) =
    ((t ≤ turn.now)
      × (turn.query_fails ≡ false)
      × (turn.delete_fails ≡ false)
      × (turn.is_cancelled ≡ false))
    × IsCalm t turns

module _ (hot : ℤ) (has_results : Bool) where
  -- The rows that a batch leaves, and how many it deleted.
  expire_batch_rows :
      (turn : Turn) (s : Expiry)
      → let batch = delete_some batch_size (is_expired hot turn.now) s.keys in
        let result = expire_batch hot has_results turn s in
        (result.0.keys ≡ (if turn.query_fails then s.keys else batch.1))
        × (result.1 ≡ (if turn.query_fails then 0 else length batch.0))
  unfolding expire_batch
  expire_batch_rows turn s = elim (Bool-cases turn.query_fails) [
    | inl e ↦ rw e (refl, refl)
    | inr e ↦
        let refs = refs_of (delete_some batch_size (is_expired hot turn.now) s.keys).0 in
        elim (Bool-cases (has_results && not (is_empty refs))) [
          | inl f ↦ elim (Bool-cases turn.delete_fails) [
            | inl g ↦ rw (e, f, g) (refl, refl)
            | inr g ↦ rw (e, f, g) (refl, refl)
          ]
          | inr f ↦ rw (e, f) (refl, refl)
        ]
  ]

  expire_batch-keeps :
      (turn : Turn) (s : Expiry) (latest : ℕ)
      → turn.now ≤ latest
      → select_where
          (λ r. not (is_expired hot latest r))
          (expire_batch hot has_results turn s).0.keys
        ≡ select_where (λ r. not (is_expired hot latest r)) s.keys
  expire_batch-keeps turn s latest h =
      let kept =
        delete_some-keeps batch_size (is_expired hot turn.now) (λ r. not (is_expired hot latest r))
          s.keys (λ r young. ground (arith, young, is_expired_later hot turn.now latest r h)) in
      rw ((expire_batch_rows turn s).0)
        (elim (Bool-cases turn.query_fails) [ inl e ↦ rw e refl | inr e ↦ rw e kept ])

  after_batch-cases {ℓ} :
      (P : List KeyRow → Type ℓ) (turn : Turn) (s : Expiry) (n : ℕ) (fault : Option ExpireFault)
      (deleted : ℕ) (rest : Expiry × ℕ × Option ExpireFault)
      → P s.keys
      → P rest.0.keys
      → P (after_batch turn s n fault deleted rest).0.keys
  after_batch-cases P turn s n (some fault) deleted rest p q = p
  after_batch-cases P turn s n none deleted rest p q = elim (Bool-cases (ltb n batch_size)) [
    | inl e ↦ rw e p
    | inr e ↦ rw e (elim (Bool-cases turn.is_cancelled) [ inl f ↦ rw f p | inr f ↦ rw f q ])
  ]

  -- Whatever fails, a run of expiry deletes no key that is not expired at the time `latest`, if all of
  -- its batches start by then, and keeps the order of those that stay.
  pub expire_keys-keeps :
      (latest : ℕ) (turns : List Turn) (deleted : ℕ) (s : Expiry)
      → IsBy latest turns
      → select_where
          (λ r. not (is_expired hot latest r))
          (expire_keys hot has_results turns deleted s).0.keys
        ≡ select_where (λ r. not (is_expired hot latest r)) s.keys
  unfolding expire_keys
  expire_keys-keeps latest [] deleted s by = refl
  expire_keys-keeps latest (turn ∷ turns) deleted s (h, by) =
      let batch = expire_batch hot has_results turn s in
      let kept = expire_batch-keeps turn s latest h in
      after_batch-cases
        (λ keys.
          select_where (λ r. not (is_expired hot latest r)) keys
          ≡ select_where (λ r. not (is_expired hot latest r)) s.keys)
        turn batch.0 batch.1 batch.2 deleted
        (expire_keys hot has_results turns (deleted + batch.1) batch.0) kept
        (expire_keys-keeps latest turns (deleted + batch.1) batch.0 by ∙ kept)

  calm_fault :
      (turn : Turn) (s : Expiry)
      → turn.query_fails ≡ false
      → turn.delete_fails ≡ false
      → (expire_batch hot has_results turn s).2 ≡ none
  unfolding expire_batch
  calm_fault turn s e f =
      let refs = refs_of (delete_some batch_size (is_expired hot turn.now) s.keys).0 in
      elim (Bool-cases (has_results && not (is_empty refs))) [
        | inl g ↦ rw (e, g, f) refl
        | inr g ↦ rw (e, g) refl
      ]

  -- If nothing fails and the deadline leaves a turn for every thousand rows and one more, a run of
  -- expiry ends without a fault, and no key is left that was expired when it began.
  pub expire_keys_clears :
      (t : ℕ) (turns : List Turn) (deleted : ℕ) (s : Expiry)
      → IsCalm t turns
      → length s.keys < 1000 * length turns
      → ((expire_keys hot has_results turns deleted s).2 ≡ none)
        × (any (is_expired hot t) (expire_keys hot has_results turns deleted s).0.keys ≡ false)
  unfolding expire_keys expire_batch
  expire_keys_clears t [] deleted s calm h = absurd (omega (arith, h))
  expire_keys_clears t (turn ∷ turns) deleted s ((from, ran, removed, going), calm) h =
      let batch = delete_some batch_size (is_expired hot turn.now) s.keys in
      let fault = calm_fault turn s ran removed in
      let keys : (expire_batch hot has_results turn s).0.keys ≡ batch.1 =
        (expire_batch_rows turn s).0 ∙ ap (λ b. if b then s.keys else batch.1) ran in
      let count : (expire_batch hot has_results turn s).1 ≡ length batch.0 =
        (expire_batch_rows turn s).1 ∙ ap (λ b. if b then 0 else length batch.0) ran in
      elim (Bool-cases (ltb (length batch.0) batch_size)) [
        | inl e ↦
            rw (fault, count, e)
              (
                refl,
                rw keys (
                    any_weaker (is_expired hot t) (is_expired hot turn.now) batch.1
                      (λ r old. is_expired_later hot t turn.now r from old)
                      (delete_some-short batch_size (is_expired hot turn.now) s.keys
                        (ground (arith, e)))),
              )
        | inr e ↦
            rw (fault, count, e, going)
              (expire_keys_clears t turns _ _ calm (
                rw keys (
                  ground
                    (arith, e, h, length-delete_some batch_size (is_expired hot turn.now) s.keys))))
      ]

-- ===== src/Maintenance/Retire/Laws.antt =====
-- What retirement keeps: no partition is dropped that is not archived.
use idemio.Prelude.{
  String, Bool, true, false, not, ◌||◌, Option, none, some, List, [], ◌∷◌, ◌≡◌, refl, arith, ◌==◌,
  eq_iff, select_where, any, any-append, Bool-cases, inl, inr,
}
use idemio.Maintenance.Retire.{
  Retention, window_of, Partition, Storage, Archiver, is_nil_interface, archiver_of, RetireFault,
  Retired, RetireServer, has_name, expired, detach, drop_partition, store, Run, export, retire_each,
  continue, retire_tables, tables, retire_expired, maintain, panicked,
}

-- A partition is in the database or archived.
abbrev pub is_kept : String → Storage → Bool
is_kept n s = has_name n s.attached || (has_name n s.detached || any (λ m. m == n) s.archived)

eq_trans_false : (a b n : String) → (b == n) ≡ false → (a == b) ≡ true → (a == n) ≡ false
eq_trans_false a b n h e = let same : a ≡ b = (eq_iff a b).0 e in rw same h

-- Taking out the partitions of another name.
has_name_other :
    (n m : String) (ps : List Partition)
    → (m == n) ≡ false
    → has_name n (select_where (λ q. not (q.name == m)) ps) ≡ has_name n ps
unfolding select_where any
has_name_other n m [] h = refl
has_name_other n m (p ∷ ps) h = ground (arith, eq_trans_false p.name m n h, has_name_other n m ps h)

detach-keeps :
    (n : String) (p : Partition) (s : Storage) → is_kept n s ≡ true → is_kept n (detach p s) ≡ true
unfolding detach any
detach-keeps n p s h = elim (Bool-cases (p.name == n)) [
  | inl e ↦ ground (arith, e, any-append (λ (q : Partition). q.name == n) s.detached (p ∷ []))
  | inr e ↦ ground (
    arith,
    h,
    has_name_other n p.name s.attached e,
    any-append (λ (q : Partition). q.name == n) s.detached (p ∷ []),
  )
]

store-keeps :
    (n : String) (p : Partition) (s : Storage) → is_kept n s ≡ true → is_kept n (store p s) ≡ true
unfolding store any
store-keeps n p s h = ground (arith, h, any-append (λ m. m == n) s.archived (p.name ∷ []))

drop-keeps :
    (n : String) (p : Partition) (s : Storage)
    → is_kept n s ≡ true
    → is_kept n (drop_partition p (store p s)) ≡ true
unfolding drop_partition store any
drop-keeps n p s h = elim (Bool-cases (p.name == n)) [
  | inl e ↦ ground (arith, e, any-append (λ m. m == n) s.archived (p.name ∷ []))
  | inr e ↦ ground (
    arith,
    h,
    has_name_other n p.name s.detached e,
    any-append (λ m. m == n) s.archived (p.name ∷ []),
  )
]

-- A run that keeps what its storage has.
abbrev Keeps : String → (Storage → Run) → Type 0
Keeps n next = (s : Storage) → is_kept n s ≡ true → is_kept n (next s).0 ≡ true

export-Keeps :
    (n : String) (a : Archiver) (v : RetireServer) (p : Partition) (next : Storage → Run)
    → Keeps n next
    → Keeps n (λ s. export a v p s next)
unfolding export
export-Keeps n Archiver.nil_interface v p next keeps = λ s h. h
export-Keeps n Archiver.nil_pointer v p next keeps = λ s h. h
export-Keeps n Archiver.archive v p next keeps = λ s h. elim (Bool-cases (v.export_fails p.name)) [
  | inl e ↦ rw e (keeps s h)
  | inr e ↦ elim (Bool-cases (v.drop_fails p.name)) [
    | inl f ↦ rw (e, f) (store-keeps n p s h)
    | inr f ↦ rw (e, f) (keeps (drop_partition p (store p s)) (drop-keeps n p s h))
  ]
]

retire_each-Keeps :
    (n : String) (a : Archiver) (v : RetireServer) (ps : List Partition)
    → Keeps n (retire_each a v ps)
unfolding retire_each
retire_each-Keeps n a v [] = λ s h. h
retire_each-Keeps n a v (p ∷ ps) = λ s h. elim (Bool-cases (is_nil_interface a)) [
  | inl e ↦ rw e (retire_each-Keeps n a v ps s h)
  | inr e ↦ elim (Bool-cases (v.detach_fails p.name)) [
    | inl f ↦ rw (e, f) h
    | inr f ↦
        rw (e, f)
          (export-Keeps n a v p (retire_each a v ps) (retire_each-Keeps n a v ps) (detach p s)
            (detach-keeps n p s h))
  ]
]

continue-Keeps :
    (n : String) (fault : Option RetireFault) (s : Storage) (retired : List Retired)
    (next : Storage → Run)
    → Keeps n next
    → is_kept n s ≡ true
    → is_kept n (continue fault s retired next).0 ≡ true
continue-Keeps n (some fault) s retired next keeps h = h
continue-Keeps n none s retired next keeps h = keeps s h

retire_tables-Keeps :
    (n : String) (a : Archiver) (v : RetireServer) (r : Retention) (ts : List String)
    → Keeps n (retire_tables a v r ts)
unfolding retire_tables
retire_tables-Keeps n a v r [] = λ s h. h
retire_tables-Keeps n a v r (t ∷ ts) = λ s h. elim (Bool-cases (v.list_fails t)) [
  | inl e ↦ rw e h
  | inr e ↦
      let run = retire_each a v (expired v (window_of r t) t s.attached) s in
      rw e (
        continue-Keeps n run.2 run.0 run.1 (retire_tables a v r ts) (retire_tables-Keeps n a v r ts)
          (retire_each-Keeps n a v (expired v (window_of r t) t s.attached) s h))
]

-- Whatever the archiver and whatever fails, a partition that is in the database or archived before a
-- run of maintenance is so after it: none is dropped that is not archived.
pub maintain-keeps :
    (n : String) (a : Archiver) (v : RetireServer) (r : Retention) (s : Storage)
    → is_kept n s ≡ true
    → is_kept n (maintain a v r s).0 ≡ true
unfolding maintain retire_expired
maintain-keeps n a v r s h = elim (Bool-cases (is_nil_interface a)) [
  | inl e ↦ rw e h
  | inr e ↦ rw e (retire_tables-Keeps n a v r tables s h)
]

-- Without object storage, the first partition of the intents that is past retention is detached, and
-- the run panics, unless listing or detaching fails.
pub maintain_unconfigured :
    (v : RetireServer) (r : Retention) (s : Storage) (p : Partition) (ps : List Partition)
    → v.list_fails "write_intents" ≡ false
    → v.detach_fails p.name ≡ false
    → expired v r.intents "write_intents" s.attached ≡ p ∷ ps
    → maintain (archiver_of false) v r s ≡ (detach p s, [], some panicked)
unfolding maintain retire_expired retire_tables retire_each export window_of
maintain_unconfigured v r s p ps listed detached old = rw (old, listed, detached) refl

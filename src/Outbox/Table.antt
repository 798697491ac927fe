-- ===== src/Outbox/Table.antt =====
-- The constraints of the table `integration_outbox`: ids are below the counter and differ, and so do
-- the keys. An update that keeps ids and keys keeps them.
use hidden_oasis_staff_payro.Common.{
  ℕ, ◌+◌, ◌<◌, ◌≡◌, ◌≢◌, refl, inl, inr, true, false, none, some, List, [], ◌∷◌, ◌++◌, map, All,
  arith, eq_text_iff, ◌==◌, Bool-cases,
}
use hidden_oasis_staff_payro.Outbox.Row.{
  Row, Outbox, Key, key_of, same_key, find_row, find_key, where_id,
}
use mathlib.Core.Option

pub same_key_refl : (k : Key) → same_key k k ≡ true
unfolding same_key
same_key_refl k = ground (
  arith,
  eq_text_iff k.destination k.destination,
  eq_text_iff k.external_source k.external_source,
  eq_text_iff k.external_id k.external_id,
)

pub eq_of_same_key : (a b : Key) → same_key a b ≡ true → a ≡ b
unfolding same_key
eq_of_same_key a b h = ground (
  arith,
  eq_text_iff a.destination b.destination,
  eq_text_iff a.external_source b.external_source,
  eq_text_iff a.external_id b.external_id,
)

-- No row of the list has the id or the key of `r`.
abbrev pub IsFresh : Row → List Row → Type 0
IsFresh r rows = All (λ s. (s.id ≢ r.id) × (same_key (key_of s) (key_of r) ≡ false)) rows

abbrev pub AreDistinct : List Row → Type 0
AreDistinct [] = Unit
AreDistinct (r ∷ rows) = IsFresh r rows × AreDistinct rows

abbrev pub AreBelow : ℕ → List Row → Type 0
AreBelow n rows = All (λ r. r.id < n) rows

pub record IsTable (o : Outbox) : Type 0 where
  pub distinct : AreDistinct o.rows
  pub below : AreBelow o.next_id o.rows

-- An update that leaves the id and the key of each row alone.
pub record KeepsKeys (f : Row → Row) : Type 0 where
  pub id_kept : (r : Row) → (f r).id ≡ r.id
  pub key_kept : (r : Row) → key_of (f r) ≡ key_of r

module _ {f : Row → Row} (k : KeepsKeys f) where
  IsFresh-map : (r : Row) (rows : List Row) → IsFresh r rows → IsFresh (f r) (map f rows)
  IsFresh-map r [] h = tt
  IsFresh-map r (s ∷ rows) h = (
    (rw (k.id_kept s, k.id_kept r) h.0.0, rw (k.key_kept s, k.key_kept r) h.0.1),
    IsFresh-map r rows h.1,
  )

  pub AreDistinct-map : (rows : List Row) → AreDistinct rows → AreDistinct (map f rows)
  AreDistinct-map [] h = tt
  AreDistinct-map (r ∷ rows) h = (IsFresh-map r rows h.0, AreDistinct-map rows h.1)

  pub AreBelow-map : (n : ℕ) (rows : List Row) → AreBelow n rows → AreBelow n (map f rows)
  AreBelow-map n [] h = tt
  AreBelow-map n (r ∷ rows) h = (rw (k.id_kept r) h.0, AreBelow-map n rows h.1)

  pub find_row-map :
      (i : ℕ) (rows : List Row) → find_row i (map f rows) ≡ Option.map f (find_row i rows)
  unfolding find_row
  find_row-map i [] = refl
  find_row-map i (r ∷ rows) = elim (Bool-cases (r.id == i)) [
    | inl e ↦ simp (k.id_kept, e)
    | inr e ↦ simp (k.id_kept, e) (find_row-map i rows)
  ]

  pub find_key-map :
      (q : Key) (rows : List Row) → find_key q (map f rows) ≡ Option.map f (find_key q rows)
  unfolding find_key
  find_key-map q [] = refl
  find_key-map q (r ∷ rows) = elim (Bool-cases (same_key (key_of r) q)) [
    | inl e ↦ simp (k.key_kept, e)
    | inr e ↦ simp (k.key_kept, e) (find_key-map q rows)
  ]

pub IsTable-map :
    {f : Row → Row}
    → KeepsKeys f
    → {o : Outbox} → IsTable o
    → IsTable (record o { rows = map f o.rows })
IsTable-map k {o} t = record {
  distinct = AreDistinct-map k o.rows t.distinct;
  below = AreBelow-map k o.next_id o.rows t.below;
}

pub id-find_row : (i : ℕ) (rows : List Row) {r : Row} → find_row i rows ≡ some r → r.id ≡ i
unfolding find_row
id-find_row i [] h = cc
id-find_row i (r ∷ rows) {r = s} h = ground (arith, id-find_row i rows {r = s})

pub key-find_key :
    (q : Key) (rows : List Row) {r : Row} → find_key q rows ≡ some r → same_key (key_of r) q ≡ true
unfolding find_key
key-find_key q [] h = cc
key-find_key q (r ∷ rows) {r = s} h = ground (arith, key-find_key q rows {r = s})

-- A row appended at the end is found only where nothing was found before.
pub find_row-append :
    (i : ℕ) (rows : List Row) (s : Row)
    → find_row i (rows ++ s ∷ [])
      ≡ elim (find_row i rows) [ none ↦ find_row i (s ∷ []) | some r ↦ some r ]
unfolding find_row
find_row-append i [] s = refl
find_row-append i (r ∷ rows) s = ground (arith, find_row-append i rows s)

pub find_key-append :
    (q : Key) (rows : List Row) (s : Row)
    → find_key q (rows ++ s ∷ [])
      ≡ elim (find_key q rows) [ none ↦ find_key q (s ∷ []) | some r ↦ some r ]
unfolding find_key
find_key-append q [] s = refl
find_key-append q (r ∷ rows) s = ground (arith, find_key-append q rows s)

same_key_sym : (a b : Key) → same_key a b ≡ false → same_key b a ≡ false
same_key_sym a b h = elim (Bool-cases (same_key b a)) [
  | inl e ↦ let back : same_key a b ≡ true = rw (eq_of_same_key b a e) (same_key_refl a) in cc
  | inr e ↦ e
]

IsFresh-append :
    (r : Row) (rows : List Row) (s : Row)
    → IsFresh r rows
    → s.id ≢ r.id
    → same_key (key_of r) (key_of s) ≡ false
    → IsFresh r (rows ++ s ∷ [])
IsFresh-append r [] s f n k = ((n, same_key_sym (key_of r) (key_of s) k), tt)
IsFresh-append r (q ∷ rows) s f n k = (f.0, IsFresh-append r rows s f.1 n k)

-- A row with a new id and a new key keeps the rows distinct.
pub AreDistinct-append :
    (rows : List Row) (s : Row)
    → AreDistinct rows
    → AreBelow s.id rows
    → find_key (key_of s) rows ≡ none
    → AreDistinct (rows ++ s ∷ [])
unfolding find_key
AreDistinct-append [] s d b h = (tt, tt)
AreDistinct-append (r ∷ rows) s d b h = elim (Bool-cases (same_key (key_of r) (key_of s))) [
  | inl e ↦ absurd (ground arith)
  | inr e ↦
      (IsFresh-append r rows s d.0 (omega arith) e, AreDistinct-append rows s d.1 b.1 (rw e at h))
]

pub AreBelow-append :
    (n : ℕ) (rows : List Row) (s : Row)
    → AreBelow n rows
    → s.id ≡ n
    → AreBelow (n + 1) (rows ++ s ∷ [])
AreBelow-append n [] s b h = ground arith
AreBelow-append n (r ∷ rows) s b h = (omega arith, AreBelow-append n rows s b.1 h)

-- An update of one row.
pub where_id-KeepsKeys : (i : ℕ) (f : Row → Row) → KeepsKeys f → KeepsKeys (where_id i f)
where_id-KeepsKeys i f k = record {
  id_kept = λ r. ground (arith, k.id_kept r);
  key_kept = λ r. ground (arith, k.key_kept r);
}

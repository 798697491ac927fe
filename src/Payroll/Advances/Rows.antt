-- ===== src/Payroll/Advances/Rows.antt =====
-- The table of advances: ids are primary keys, and the rows of a query are current.
use hidden_oasis_staff_payro.Common.{
  ℕ, ◌≡◌, ◌≢◌, refl, sym, Bool, some, List, [], ◌∷◌, map, select, arith, All, if_both, is_some,
  All-select,
}
use hidden_oasis_staff_payro.Payroll.Store.{Advance, find_advance, advance_where_id}
use hidden_oasis_staff_payro.Payroll.Advances.{
  insert_ordered, ordered, comes_before, is_deductible, deductible_advances,
}

-- No two advances have one id.
unfoldable pub AreDistinct : List Advance → Type 0
AreDistinct [] = Unit
AreDistinct (a ∷ advances) = All (λ b. a.id ≢ b.id) advances × AreDistinct advances

-- A row that a query returned is the one in the table.
abbrev pub IsCurrent : List Advance → Advance → Type 0
IsCurrent table a = find_advance a.id table ≡ some a

abbrev pub KeepsId : (Advance → Advance) → Type 0
KeepsId f = (a : Advance) → (f a).id ≡ a.id

module _ {κ} (P : Advance → Type κ) where
  All-insert : (a : Advance) (l : List Advance) → P a → All P l → All P (insert_ordered a l)
  unfolding insert_ordered
  All-insert a [] pa all = (pa, tt)
  All-insert a (b ∷ l) pa (pb, all) =
      if_both (All P) (comes_before a b) (pa, (pb, all)) (pb, All-insert a l pa all)

  All-ordered : (l : List Advance) → All P l → All P (ordered l)
  unfolding ordered
  All-ordered [] all = tt
  All-ordered (a ∷ l) (pa, all) = All-insert a (ordered l) pa (All-ordered l all)

insert-AreDistinct :
    (a : Advance) (l : List Advance)
    → All (λ b. a.id ≢ b.id) l
    → AreDistinct l
    → AreDistinct (insert_ordered a l)
unfolding insert_ordered AreDistinct
insert-AreDistinct a [] ne d = (tt, tt)
insert-AreDistinct a (b ∷ l) (ab, ne) (bl, d) =
    if_both AreDistinct (comes_before a b) ((ab, ne), (bl, d))
      (All-insert (λ c. b.id ≢ c.id) a l (λ e. ab (sym e)) bl, insert-AreDistinct a l ne d)

ordered-AreDistinct : (l : List Advance) → AreDistinct l → AreDistinct (ordered l)
unfolding ordered AreDistinct
ordered-AreDistinct [] d = tt
ordered-AreDistinct (a ∷ l) (ne, d) =
    insert-AreDistinct a (ordered l) (All-ordered (λ b. a.id ≢ b.id) l ne) (ordered-AreDistinct l d)

select-AreDistinct :
    (p : Advance → Bool) (l : List Advance) → AreDistinct l → AreDistinct (select p l)
unfolding AreDistinct
select-AreDistinct p [] d = tt
select-AreDistinct p (a ∷ l) (ne, d) =
    let rest = select-AreDistinct p l d in
    if_both AreDistinct (p a) (All-select (λ b. a.id ≢ b.id) p l ne, rest) rest

IsCurrent-behind :
    (a : Advance) (table : List Advance) (b : Advance)
    → (a.id ≢ b.id)
    → IsCurrent table b
    → IsCurrent (a ∷ table) b
unfolding find_advance
IsCurrent-behind a table b ne c = ground arith

All-IsCurrent : (table : List Advance) → AreDistinct table → All (IsCurrent table) table
unfolding AreDistinct find_advance
All-IsCurrent [] d = tt
All-IsCurrent (a ∷ table) (ne, d) = (ground arith, both table (All-IsCurrent table d) ne)
  where
    both :
        (l : List Advance)
        → All (IsCurrent table) l
        → All (λ b. a.id ≢ b.id) l
        → All (IsCurrent (a ∷ table)) l
    both [] c n = tt
    both (b ∷ l) (cb, c) (nb, n) = (IsCurrent-behind a table b nb cb, both l c n)

-- The rows of the query are current and distinct.
pub deductible-IsCurrent :
    (employee : ℕ) (table : List Advance)
    → AreDistinct table
    → All (IsCurrent table) (deductible_advances employee table)
      × AreDistinct (deductible_advances employee table)
unfolding deductible_advances
deductible-IsCurrent employee table d = (
  All-ordered (IsCurrent table) (select (is_deductible employee) table)
      (All-select (IsCurrent table) (is_deductible employee) table (All-IsCurrent table d)),
  ordered-AreDistinct (select (is_deductible employee) table)
      (select-AreDistinct (is_deductible employee) table d),
)

module _ (j : ℕ) (f : Advance → Advance) (keeps : KeepsId f) where
  ne_mapped :
      (a : Advance) (l : List Advance)
      → All (λ b. a.id ≢ b.id) l
      → All (λ b. (advance_where_id j f a).id ≢ b.id) (map (advance_where_id j f) l)
  ne_mapped a [] all = tt
  ne_mapped a (b ∷ l) (ne, all) = (ground (arith, keeps a, keeps b), ne_mapped a l all)

  pub update-AreDistinct :
      (l : List Advance) → AreDistinct l → AreDistinct (map (advance_where_id j f) l)
  unfolding AreDistinct
  update-AreDistinct [] d = tt
  update-AreDistinct (a ∷ l) (ne, d) = (ne_mapped a l ne, update-AreDistinct l d)

  pub find-update_ne :
      (i : ℕ) (l : List Advance)
      → i ≢ j
      → find_advance i (map (advance_where_id j f) l) ≡ find_advance i l
  unfolding find_advance
  find-update_ne i [] ne = refl
  find-update_ne i (a ∷ l) ne = ground (arith, keeps a, find-update_ne i l ne)

  pub find-update :
      (a : Advance) (l : List Advance)
      → find_advance j l ≡ some a
      → find_advance j (map (advance_where_id j f) l) ≡ some (f a)
  unfolding find_advance
  find-update a [] h = cc
  find-update a (b ∷ l) h = ground (arith, keeps b, find-update a l)

  pub update-is_some :
      (i : ℕ) (l : List Advance)
      → is_some (find_advance i (map (advance_where_id j f) l)) ≡ is_some (find_advance i l)
  unfolding find_advance
  update-is_some i [] = refl
  update-is_some i (a ∷ l) = ground (arith, keeps a, update-is_some i l)

pub find_advance-id :
    (i : ℕ) (l : List Advance) (a : Advance) → find_advance i l ≡ some a → a.id ≡ i
unfolding find_advance
find_advance-id i [] a h = cc
find_advance-id i (b ∷ l) a h = ground (arith, find_advance-id i l a)

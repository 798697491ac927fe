-- ===== src/Statutory/Sss/Lowest.antt =====
-- Which bracket of the table gives the shares.
use hidden_oasis_staff_payro.Common.{
  ℕ, ◌<◌, ◌≡◌, refl, inl, inr, leb, if◌then◌else◌, pos, true, false, Option, none, some, List, [],
  ◌∷◌, ◌++◌, select, All, arith, Bool-cases,
}
use hidden_oasis_staff_payro.Statutory.Sss.{
  SssBracket, covers, lower_of, lowest, shares_of, get_sss_share,
}

abbrev pub IsAbove : ℕ → SssBracket → Type 0
IsAbove m c = m < c.min_comp

abbrev IsAboveOrNone : ℕ → Option SssBracket → Type 0
IsAboveOrNone m none = Unit
IsAboveOrNone m (some c) = IsAbove m c

lower-IsAboveOrNone :
    (m : ℕ) (c : SssBracket) (o : Option SssBracket)
    → IsAbove m c
    → IsAboveOrNone m o
    → IsAboveOrNone m (lower_of c o)
unfolding lower_of
lower-IsAboveOrNone m c none above rest = above
lower-IsAboveOrNone m c (some d) above rest = elim (Bool-cases (leb c.min_comp d.min_comp)) [
  | inl first ↦ rw (first, if◌then◌else◌) above
  | inr later ↦ rw (later, if◌then◌else◌) rest
]

lowest-IsAboveOrNone :
    (m : ℕ) (l : List SssBracket) → All (IsAbove m) l → IsAboveOrNone m (lowest l)
unfolding lowest
lowest-IsAboveOrNone m [] all = tt
lowest-IsAboveOrNone m (c ∷ l) (above, all) =
    lower-IsAboveOrNone m c (lowest l) above (lowest-IsAboveOrNone m l all)

lower_of-below :
    (b : SssBracket) (o : Option SssBracket) → IsAboveOrNone b.min_comp o → lower_of b o ≡ some b
unfolding lower_of
lower_of-below b none above = refl
lower_of-below b (some c) above = ground arith

lower_of-above : (b c : SssBracket) → IsAbove b.min_comp c → lower_of c (some b) ≡ some b
unfolding lower_of
lower_of-above b c above = ground arith

lowest-select :
    (n : ℕ) (b : SssBracket) (front back : List SssBracket)
    → covers n b ≡ true
    → All (IsAbove b.min_comp) (select (covers n) front)
    → All (IsAbove b.min_comp) (select (covers n) back)
    → lowest (select (covers n) (front ++ b ∷ back)) ≡ some b
unfolding lowest
lowest-select n b [] back covered before after =
    rw (covered, if◌then◌else◌)
      (lower_of-below b (lowest (select (covers n) back))
        (lowest-IsAboveOrNone b.min_comp (select (covers n) back) after))
lowest-select n b (c ∷ front) back covered before after = elim (Bool-cases (covers n c)) [
  | inl here ↦
      let (above, rest) = rw (here, if◌then◌else◌) at before in
      let later = lowest-select n b front back covered rest after in
      rw (here, if◌then◌else◌) (rw later (lower_of-above b c above))
  | inr other ↦
      let rest = rw (other, if◌then◌else◌) at before in
      rw (other, if◌then◌else◌) (lowest-select n b front back covered rest after)
]

-- A positive salary takes the shares of the bracket that covers it, wherever it stands in the
-- table, if each other active bracket that covers the salary starts higher.
pub get_sss_share-lowest :
    (n : ℕ) (b : SssBracket) (front back : List SssBracket)
    → 0 < n
    → covers n b ≡ true
    → All (IsAbove b.min_comp) (select (covers n) front)
    → All (IsAbove b.min_comp) (select (covers n) back)
    → get_sss_share (front ++ b ∷ back) (pos n) ≡ shares_of (some b)
unfolding get_sss_share
get_sss_share-lowest n b front back positive covered before after =
    let earned : leb n 0 ≡ false = ground arith in
    rw (earned, if◌then◌else◌) (rw (lowest-select n b front back covered before after) refl)

-- ===== src/Statutory/Sss.antt =====
-- core/payroll_engine.py: `get_sss_share`. Amounts are in centavos.
pub mod Lowest
mod Tests
use hidden_oasis_staff_payro.Common.{
  ℕ, leb, if◌then◌else◌, ℤ, pos, negsuc, Bool, ◌&&◌, Option, none, some, List, [], ◌∷◌, select,
  value_or,
}

-- A row of `sss_contribution_table`.
pub record SssBracket : Type 0 where
  pub min_comp : ℕ
  pub max_comp : ℕ
  pub ee_share : ℕ
  pub er_share : ℕ
  pub ec_share : Option ℕ
  pub active : Bool

-- The WHERE clause.
unfoldable pub covers : ℕ → SssBracket → Bool
covers salary b = b.active && (leb b.min_comp salary && leb salary b.max_comp)

-- `ORDER BY min_comp LIMIT 1`
unfoldable pub lower_of : SssBracket → Option SssBracket → Option SssBracket
lower_of b none = some b
lower_of b (some c) = if leb b.min_comp c.min_comp then some b else some c

unfoldable pub lowest : List SssBracket → Option SssBracket
unfolding lower_of
lowest [] = none
lowest (b ∷ brackets) = lower_of b (lowest brackets)

-- Of the employee, of the employer, and of the employees' compensation.
abbrev pub Shares : Type 0
Shares = ℕ × ℕ × ℕ

abbrev pub shares_of : Option SssBracket → Shares
shares_of none = (0, 0, 0)
shares_of (some b) = (b.ee_share, b.er_share, value_or b.ec_share 0)

unfoldable pub get_sss_share : List SssBracket → ℤ → Shares
unfolding lowest covers
get_sss_share brackets (pos salary) =
    if leb salary 0 then (0, 0, 0) else shares_of (lowest (select (covers salary) brackets))
get_sss_share brackets (negsuc n) = (0, 0, 0)

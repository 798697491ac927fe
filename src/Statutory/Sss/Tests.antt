-- ===== src/Statutory/Sss/Tests.antt =====
-- A table of two brackets, the higher one first (core/payroll_engine.py).
use hidden_oasis_staff_payro.Common.{◌≡◌, refl, arith, true, some, none, [], ◌∷◌, pos}
use hidden_oasis_staff_payro.Statutory.Sss.{SssBracket, covers, lowest, lower_of, get_sss_share}
use hidden_oasis_staff_payro.Statutory.Sss.Lowest.{get_sss_share-lowest}

abbrev bracket_low : SssBracket
bracket_low = record {
  min_comp = 0;
  max_comp = 525000;
  ee_share = 25000;
  er_share = 50000;
  ec_share = none;
  active = true;
}

abbrev bracket_high : SssBracket
bracket_high = record {
  min_comp = 525000;
  max_comp = 575000;
  ee_share = 27500;
  er_share = 55000;
  ec_share = some 1000;
  active = true;
}

-- Above the last bracket nothing is due.
beyond_table : get_sss_share (bracket_high ∷ bracket_low ∷ []) (pos 600000) ≡ (0, 0, 0)
unfolding get_sss_share covers lowest lower_of
beyond_table = refl

covered : covers 525000 bracket_low ≡ true
unfolding covers
covered = refl

get_sss_share-lowest_example :
    get_sss_share (bracket_high ∷ bracket_low ∷ []) (pos 525000) ≡ (25000, 50000, 0)
unfolding covers
get_sss_share-lowest_example =
    get_sss_share-lowest 525000 bracket_low (bracket_high ∷ []) [] (ground arith) covered
      (ground arith, tt) tt

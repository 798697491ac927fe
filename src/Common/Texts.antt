-- ===== src/Common/Texts.antt =====
-- Text as the code compares it: `strip`, `lower` and equality, over code points. White space and
-- letters are those of ASCII; the constants that the code compares with are ASCII.
use Prim.Native.Char.{code}
use Prim.Native.String.{String}
use Prim.Native.Nat.{ℕ, zero, suc, ◌+◌, ◌/◌, ◌%◌}
use mathlib.Core.Path.{◌≡◌, refl}
use mathlib.Core.Logic.{◌↔◌}
use mathlib.Core.Bool.{Bool, true, false, ◌&&◌, ◌||◌}
use mathlib.Core.List.{List, [], ◌∷◌, ◌++◌}
use native.Mathlib.Omega.{arith}
use hidden_oasis_staff_payro.Common.Tests.{ltb, leb, ◌==◌, if◌then◌else◌}

abbrev pub Text : Type 0
Text = List ℕ

abbrev pub codes : String → Text
codes String.[] = []
codes (String.◌∷◌ c s) = code c ∷ codes s

unfoldable pub eq_text : Text → Text → Bool
eq_text [] [] = true
eq_text [] (_ ∷ _) = false
eq_text (_ ∷ _) [] = false
eq_text (a ∷ s) (b ∷ t) = (a == b) && eq_text s t

-- `s < t`
unfoldable pub ltb_text : Text → Text → Bool
ltb_text [] [] = false
ltb_text [] (_ ∷ _) = true
ltb_text (_ ∷ _) [] = false
ltb_text (a ∷ s) (b ∷ t) = ltb a b || ((a == b) && ltb_text s t)

unfoldable pub is_space : ℕ → Bool
is_space c = (c == 32) || (leb 9 c && leb c 13)

unfoldable pub lower_code : ℕ → ℕ
lower_code c = if leb b'A' c && leb c b'Z' then c + 32 else c

unfoldable pub lower : Text → Text
unfolding lower_code
lower [] = []
lower (c ∷ s) = lower_code c ∷ lower s

unfoldable pub lstrip : Text → Text
unfolding is_space
lstrip [] = []
lstrip (c ∷ s) = let rest = lstrip s in if is_space c then rest else c ∷ s

-- A space stays where text follows it.
abbrev keep_inner : ℕ → Text → Text
keep_inner c [] = if is_space c then [] else c ∷ []
keep_inner c (d ∷ s) = c ∷ d ∷ s

unfoldable pub rstrip : Text → Text
unfolding is_space
rstrip [] = []
rstrip (c ∷ s) = keep_inner c (rstrip s)

unfoldable pub is_empty : Text → Bool
is_empty [] = true
is_empty (_ ∷ _) = false

-- `value.startswith(part)`
unfoldable pub starts_with : Text → Text → Bool
starts_with [] s = true
starts_with (c ∷ part) [] = false
starts_with (c ∷ part) (d ∷ s) = (c == d) && starts_with part s

-- `part in value`
unfoldable pub has_part : Text → Text → Bool
unfolding starts_with
has_part part [] = starts_with part []
has_part part (c ∷ s) = starts_with part (c ∷ s) || has_part part s

-- `value.strip()`
unfoldable pub strip : Text → Text
unfolding lstrip rstrip
strip s = rstrip (lstrip s)

-- `value.strip().lower()`
unfoldable pub normalized : Text → Text
unfolding strip lower
normalized s = lower (strip s)

abbrev pub add_letter : ℕ → List Text → List Text
add_letter c [] = (c ∷ []) ∷ []
add_letter c (w ∷ words) = (c ∷ w) ∷ words

abbrev pub new_word : List Text → List Text
new_word ([] ∷ words) = [] ∷ words
new_word words = [] ∷ words

abbrev pub drop_blank : List Text → List Text
drop_blank ([] ∷ words) = words
drop_blank words = words

-- The words of a text, behind an empty one where the text opens with a space.
unfoldable pub split_words : Text → List Text
unfolding is_space
split_words [] = []
split_words (c ∷ s) =
    let rest = split_words s in if is_space c then new_word rest else add_letter c rest

-- `separator.join(words)`
unfoldable pub join_words : ℕ → List Text → Text
join_words separator [] = []
join_words separator (w ∷ []) = w
join_words separator (w ∷ v ∷ words) = w ++ separator ∷ join_words separator (v ∷ words)

pub eq_text_iff : (s t : Text) → (eq_text s t ≡ true) ↔ (s ≡ t)
unfolding eq_text
eq_text_iff [] [] = ground arith
eq_text_iff [] (b ∷ t) = ground arith
eq_text_iff (a ∷ s) [] = ground arith
eq_text_iff (a ∷ s) (b ∷ t) = ground (arith, eq_text_iff s t)

pub eq_text_refl : (s : Text) → eq_text s s ≡ true
eq_text_refl s = (eq_text_iff s s).1 refl

normalized_status : normalized (codes "  Already Applied ") ≡ codes "already applied"
unfolding normalized
normalized_status = refl

-- `str(n)` of a number, on fuel.
abbrev digits : ℕ → ℕ → Text
digits zero n = []
digits (suc fuel) n =
    let rest = digits fuel (n / 10) in
    if ltb n 10 then (b'0' + n) ∷ [] else rest ++ (b'0' + n % 10) ∷ []

unfoldable pub number_text : ℕ → Text
number_text n = digits (suc n) n

-- `value.replace(a, b)` for two characters
unfoldable pub replace_code : ℕ → ℕ → Text → Text
replace_code a b [] = []
replace_code a b (c ∷ s) = (if c == a then b else c) ∷ replace_code a b s

-- ===== src/Tags/Numbers.antt =====
-- src/utils/query_utils.c: whether the number behind a tag lies in a range, with `atoi`. `none` is a
-- fault, also the overflow of an `int`.
pub mod Range
use miqs.Prelude.{
  ℕ, ◌+◌, ◌-◌, ◌*◌, Bool, true, false, ◌&&◌, ◌||◌, Option, none, some, [], ◌∷◌, Bytes, ◌==◌, ltb,
  leb, if◌then◌else◌, ◌>>=◌,
}
use mathlib.Core.Option
use miqs.Strings.{text_at}
use miqs.Tags.{get_value, k_v_matches_p, has_tag_p, is_value_match_p}

-- The value of an `int`: `pos n` is n, `negsuc n` is -n-1.
pub data ℤ : Type 0 where
  pos negsuc : ℕ → ℤ

abbrev pub le_int : ℤ → ℤ → Bool
le_int (pos a) (pos b) = leb a b
le_int (pos a) (negsuc b) = false
le_int (negsuc a) (pos b) = true
le_int (negsuc a) (negsuc b) = leb b a

abbrev pub is_digit : ℕ → Bool
is_digit b = leb 48 b && leb b 57

-- The number of the digits at the front, behind those read so far.
unfoldable pub read_digits : ℕ → Bytes → ℕ
read_digits n [] = n
read_digits n (b ∷ str) =
    let rest = read_digits (n * 10 + (b - 48)) str in if is_digit b then rest else n

unfoldable pub skip_space : Bytes → Bytes
skip_space [] = []
skip_space (b ∷ str) =
    let rest = skip_space str in if (b == 32) || (leb 9 b && leb b 13) then rest else b ∷ str

unfoldable pub positive : ℕ → Option ℤ
positive n = if ltb n 2147483648 then some (pos n) else none

unfoldable pub negative : ℕ → Option ℤ
negative n =
    if n == 0 then some (pos 0) else if leb n 2147483648 then some (negsuc (n - 1)) else none

unfoldable pub signed_number : Bytes → Option ℤ
unfolding read_digits positive negative
signed_number [] = some (pos 0)
signed_number (b ∷ str) =
    if b == 45
    then negative (read_digits 0 str)
    else if b == 43
    then positive (read_digits 0 str)
    else positive (read_digits 0 (b ∷ str))

unfoldable pub atoi : Bytes → Option ℤ
unfolding skip_space signed_number
atoi str = signed_number (skip_space str)

module _ (behind : Bytes → Bytes) where
  unfoldable pub has_tag : Option Bytes → Option Bytes → Option Bool
  unfolding has_tag_p
  has_tag tagslist tagname = has_tag_p behind tagslist tagname

  unfoldable pub is_value_match : Option Bytes → Option Bytes → Option Bytes → Option Bool
  unfolding is_value_match_p
  is_value_match tagslist tagname val = is_value_match_p behind tagslist tagname val

  -- `atoi` reads on behind the copy of the value, which has no terminator. A null pointer, also that
  -- of a list with no matching tag, is read all the same.
  unfoldable pub is_value_in_range : Option Bytes → Option Bytes → ℤ → ℤ → Option Bool
  unfolding atoi
  is_value_in_range tagslist tagname from to = do
    matched ← k_v_matches_p behind tagslist tagname none
    matched_kv ← matched
    found ← get_value matched_kv 61
    value ← found
    v ← atoi (text_at behind value)
    some (le_int from v && le_int v to)

-- ===== src/Tags/Numbers/Range.antt =====
-- The range check on a whole list of tags.
use Prim.Native.Nat.pow
use miqs.Prelude.{
  ℕ, ◌+◌, ◌-◌, ◌*◌, ◌^◌, ◌<◌, ◌≤◌, ◌≡◌, ◌≢◌, refl, ◌∙◌, true, false, ◌&&◌, ◌||◌, none, some, List,
  [], ◌∷◌, ◌++◌, Bytes, length, All, ltb, leb, ◌==◌, lt→ltb, arith,
}
use miqs.Strings.Matching.{text_at-exact}
use miqs.Tags.{pair_matches}
use miqs.Tags.Lists.{join_tags, IsTag, Passed, k_v_matches_p-join_tags}
use miqs.Tags.Numbers.{
  ℤ, pos, le_int, is_digit, read_digits, skip_space, signed_number, atoi, is_value_in_range,
}
use miqs.Tags.Pairs.{get_key_value, index_of-append}

abbrev pub IsDigit : ℕ → Type 0
IsDigit b = (48 ≤ b) × (b ≤ 57)

-- The number that a string of digits stands for.
unfoldable pub number_of : Bytes → ℕ
number_of [] = 0
number_of (b ∷ ds) = (b - 48) * 10 ^ length ds + number_of ds

shift : (n d p v : ℕ) → (n * 10 + d) * p + v ≡ n * (p * 10) + (d * p + v)
shift n d p v = omega arith

digit : (b : ℕ) → IsDigit b → is_digit b ≡ true
digit b (lo, hi) = ground arith

read_digits-number_of :
    (n : ℕ) (ds : Bytes) → All IsDigit ds → read_digits n ds ≡ n * 10 ^ length ds + number_of ds
unfolding read_digits number_of
read_digits-number_of n [] h = omega arith
read_digits-number_of n (b ∷ ds) (d, h) =
    rw (digit b d, read_digits-number_of (n * 10 + (b - 48)) ds h, pow.suc 10 (length ds))
      (shift n (b - 48) (10 ^ length ds) (number_of ds))

not_space : (b : ℕ) → IsDigit b → ((b == 32) || (leb 9 b && leb b 13)) ≡ false
not_space b (lo, hi) = ground arith

not_sign : (b c : ℕ) → IsDigit b → c < 48 → (b == c) ≡ false
not_sign b c (lo, hi) h = ground arith

atoi-digits :
    (ds : Bytes) → All IsDigit ds → number_of ds < 2147483648 → atoi ds ≡ some (pos (number_of ds))
unfolding atoi skip_space signed_number number_of
atoi-digits [] h small = refl
atoi-digits (b ∷ ds) (d, h) small =
    let fits : ltb (number_of (b ∷ ds)) 2147483648 ≡ true = lt→ltb _ _ small in
    let value : read_digits 0 (b ∷ ds) ≡ number_of (b ∷ ds) =
      read_digits-number_of 0 (b ∷ ds) (d, h) ∙ omega arith in
    rw (not_space b d, not_sign b 45 d (omega arith), not_sign b 43 d (omega arith), value)
      (rw fits refl)

no_zero : (ds : Bytes) → All IsDigit ds → All (λ b. b ≢ 0) ds
no_zero [] h = tt
no_zero (b ∷ ds) ((lo, hi), h) = (omega (arith, lo), no_zero ds h)

-- Of a list of tags with commas between them, none of which is empty or has a comma itself, where the
-- first tag that is a pair and whose key matches is a key with digits behind its delimiter, and their
-- number is an `int`, `is_value_in_range` says whether this number lies between the two bounds, each
-- included, also where a bound is negative, provided that the byte behind the copy of the digits is 0,
-- which the code does not see to. Where no tag matches it reads a null pointer.
pub is_value_in_range-join_tags :
    (behind : Bytes → Bytes) (pattern k ds : Bytes) (before after : List Bytes) (from to : ℤ)
    → All IsTag (before ++ (k ++ 61 ∷ ds) ∷ after)
    → All IsTag before
    → All (Passed behind pattern none) before
    → pair_matches behind (k ++ 61 ∷ ds) pattern none ≡ some true
    → All (λ b. b ≢ 61) k
    → All IsDigit ds
    → number_of ds < 2147483648
    → behind ds ≡ []
    → (is_value_in_range behind
          (some (join_tags (before ++ (k ++ 61 ∷ ds) ∷ after)))
          (some pattern)
          from
          to
        ≡ some (le_int from (pos (number_of ds)) && le_int (pos (number_of ds)) to))
      × (is_value_in_range behind (some (join_tags before)) (some pattern) from to ≡ none)
unfolding is_value_in_range
is_value_in_range-join_tags behind pattern k ds before after from to tags firsts passed matches key
      digits small zero_behind =
    let (found, missing) =
      k_v_matches_p-join_tags behind pattern none before (k ++ 61 ∷ ds) after (length k) tags firsts
        passed (index_of-append k ds 61 key) matches in
    let (_, value, _, _) = get_key_value k ds 61 key in
    (
      rw
          (
            found,
            value,
            text_at-exact behind ds (no_zero ds digits) zero_behind,
            atoi-digits ds digits small,
          )
          refl,
      rw missing refl,
    )

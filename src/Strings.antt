-- ===== src/Strings.antt =====
-- src/utils/string_utils.c: patterns with `*` at their ends, and parts of strings. A C string is given
-- with no terminator. `none` is a fault: memory that is not there is read or written.
pub mod Concat
pub mod Patterns
pub mod Words
pub mod Matching
use miqs.Prelude.{
  ℕ, zero, suc, ◌+◌, ◌-◌, Bool, true, false, not, Option, none, some, List, [], ◌∷◌, ◌++◌, Bytes,
  length, take, drop, replicate, ◌==◌, ltb, str_eq, if◌then◌else◌, ◌>>=◌,
}
use mathlib.Core.Option
use miqs.Storage.Fields.{c_str}

abbrev pub star : Bytes
star = 42 ∷ []

-- `pattern_type_t`
pub data PatternType : Type 0 where
  pattern_exact pattern_prefix pattern_suffix pattern_middle : PatternType

unfoldable pub is_prefix : Bytes → Bytes → Bool
is_prefix [] str = true
is_prefix (p ∷ ps) [] = false
is_prefix (p ∷ ps) (c ∷ cs) = if p == c then is_prefix ps cs else false

-- `strstr`: the position of the first occurrence.
unfoldable pub strstr : Bytes → Bytes → Option ℕ
unfolding is_prefix
strstr [] tok = if is_prefix tok [] then some 0 else none
strstr (c ∷ cs) tok =
    let rest = strstr cs tok in if is_prefix tok (c ∷ cs) then some 0 else Option.map suc rest

abbrev is_start : Option ℕ → Bool
is_start none = false
is_start (some i) = i == 0

unfoldable pub starts_with : Bytes → Bytes → Bool
unfolding strstr
starts_with str pre = is_start (strstr str pre)

unfoldable pub ends_with : Bytes → Bytes → Bool
ends_with str suf =
    if ltb (length str) (length suf) then false else str_eq (drop (length str - length suf) str) suf

abbrev is_found : Option ℕ → Bool
is_found none = false
is_found (some i) = true

unfoldable pub contains : Bytes → Bytes → Bool
unfolding strstr
contains str tok = is_found (strstr str tok)

unfoldable pub equals : Bytes → Bytes → Bool
equals str tok = str_eq tok str

unfoldable pub determine_pattern_type : Bytes → PatternType
unfolding starts_with ends_with
determine_pattern_type pattern =
    if starts_with pattern star
    then if ends_with pattern star then pattern_middle else pattern_suffix
    else if ends_with pattern star
    then pattern_prefix
    else pattern_exact

-- The bytes of the block that is allocated and filled: `strncpy` pads with 0 and adds no terminator.
unfoldable pub copy_block : ℕ → Bytes → Bytes
copy_block len source = take len source ++ replicate (len - length (take len source)) 0

abbrev end_or : Option ℕ → ℕ → ℕ
end_or none len = len
end_or (some end) len = end

-- A negative `end` is `none`; no caller hands in a negative `start`. An inner `none` is the null
-- pointer that is returned. A block of negative size cannot be allocated.
unfoldable pub substring : Bytes → ℕ → Option ℕ → Option (Option Bytes)
unfolding copy_block
substring [] start end = some none
substring (c ∷ cs) start end =
    let str = c ∷ cs in
    let last = end_or end (length str) in
    if ltb (length str + 1) last
    then some none
    else if ltb last start
    then none
    else some (some (copy_block (last - start) (drop start str)))

unfoldable pub substr : Bytes → ℕ → Option (Option Bytes)
unfolding substring
substr str start = substring str start none

unfoldable pub subrstr : Bytes → ℕ → Option (Option Bytes)
unfolding substring
subrstr str end = substring str 0 (some end)

-- `behind b` is what memory holds behind a block with the bytes `b`, up to the first 0.
module _ (behind : Bytes → Bytes) where
  -- The C string at the front of a block, which may run on behind it.
  unfoldable pub text_at : Bytes → Bytes
  text_at block = c_str (block ++ (behind block ++ 0 ∷ []))

  test_token : (Bytes → Bool) → Option Bytes → Bool
  unfolding text_at
  test_token test none = false
  test_token test (some block) = test (text_at block)

  unfoldable pub match_type : PatternType → Bytes → Bytes → Option Bool
  unfolding test_token
  match_type pattern_exact str pattern = some (equals str pattern)
  match_type pattern_prefix str pattern =
      Option.map (test_token (starts_with str)) (subrstr pattern (length pattern - 1))
  match_type pattern_suffix str pattern = Option.map (test_token (ends_with str)) (substr pattern 1)
  match_type pattern_middle str pattern =
      Option.map (test_token (contains str)) (substring pattern 1 (some (length pattern - 1)))

  -- Null pointers are `none`.
  unfoldable pub simple_matches : Option Bytes → Option Bytes → Option Bool
  unfolding match_type
  simple_matches none pattern = some false
  simple_matches (some str) none = some false
  simple_matches (some str) (some pattern) = match_type (determine_pattern_type pattern) str pattern

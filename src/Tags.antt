-- ===== src/Tags.antt =====
-- src/utils/query_utils.c: keys and values in a list of tags. A C string is given with no terminator;
-- `none` is a fault, an inner `none` a null pointer.
pub mod Pairs
pub mod Lists
pub mod Numbers
use miqs.Prelude.{
  ℕ, zero, suc, ◌+◌, Bool, true, false, ◌&&◌, Option, none, some, List, [], ◌∷◌, ◌++◌, Bytes, ◌==◌,
  if◌then◌else◌, ◌>>=◌,
}
use mathlib.Core.Option
use miqs.Strings.{substr, subrstr, text_at, simple_matches}

-- `indexOf`, with `strchr`; -1 is `none`.
unfoldable pub index_of : Bytes → ℕ → Option ℕ
index_of [] c = none
index_of (b ∷ str) c = let rest = index_of str c in if b == c then some 0 else Option.map suc rest

unfoldable pub get_key : Bytes → ℕ → Option (Option Bytes)
get_key kv_pair delim = elim (index_of kv_pair delim) [
  | none ↦ some none
  | some i ↦ subrstr kv_pair i
]

unfoldable pub get_value : Bytes → ℕ → Option (Option Bytes)
get_value kv_pair delim = elim (index_of kv_pair delim) [
  | none ↦ some none
  | some i ↦ substr kv_pair (i + 1)
]

abbrev add_token : Bytes → List Bytes → List Bytes
add_token [] tokens = tokens
add_token (b ∷ bs) tokens = (b ∷ bs) ∷ tokens

-- The tokens of `strtok`, none of them empty, behind the token read so far.
unfoldable pub tokens : ℕ → Bytes → Bytes → List Bytes
tokens delim current [] = add_token current []
tokens delim current (b ∷ str) =
    if b == delim
    then add_token current (tokens delim [] str)
    else tokens delim (current ++ b ∷ []) str

-- `behind` as in Strings.antt.
module _ (behind : Bytes → Bytes) where
  -- Whether the pair matches: the key only, or both where there is a pattern for the value.
  unfoldable pub pair_matches : Bytes → Bytes → Option Bytes → Option Bool
  unfolding get_key get_value
  pair_matches tag_kv key_pattern value_pattern = do
    key ← get_key tag_kv 61
    value ← get_value tag_kv 61
    is_key_matched ← simple_matches behind (Option.map (text_at behind) key) (some key_pattern)
    elim value_pattern [
      | none ↦ some is_key_matched
      | some pattern ↦
          Option.map (λ is_value_matched. is_key_matched && is_value_matched)
            (simple_matches behind (Option.map (text_at behind) value) (some pattern))
    ]

  abbrev has_delim : Option ℕ → Bool
  has_delim none = false
  has_delim (some i) = true

  unfoldable pub first_match : List Bytes → Bytes → Option Bytes → Option (Option Bytes)
  unfolding pair_matches
  first_match [] key_pattern value_pattern = some none
  first_match (tag_kv ∷ tags) key_pattern value_pattern =
      let rest = first_match tags key_pattern value_pattern in
      if has_delim (index_of tag_kv 61)
      then (pair_matches tag_kv key_pattern value_pattern >>= λ m.
          if m then some (some tag_kv) else rest)
      else rest

  -- The first pair of the list that matches. The delimiter of tags is a comma.
  unfoldable pub k_v_matches_p : Option Bytes → Option Bytes → Option Bytes → Option (Option Bytes)
  unfolding first_match tokens
  k_v_matches_p none key_pattern value_pattern = some none
  k_v_matches_p (some tagslist) none value_pattern = some none
  k_v_matches_p (some tagslist) (some key_pattern) value_pattern =
      first_match (tokens 44 [] tagslist) key_pattern value_pattern

  abbrev is_some : Option Bytes → Bool
  is_some none = false
  is_some (some b) = true

  unfoldable pub has_tag_p : Option Bytes → Option Bytes → Option Bool
  unfolding k_v_matches_p
  has_tag_p tagslist pattern = Option.map is_some (k_v_matches_p tagslist pattern none)

  unfoldable pub is_value_match_p : Option Bytes → Option Bytes → Option Bytes → Option Bool
  unfolding k_v_matches_p
  is_value_match_p tagslist tagname pattern =
      Option.map is_some (k_v_matches_p tagslist tagname pattern)

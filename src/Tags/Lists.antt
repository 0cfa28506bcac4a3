-- ===== src/Tags/Lists.antt =====
-- The matching of a whole list of tags.
use miqs.Prelude.{
  ℕ, ◌≡◌, ◌≢◌, ◌⊎◌, refl, sym, ap, ◌∙◌, inl, inr, Bool-cases, true, false, Option, none, some, List,
  [], ◌∷◌, ◌++◌, Bytes, ◌==◌, All, append-nil, append_assoc, arith,
}
use miqs.Tags.{index_of, tokens, add_token, pair_matches, has_delim, first_match, k_v_matches_p}

-- The tags with a comma between two of them.
pub join_tags : List Bytes → Bytes
join_tags [] = []
join_tags (t ∷ []) = t
join_tags (t ∷ u ∷ ts) = t ++ 44 ∷ join_tags (u ∷ ts)

-- A tag that `strtok` returns whole.
unfoldable pub IsTag : Bytes → Type 0
IsTag t = (t ≢ []) × All (λ b. b ≢ 44) t

is_other : (b d : ℕ) → b ≢ d → (b == d) ≡ false
is_other b d n = ground arith

tokens-append :
    (d : ℕ) (current t rest : Bytes)
    → All (λ b. b ≢ d) t
    → tokens d current (t ++ rest) ≡ tokens d (current ++ t) rest
unfolding tokens
tokens-append d current [] rest h = ap (λ c. tokens d c rest) (sym (append-nil current))
tokens-append d current (b ∷ t) rest (n, h) = rw (is_other b d n) (
    tokens-append d (current ++ b ∷ []) t rest h
    ∙ ap (λ c. tokens d c rest) (append_assoc current (b ∷ []) t))

add_token-tag : (t : Bytes) (ts : List Bytes) → t ≢ [] → add_token t ts ≡ t ∷ ts
add_token-tag [] ts h = absurd (h refl)
add_token-tag (b ∷ t) ts h = refl

tokens-join_tags : (tags : List Bytes) → All IsTag tags → tokens 44 [] (join_tags tags) ≡ tags
unfolding tokens join_tags IsTag
tokens-join_tags [] h = refl
tokens-join_tags (t ∷ []) ((n, h), hs) =
    ap (tokens 44 []) (sym (append-nil t)) ∙ tokens-append 44 [] t [] h ∙ add_token-tag t [] n
tokens-join_tags (t ∷ u ∷ ts) ((n, h), hs) =
    tokens-append 44 [] t (44 ∷ join_tags (u ∷ ts)) h
    ∙ add_token-tag t _ n
    ∙ ap (λ r. t ∷ r) (tokens-join_tags (u ∷ ts) hs)

module _ (behind : Bytes → Bytes) (key_pattern : Bytes) (value_pattern : Option Bytes) where
  -- A tag that is passed over: no pair, or one that does not match.
  unfoldable pub Passed : Bytes → Type 0
  Passed t = (index_of t 61 ≡ none) ⊎ (pair_matches behind t key_pattern value_pattern ≡ some false)

  first_match-append :
      (before rest : List Bytes)
      → All Passed before
      → first_match behind (before ++ rest) key_pattern value_pattern
        ≡ first_match behind rest key_pattern value_pattern
  unfolding first_match Passed
  first_match-append [] rest h = refl
  first_match-append (t ∷ before) rest (inl e, h) = rw e (first_match-append before rest h)
  first_match-append (t ∷ before) rest (inr e, h) =
      elim (Bool-cases (has_delim behind (index_of t 61))) [
        | inl f ↦ rw (f, e) (first_match-append before rest h)
        | inr f ↦ rw f (first_match-append before rest h)
      ]

  -- Of the tags of a list with commas between them, none of which is empty or has a comma itself,
  -- `k_v_matches_p` returns the first that is a pair and matches: all before it are no pairs or do not
  -- match. Where all tags of the list are of that kind it returns a null pointer.
  pub k_v_matches_p-join_tags :
      (before : List Bytes) (t : Bytes) (after : List Bytes) (i : ℕ)
      → All IsTag (before ++ t ∷ after)
      → All IsTag before
      → All Passed before
      → index_of t 61 ≡ some i
      → pair_matches behind t key_pattern value_pattern ≡ some true
      → (k_v_matches_p behind
            (some (join_tags (before ++ t ∷ after)))
            (some key_pattern)
            value_pattern
          ≡ some (some t))
        × (k_v_matches_p behind (some (join_tags before)) (some key_pattern) value_pattern
            ≡ some none)
  unfolding k_v_matches_p first_match
  k_v_matches_p-join_tags before t after i tags firsts passed pair matches = (
    rw (tokens-join_tags (before ++ t ∷ after) tags)
        (first_match-append before (t ∷ after) passed ∙ rw (pair, matches) refl),
    rw (tokens-join_tags before firsts) (
        ap (λ l. first_match behind l key_pattern value_pattern) (sym (append-nil before))
        ∙ first_match-append before [] passed),
  )

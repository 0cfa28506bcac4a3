-- ===== src/Strings/Matching.antt =====
-- `simple_matches` against what the four kinds of patterns mean.
use miqs.Prelude.{
  ℕ, ◌+◌, ◌-◌, ◌<◌, ◌≡◌, ◌≢◌, ◌↔◌, refl, sym, ap, ◌∙◌, Bool, true, false, none, some, [], ◌∷◌, ◌++◌,
  Bytes, length, length-append, drop, take-append_left, replicate, str_eq_iff, if◌then◌else◌, arith,
  append-nil, All,
}
use miqs.Storage.RoundTrip.{c_str-append_zero}
use miqs.Strings.{
  star, PatternType, pattern_exact, pattern_prefix, pattern_suffix, pattern_middle, starts_with,
  ends_with, contains, equals, determine_pattern_type, copy_block, substring, substr, subrstr,
  text_at, match_type, simple_matches,
}
use miqs.Strings.Patterns.{starts_with_iff, ends_with_iff, contains_iff}

-- A pattern by its kind, with what is left of it without the stars.
pub data Affix : Type 0 where
  exact_of prefix_of suffix_of middle_of : Bytes → Affix

abbrev pub pattern_text : Affix → Bytes
pattern_text (exact_of s) = s
pattern_text (prefix_of s) = s ++ star
pattern_text (suffix_of s) = star ++ s
pattern_text (middle_of s) = star ++ (s ++ star)

abbrev pub body : Affix → Bytes
body (exact_of s) = s
body (prefix_of s) = s
body (suffix_of s) = s
body (middle_of s) = s

abbrev pub Matches : Affix → Bytes → Type 0
Matches (exact_of s) str = str ≡ s
Matches (prefix_of s) str = (r : Bytes) × (str ≡ s ++ r)
Matches (suffix_of s) str = (l : Bytes) × (str ≡ l ++ s)
Matches (middle_of s) str = (l : Bytes) × (r : Bytes) × (str ≡ l ++ (s ++ r))

abbrev StartsNot : Bytes → Type 0
StartsNot s = (r : Bytes) → s ≢ star ++ r

abbrev EndsNot : Bytes → Type 0
EndsNot s = (l : Bytes) → s ≢ l ++ star

-- The text is read as a pattern of this kind.
abbrev pub IsAffix : Affix → Type 0
IsAffix (exact_of s) = StartsNot s × EndsNot s
IsAffix (prefix_of s) = (s ≢ []) × StartsNot s
IsAffix (suffix_of s) = (s ≢ []) × EndsNot s
IsAffix (middle_of s) = Unit {0}

abbrev kind : Affix → PatternType
kind (exact_of s) = pattern_exact
kind (prefix_of s) = pattern_prefix
kind (suffix_of s) = pattern_suffix
kind (middle_of s) = pattern_middle

not-true : (b : Bool) → ((b ≡ true) → ⊥) → b ≡ false
not-true true h = absurd (h refl)
not-true false h = refl

starts_false : (s : Bytes) → StartsNot s → starts_with s star ≡ false
starts_false s h = not-true _ (λ e. let (r, eq) = (starts_with_iff s star).0 e in h r eq)

ends_false : (s : Bytes) → EndsNot s → ends_with s star ≡ false
ends_false s h = not-true _ (λ e. let (l, eq) = (ends_with_iff s star).0 e in h l eq)

starts_true : (r : Bytes) → starts_with (star ++ r) star ≡ true
starts_true r = (starts_with_iff (star ++ r) star).1 (r, refl)

ends_true : (l : Bytes) → ends_with (l ++ star) star ≡ true
ends_true l = (ends_with_iff (l ++ star) star).1 (l, refl)

StartsNot-snoc : (s : Bytes) → s ≢ [] → StartsNot s → StartsNot (s ++ star)
StartsNot-snoc [] n h r e = n refl
StartsNot-snoc (c ∷ s) n h r e = h s cc

EndsNot-cons : (s : Bytes) → s ≢ [] → EndsNot s → EndsNot (star ++ s)
EndsNot-cons s n h [] e = n cc
EndsNot-cons s n h (c ∷ l) e = h l cc

determine_eq :
    (p : Bytes) (x y : Bool)
    → starts_with p star ≡ x
    → ends_with p star ≡ y
    → determine_pattern_type p ≡ (
        if x
        then (if y then pattern_middle else pattern_suffix)
        else (if y then pattern_prefix else pattern_exact))
unfolding determine_pattern_type
determine_eq p x y e f = rw (e, f) refl

determine_pattern_type-kind :
    (a : Affix) → IsAffix a → determine_pattern_type (pattern_text a) ≡ kind a
determine_pattern_type-kind (exact_of s) (st, en) =
    determine_eq s false false (starts_false s st) (ends_false s en)
determine_pattern_type-kind (prefix_of s) (n, st) =
    determine_eq (s ++ star) false true (starts_false (s ++ star) (StartsNot-snoc s n st))
      (ends_true s)
determine_pattern_type-kind (suffix_of s) (n, en) =
    determine_eq (star ++ s) true false (starts_true s)
      (ends_false (star ++ s) (EndsNot-cons s n en))
determine_pattern_type-kind (middle_of s) u =
    determine_eq (star ++ (s ++ star)) true true (starts_true (s ++ star)) (ends_true (star ++ s))

copy_block-exact : (s rest : Bytes) (n : ℕ) → length s ≡ n → copy_block n (s ++ rest) ≡ s
unfolding copy_block
copy_block-exact s rest n h =
    let z : n - n ≡ 0 = omega arith in
    rw (take-append_left n s rest h, h) (ap (λ k. s ++ replicate k 0) z ∙ append-nil s)

pub substring_at :
    (str : Bytes) (start end : ℕ) (s rest : Bytes)
    → 0 < length str
    → drop start str ≡ s ++ rest
    → length s + start ≡ end
    → end < length str + 2
    → substring str start (some end) ≡ some (some s)
unfolding substring
substring_at [] start end s rest h d l b = absurd (omega arith)
substring_at (c ∷ cs) start end s rest h d l b =
    let block : copy_block (end - start) (drop start (c ∷ cs)) ≡ s =
      ap (copy_block (end - start)) d ∙ copy_block-exact s rest (end - start) (omega arith) in
    ground (arith, block)

pub substr_eq :
    (str : Bytes) (start : ℕ) → substr str start ≡ substring str start (some (length str))
unfolding substr substring
substr_eq [] start = refl
substr_eq (c ∷ cs) start = refl

length-star : (s : Bytes) → length (s ++ star) ≡ length s + 1
length-star s = length-append s star

subrstr_prefix : (s : Bytes) → subrstr (s ++ star) (length (s ++ star) - 1) ≡ some (some s)
unfolding subrstr
subrstr_prefix s =
    substring_at (s ++ star) 0 _ s star (omega (arith, length-star s)) drop_zero
      (omega (arith, length-star s)) (omega (arith, length-star s))
  where
    drop_zero : drop 0 (s ++ star) ≡ s ++ star
    drop_zero = elim (s ++ star) [ [] ↦ refl | c ∷ cs ↦ refl ]

substr_suffix : (s : Bytes) → substr (star ++ s) 1 ≡ some (some s)
substr_suffix s =
    substr_eq (star ++ s) 1
    ∙ substring_at (star ++ s) 1 _ s [] (omega arith) (sym (append-nil s)) (omega arith)
        (omega arith)

substring_middle :
    (s : Bytes)
    → substring (star ++ (s ++ star)) 1 (some (length (star ++ (s ++ star)) - 1)) ≡ some (some s)
substring_middle s =
    substring_at (star ++ (s ++ star)) 1 _ s star (omega arith) refl (omega (arith, length-star s))
      (omega (arith, length-star s))

module _ (behind : Bytes → Bytes) where
  pub text_at-exact : (s : Bytes) → All (λ b. b ≢ 0) s → behind s ≡ [] → text_at behind s ≡ s
  unfolding text_at
  text_at-exact s t h = rw h (c_str-append_zero s [] t)

  match_type-Matches :
      (str : Bytes) (a : Affix)
      → All (λ b. b ≢ 0) (body a)
      → behind (body a) ≡ []
      → (b : Bool) × (match_type behind (kind a) str (pattern_text a) ≡ some b)
        × ((b ≡ true) ↔ Matches a str)
  unfolding match_type equals
  match_type-Matches str (exact_of s) t h =
      (equals str s, refl, (λ e. sym ((str_eq_iff s str).0 e), λ e. (str_eq_iff s str).1 (sym e)))
  match_type-Matches str (prefix_of s) t h =
      (starts_with str s, rw (subrstr_prefix s, text_at-exact s t h) refl, starts_with_iff str s)
  match_type-Matches str (suffix_of s) t h =
      (ends_with str s, rw (substr_suffix s, text_at-exact s t h) refl, ends_with_iff str s)
  match_type-Matches str (middle_of s) t h =
      (contains str s, rw (substring_middle s, text_at-exact s t h) refl, contains_iff str s)

  -- Where the byte behind the copy that is made of the pattern is 0, and the pattern's text holds no
  -- terminator, `simple_matches` on a string and a pattern of any of the four kinds returns, and says
  -- whether the string is the text, or starts with it, ends with it or contains it. A pattern's text
  -- is what is left without its stars; a prefix or suffix is not empty.
  pub simple_matches-Matches :
      (str : Bytes) (a : Affix)
      → IsAffix a
      → All (λ b. b ≢ 0) (body a)
      → behind (body a) ≡ []
      → (b : Bool) × (simple_matches behind (some str) (some (pattern_text a)) ≡ some b)
        × ((b ≡ true) ↔ Matches a str)
  unfolding simple_matches
  simple_matches-Matches str a ok t h =
      let (b, e, m) = match_type-Matches str a t h in
      (
        b,
        ap (λ k. match_type behind k str (pattern_text a)) (determine_pattern_type-kind a ok) ∙ e,
        m,
      )

  -- The pattern that is a single star is cut to a block of negative size: `simple_matches` faults on it
  -- for every string.
  simple_matches-star : (str : Bytes) → simple_matches behind (some str) (some star) ≡ none
  unfolding simple_matches match_type substring
  simple_matches-star str =
      ap (λ k. match_type behind k str star)
        (determine_eq star true true (starts_true []) (ends_true []))

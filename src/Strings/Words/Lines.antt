-- ===== src/Strings/Words/Lines.antt =====
-- The reading of a text file with a word on each line.
use miqs.Prelude.{
  ℕ, zero, suc, ◌+◌, ◌<◌, ◌≤◌, ◌≡◌, ◌≢◌, refl, ap, ◌∙◌, inl, inr, Bool-cases, true, false, some,
  List, [], ◌∷◌, ◌++◌, Bytes, length, length-append, length-replicate, get_elem?, take-append_left,
  replicate, All, append_assoc, ◌==◌, arith,
}
use miqs.Storage.Fields.{c_str}
use miqs.Strings.Words.{take_line, fgets, is_line_end, word_end, trimmed}

-- A byte of a word, and a line feed or carriage return.
abbrev pub IsLetter : ℕ → Type 0
IsLetter b = (b ≢ 0) × (b ≢ 10) × (b ≢ 13)

abbrev IsEnd : ℕ → Type 0
IsEnd b = is_line_end (some b) ≡ true

is_other : (b d : ℕ) → b ≢ d → (b == d) ≡ false
is_other b d n = ground arith

take_line-feed :
    (n : ℕ) (l rest : Bytes)
    → All (λ b. b ≢ 10) l
    → length l < n
    → take_line n (l ++ 10 ∷ rest) ≡ (l ++ 10 ∷ [], rest)
unfolding take_line
take_line-feed zero l rest h lt = absurd (omega (arith, lt))
take_line-feed (suc n) [] rest h lt = refl
take_line-feed (suc n) (b ∷ l) rest (ne, h) lt =
    rw (is_other b 10 ne, take_line-feed n l rest h (omega (arith, lt))) refl

pub letters_no_feed : (l : Bytes) → All IsLetter l → All (λ b. b ≢ 10) l
letters_no_feed [] h = tt
letters_no_feed (b ∷ l) ((_, ne, _), h) = (ne, letters_no_feed l h)

pub take_line-last :
    (n : ℕ) (l : Bytes) → All (λ b. b ≢ 10) l → length l ≤ n → take_line n l ≡ (l, [])
unfolding take_line
take_line-last zero [] h le = refl
take_line-last zero (b ∷ l) h le = absurd (omega (arith, le))
take_line-last (suc n) [] h le = refl
take_line-last (suc n) (b ∷ l) (ne, h) le =
    rw (is_other b 10 ne, take_line-last n l h (omega (arith, le))) refl

c_str_eq : (s : Bytes) → All (λ b. b ≢ 0) s → c_str s ≡ s
unfolding c_str
c_str_eq [] h = refl
c_str_eq (b ∷ s) (n, h) = ground (arith, c_str_eq s h)

is_letter : (b : ℕ) → IsLetter b → is_line_end (some b) ≡ false
is_letter b (_, feed, return) = rw (is_other b 10 feed, is_other b 13 return) refl

-- From the front: where the rest of the line has no letter, the first byte decides.
word_end-cons :
    (b : ℕ) (line : Bytes) (n : ℕ)
    → word_end (b ∷ line) (suc n)
      ≡ elim (word_end line n) [ zero ↦ word_end (b ∷ line) 1 | suc k ↦ suc (suc k) ]
unfolding word_end
word_end-cons b line zero = refl
word_end-cons b line (suc n) = elim (Bool-cases (is_line_end (get_elem? line n))) [
  | inl e ↦ rw e (word_end-cons b line n)
  | inr e ↦ rw e refl
]

word_end-ends : (e : Bytes) → All IsEnd e → word_end e (length e) ≡ 0
unfolding word_end
word_end-ends [] h = refl
word_end-ends (b ∷ e) (x, h) = rw (word_end-cons b e (length e), word_end-ends e h, x) refl

word_end-append :
    (l e : Bytes) → All IsLetter l → All IsEnd e → word_end (l ++ e) (length (l ++ e)) ≡ length l
unfolding word_end
word_end-append [] e h he = word_end-ends e he
word_end-append (b ∷ []) e (n, h) he =
    rw (word_end-cons b e (length e), word_end-ends e he, is_letter b n) refl
word_end-append (b ∷ x ∷ l) e (n, h) he =
    rw (word_end-cons b (x ∷ l ++ e) (length (x ∷ l ++ e)), word_end-append (x ∷ l) e h he) refl

end_not_zero : (b : ℕ) → IsEnd b → b ≢ 0
end_not_zero b h = ground arith

no_zero : (l e : Bytes) → All IsLetter l → All IsEnd e → All (λ b. b ≢ 0) (l ++ e)
no_zero [] [] h he = tt
no_zero [] (b ∷ e) h (x, he) = (end_not_zero b x, no_zero [] e h he)
no_zero (b ∷ l) e ((n, _, _), h) he = (n, no_zero l e h he)

pub trimmed-append : (l e : Bytes) → All IsLetter l → All IsEnd e → trimmed (l ++ e) ≡ l
unfolding trimmed
trimmed-append l e h he =
    rw (c_str_eq (l ++ e) (no_zero l e h he), word_end-append l e h he)
      (take-append_left (length l) l e refl)

-- Words, each with the number of carriage returns before its line feed, and a last one, which is not
-- there or has no line feed.
unfoldable pub lines_text : List (Bytes × ℕ) → Bytes → Bytes
lines_text [] last = last
lines_text ((l, n) ∷ ls) last = (l ++ replicate n 13) ++ 10 ∷ lines_text ls last

abbrev pub final_word : Bytes → List Bytes
final_word [] = []
final_word (b ∷ l) = (b ∷ l) ∷ []

-- A word that `fgets` reads with its line end as one line.
abbrev pub IsLine : Bytes × ℕ → Type 0
IsLine (l, n) = All IsLetter l × (length l + n < 510)

fgets_eq : (l rest : Bytes) → fgets 511 (l ++ 10 ∷ rest) ≡ some (take_line 510 (l ++ 10 ∷ rest))
unfolding fgets
fgets_eq [] rest = refl
fgets_eq (b ∷ l) rest = refl

no_feed : (l : Bytes) (n : ℕ) → All IsLetter l → All (λ b. b ≢ 10) (l ++ replicate n 13)
no_feed [] zero h = tt
no_feed [] (suc n) h = (omega arith, no_feed [] n h)
no_feed (b ∷ l) n ((_, ne, _), h) = (ne, no_feed l n h)

ends : (n : ℕ) → All IsEnd (replicate n 13 ++ 10 ∷ [])
ends zero = (refl, tt)
ends (suc n) = (refl, ends n)

-- `fgets` reads a word with its line end.
pub fgets-line :
    (l : Bytes) (n : ℕ) (rest : Bytes)
    → IsLine (l, n)
    → (line : Bytes) × (fgets 511 ((l ++ replicate n 13) ++ 10 ∷ rest) ≡ some (line, rest))
      × (trimmed line ≡ l)
fgets-line l n rest (h, lt) =
    let short : length (l ++ replicate n 13) < 510 =
      rw (length-append l (replicate n 13), length-replicate {A = ℕ} n 13) lt in
    (
      (l ++ replicate n 13) ++ 10 ∷ [],
      fgets_eq (l ++ replicate n 13) rest
          ∙ ap some (take_line-feed 510 (l ++ replicate n 13) rest (no_feed l n h) short),
      rw (append_assoc l (replicate n 13) (10 ∷ [])) (trimmed-append l _ h (ends n)),
    )

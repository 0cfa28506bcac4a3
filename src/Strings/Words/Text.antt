-- ===== src/Strings/Words/Text.antt =====
-- The whole loop over a text file with a word on each line.
use mathlib.Core.Option
use miqs.Prelude.{
  ℕ, zero, suc, ◌+◌, ◌*◌, ◌<◌, ◌≤◌, ◌≡◌, refl, sym, ap, ◌∙◌, inl, inr, Bool-cases, true, none, some,
  List, [], ◌∷◌, ◌++◌, map, Bytes, length, length-append, lt→ltb, replicate, All, append-nil,
  append_assoc, ltb, leb, arith,
}
use miqs.Strings.Words.{
  fgets, trimmed, more_lines, word_loop, exited, word_list, read_words_from_text,
}
use miqs.Strings.Words.Lines.{
  IsLetter, IsLine, lines_text, final_word, fgets-line, take_line-last, letters_no_feed,
  trimmed-append,
}

more_lines-room :
    (i lines_allocated : ℕ)
    → i ≤ lines_allocated
    → 0 < lines_allocated
    → i < 1073741824
    → (size : ℕ) × (more_lines i lines_allocated ≡ some size) × (i < size)
unfolding more_lines
more_lines-room i lines_allocated h pos small = elim (Bool-cases (leb lines_allocated i)) [
  | inl e ↦
      let full : lines_allocated ≤ i = ground arith in
      let fits : ltb (lines_allocated * 2) 2147483648 ≡ true = lt→ltb _ _ (omega arith) in
      (lines_allocated * 2, rw (e, fits) refl, omega arith)
  | inr e ↦ (lines_allocated, rw e refl, ground arith)
]

-- One round of the loop that is not at the end of the file.
word_loop-line :
    (fuel i lines_allocated : ℕ) (file line rest : Bytes) (words : List Bytes)
    → i ≡ length words
    → i ≤ lines_allocated
    → 0 < lines_allocated
    → i < 1073741824
    → fgets 511 file ≡ some (line, rest)
    → (size : ℕ) × (i < size)
      × (word_loop (suc fuel) file i lines_allocated words
          ≡ word_loop fuel rest (i + 1) size (words ++ trimmed line ∷ []))
unfolding word_loop
word_loop-line fuel i lines_allocated file line rest words eq h pos small e =
    let (size, more, lt) = more_lines-room i lines_allocated h pos small in
    let fits : ltb (length words) size ≡ true = lt→ltb _ _ (omega (arith, lt, eq)) in
    (size, lt, rw (more, word_loop, fits, e) refl)

word_loop-end :
    (fuel i lines_allocated : ℕ) (words : List Bytes)
    → i ≡ length words
    → i ≤ lines_allocated
    → 0 < lines_allocated
    → i < 1073741824
    → word_loop (suc fuel) [] i lines_allocated words ≡ some (length words, words)
unfolding word_loop fgets
word_loop-end fuel i lines_allocated words eq h pos small =
    let (size, more, lt) = more_lines-room i lines_allocated h pos small in
    let fits : ltb (length words) size ≡ true = lt→ltb _ _ (omega (arith, lt, eq)) in
    rw (more, word_loop, fits) refl

length-snoc : (words : List Bytes) (w : Bytes) → length (words ++ w ∷ []) ≡ length words + 1
length-snoc words w = length-append words (w ∷ [])

fgets-last :
    (b : ℕ) (l : Bytes)
    → All IsLetter (b ∷ l)
    → length (b ∷ l) ≤ 510
    → fgets 511 (b ∷ l) ≡ some (b ∷ l, [])
unfolding fgets
fgets-last b l h le = ap some (take_line-last 510 (b ∷ l) (letters_no_feed (b ∷ l) h) le)

word_loop-last :
    (fuel i lines_allocated : ℕ) (last : Bytes) (words : List Bytes)
    → i ≡ length words
    → i ≤ lines_allocated
    → 0 < lines_allocated
    → i + 1 < 1073741824
    → length last + 1 ≤ fuel
    → All IsLetter last
    → length last ≤ 510
    → word_loop fuel last i lines_allocated words
      ≡ some (length (words ++ final_word last), words ++ final_word last)
word_loop-last zero i a last words eq h pos small enough letters short =
    absurd (omega (arith, enough))
word_loop-last (suc fuel) i a [] words eq h pos small enough letters short =
    rw (append-nil words) (word_loop-end fuel i a words eq h pos (omega arith))
word_loop-last (suc zero) i a (b ∷ l) words eq h pos small enough letters short =
    absurd (omega (arith, enough))
word_loop-last (suc (suc fuel)) i a (b ∷ l) words eq h pos small enough letters short =
    let (size, lt, round) =
      word_loop-line (suc fuel) i a (b ∷ l) (b ∷ l) [] words eq h pos (omega arith)
        (fgets-last b l letters short) in
    let word : trimmed (b ∷ l) ≡ b ∷ l =
      ap trimmed (sym (append-nil (b ∷ l))) ∙ trimmed-append (b ∷ l) [] letters tt in
    round
    ∙ ap (λ w. word_loop (suc fuel) [] (i + 1) size (words ++ w ∷ [])) word
    ∙ word_loop-end fuel (i + 1) size _ (omega (arith, length-snoc words (b ∷ l), eq)) (omega arith)
        (omega arith) small

word_loop-lines :
    (ls : List (Bytes × ℕ)) (fuel i lines_allocated : ℕ) (last : Bytes) (words : List Bytes)
    → i ≡ length words
    → i ≤ lines_allocated
    → 0 < lines_allocated
    → i + length ls + 1 < 1073741824
    → length ls + length last + 1 ≤ fuel
    → All IsLine ls
    → All IsLetter last
    → length last ≤ 510
    → word_loop fuel (lines_text ls last) i lines_allocated words
      ≡ some (
        length (words ++ (map (λ w. w.0) ls ++ final_word last)),
        words ++ (map (λ w. w.0) ls ++ final_word last),
      )
unfolding lines_text
word_loop-lines [] fuel i a last words eq h pos small enough lines letters short =
    word_loop-last fuel i a last words eq h pos (omega (arith, small)) (omega (arith, enough))
      letters short
word_loop-lines (x ∷ ls) zero i a last words eq h pos small enough lines letters short =
    absurd (omega (arith, enough))
word_loop-lines ((l, n) ∷ ls) (suc fuel) i a last words eq h pos small enough (line, lines) letters
      short =
    let (text, read, word) = fgets-line l n (lines_text ls last) line in
    let (size, lt, round) =
      word_loop-line fuel i a _ text (lines_text ls last) words eq h pos (omega arith) read in
    let others =
      word_loop-lines ls fuel (i + 1) size last (words ++ l ∷ [])
        (omega (arith, length-snoc words l, eq)) (omega arith) (omega arith) (omega arith)
        (omega arith) lines letters short in
    round
    ∙ ap (λ w. word_loop fuel (lines_text ls last) (i + 1) size (words ++ w ∷ [])) word
    ∙ others
    ∙ ap (λ ws. some (length ws, ws)) (append_assoc words (l ∷ []) _)

length-lines_text :
    (ls : List (Bytes × ℕ)) (last : Bytes) → length ls + length last ≤ length (lines_text ls last)
unfolding lines_text
length-lines_text [] last = omega arith
length-lines_text ((l, n) ∷ ls) last =
    rw (length-append (l ++ replicate n 13) (10 ∷ lines_text ls last))
      (omega (arith, length-lines_text ls last))

-- Of a text of words with no 0, line feed or carriage return, each with some carriage returns and a line
-- feed behind it, and a last one with no line end, or none, all of at most 510 bytes with their line
-- ends, `read_words_from_text` returns exactly the words in order, and their number, for fewer than
-- 2^30 words. Where there is no file it exits with the code 4.
pub read_words-lines_text :
    (ls : List (Bytes × ℕ)) (last : Bytes)
    → All IsLine ls
    → All IsLetter last
    → length last ≤ 510
    → length ls + 1 < 1073741824
    → (read_words_from_text (some (lines_text ls last))
        ≡ some (
            word_list
              (length (map (λ w. w.0) ls ++ final_word last))
              (map (λ w. w.0) ls ++ final_word last)))
      × (read_words_from_text none ≡ some (exited 4))
unfolding read_words_from_text word_loop
read_words-lines_text ls last lines letters short small = (
  ap (Option.map (λ (count, words). word_list count words)) (
      word_loop-lines ls (suc (length (lines_text ls last))) 0 128 last [] refl (omega arith)
        (omega arith) (omega arith) (omega (arith, length-lines_text ls last)) lines letters short),
  refl,
)

-- ===== src/Strings/Words.antt =====
-- src/utils/string_utils.c: `read_words_from_text`, the words of a text file with one on each line, and
-- `str_append`. Memory does not run out. `none` is a fault, or a loop that has not ended.
pub mod Lines
pub mod Text
use miqs.Prelude.{
  ℕ, zero, suc, ◌+◌, ◌-◌, ◌*◌, Bool, true, false, ◌||◌, Option, none, some, List, [], ◌∷◌, ◌++◌,
  Bytes, length, get_elem?, take, ◌==◌, ltb, leb, if◌then◌else◌, ◌>>=◌,
}
use mathlib.Core.Option
use miqs.Storage.Fields.{c_str}

-- At most `n` bytes of the stream, up to a line feed, and what is behind them.
unfoldable pub take_line : ℕ → Bytes → Bytes × Bytes
take_line zero stream = ([], stream)
take_line (suc n) [] = ([], [])
take_line (suc n) (b ∷ stream) =
    let (line, rest) = take_line n stream in if b == 10 then (10 ∷ [], stream) else (b ∷ line, rest)

-- The null pointer at the end of the file is `none`.
unfoldable pub fgets : ℕ → Bytes → Option (Bytes × Bytes)
unfolding take_line
fgets size [] = none
fgets size (b ∷ stream) = some (take_line (size - 1) (b ∷ stream))

abbrev pub is_line_end : Option ℕ → Bool
is_line_end none = false
is_line_end (some b) = (b == 10) || (b == 13)

-- `j + 1` behind the loop that goes down from `j + 1 = n`.
unfoldable pub word_end : Bytes → ℕ → ℕ
word_end line zero = zero
word_end line (suc j) =
    let next = word_end line j in if is_line_end (get_elem? line j) then next else suc j

unfoldable pub trimmed : Bytes → Bytes
unfolding word_end
trimmed line = take (word_end (c_str line) (length (c_str line))) (c_str line)

-- The size of the array, an `int`, is doubled when it is full.
unfoldable pub more_lines : ℕ → ℕ → Option ℕ
more_lines i lines_allocated =
    if leb lines_allocated i
    then if ltb (lines_allocated * 2) 2147483648 then some (lines_allocated * 2) else none
    else some lines_allocated

-- The words that are in the array, which has `lines_allocated` slots. One slot is written before the end
-- of the file is seen.
unfoldable pub word_loop : ℕ → Bytes → ℕ → ℕ → List Bytes → Option (ℕ × List Bytes)
unfolding fgets trimmed more_lines
word_loop zero file i lines_allocated words = none
word_loop (suc fuel) file i lines_allocated words = elim (more_lines i lines_allocated) [
  | none ↦ none
  | some size ↦ elim (ltb (length words) size) [
    | false ↦ none
    | true ↦ elim (fgets 511 file) [
      | none ↦ some (length words, words)
      | some (line, rest) ↦ word_loop fuel rest (i + 1) size (words ++ trimmed line ∷ [])
    ]
  ]
]

-- Where there is no file the program ends with the code 4.
pub data WordList : Type 0 where
  exited : ℕ → WordList
  word_list : ℕ → List Bytes → WordList

unfoldable pub read_words_from_text : Option Bytes → Option WordList
unfolding word_loop
read_words_from_text none = some (exited 4)
read_words_from_text (some file) =
    Option.map (λ (count, words). word_list count words)
      (word_loop (suc (length file)) file 0 128 [])

-- `str_append`: a null pointer stands for the empty string. The text that `vasprintf` makes of the
-- arguments is given.
unfoldable pub str_append : Option Bytes → Bytes → Bytes
str_append none str = str
str_append (some result) str = result ++ str

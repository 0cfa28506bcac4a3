-- ===== src/Tests/Utils.antt =====
-- Runs of the stopwatch and the string patterns.
use miqs.Containers.Assoc.{assoc}
use miqs.Prelude.{
  inl, inr, ◌+◌, length, List, [], ◌∷◌, ◌↔◌, ℕ, ◌≡◌, ◌++◌, refl, Bool, true, false, none, some,
  Bytes, arith, ◌/◌,
}
use miqs.Storage.Fields.{c_str}
use miqs.Strings.{
  equals, strstr, starts_with, copy_block, match_type, substring, text_at, is_prefix, ends_with,
  determine_pattern_type, subrstr, contains, substr, simple_matches,
}
use miqs.Strings.Concat.{concat, joined_all, concat-joined_all}
use miqs.Strings.Matching.{prefix_of, simple_matches-Matches}
use miqs.Strings.Words.{
  exited, read_words_from_text, take_line, trimmed, word_end, word_list, word_loop, more_lines,
  fgets,
}
use miqs.Strings.Words.Lines.{lines_text}
use miqs.Strings.Words.Text.{read_words-lines_text}
use miqs.Tags.Numbers.{
  atoi, is_value_in_range, negsuc, pos, skip_space, signed_number, read_digits, negative, positive,
}
use miqs.Tags.Numbers.Range.{is_value_in_range-join_tags, number_of}
use miqs.Tags.{index_of, get_key, get_value, k_v_matches_p, tokens, first_match, pair_matches}
use miqs.Tags.Lists.{join_tags, IsTag, Passed}
use miqs.Tests.{codes, plate}
use miqs.Timer.{
  Stopwatch, timer_start, timer_delta_ns, timer_delta_us, timer_delta_h, pause_after, unpause_after,
  run_calls, delta-run_calls,
}
use miqs.Walk.{
  file, directory, Listing, no_more, entry, Driver, parse_files_in_dir, is_hdf5, on_file,
  visit_listing, collect_dir, parse_single_hdf5_file,
}
use miqs.Walk.Visited.{files_in, share, parse_files-share}

-- Started at 100, paused after 5, unpaused after 20, and read after 7.
delta-run_calls_example :
    let r : ℕ × Stopwatch =
      run_calls (pause_after 5 ∷ unpause_after 20 ∷ []) 100 (timer_start 100) in
    (timer_delta_ns (r.0 + 7) r.1 ≡ 12)
    × (timer_delta_us (r.0 + 7) r.1 ≡ 12 / 1000)
    × (timer_delta_h (r.0 + 7) r.1 ≡ 12 / 3600000000000)
delta-run_calls_example = delta-run_calls (pause_after 5 ∷ unpause_after 20 ∷ []) 100 7

-- A heap in which 0 lies behind every block.
abbrev clean : Bytes → Bytes
clean b = []

simple_matches-Matches_example :
    (b : Bool) × (simple_matches clean (some plate) (some (codes "PL*")) ≡ some b)
    × ((b ≡ true) ↔ ((r : Bytes) × (plate ≡ codes "PL" ++ r)))
simple_matches-Matches_example =
    simple_matches-Matches clean plate (prefix_of (codes "PL")) (λ e. cc, λ r e. cc) (ground arith)
      refl

-- With other bytes behind the copy, a prefix is not found.
prefix_test :
    (simple_matches clean (some plate) (some (codes "PL*")) ≡ some true)
    × (simple_matches (λ b. codes "x") (some plate) (some (codes "PL*")) ≡ some false)
    × (simple_matches clean (some plate) (some (codes "*LAT*")) ≡ some true)
    × (simple_matches clean (some plate) (some (codes "*ATE")) ≡ some true)
unfolding simple_matches determine_pattern_type subrstr c_str contains substr
prefix_test = (refl, refl, refl, refl)

-- A directory with two HDF5 files, one of them in a directory, and a text file.
abbrev data_dir : Listing
data_dir = entry (file (codes "a.h5")) (
    entry (directory (codes "d") (entry (file (codes "b.hdf5")) no_more))
      (entry (file (codes "notes.txt")) no_more))

abbrev new_driver : Driver
new_driver = record { current_file_count = 0; parsed = []; overrun = false }

-- The second of two processes.
parse_files_test :
    parse_files_in_dir 1 2 0 (codes "/x") data_dir new_driver
    ≡ record { current_file_count = 2; parsed = codes "/x/a.h5" ∷ []; overrun = false }
unfolding parse_files_in_dir is_hdf5 on_file visit_listing collect_dir parse_single_hdf5_file
    ends_with
parse_files_test = refl

parse_files-share_example :
    let r : Driver = parse_files_in_dir 1 2 0 (codes "/x") data_dir new_driver in
    let paths : List Bytes = files_in 0 0 data_dir (codes "/x") in
    (r.overrun ≡ false)
    × (r.current_file_count ≡ 0 + length paths)
    × (r.parsed ≡ [] ++ share 1 2 0 paths)
unfolding files_in is_hdf5 ends_with
parse_files-share_example = parse_files-share 1 2 0 (codes "/x") data_dir new_driver (ground arith)

concat-joined_all_example :
    concat (codes "index_" ∷ codes "miqs" ∷ plate ∷ [])
    ≡ some (joined_all (codes "index_" ∷ codes "miqs" ∷ plate ∷ []))
concat-joined_all_example = concat-joined_all (codes "index_" ∷ codes "miqs" ∷ plate ∷ [])

tags_test :
    k_v_matches_p clean (some (codes "a=1,,bc=23")) (some (codes "b*")) (some (codes "*3"))
    ≡ some (some (codes "bc=23"))
unfolding k_v_matches_p tokens first_match pair_matches index_of get_key get_value simple_matches
    match_type determine_pattern_type subrstr substr substring copy_block starts_with is_prefix
    strstr ends_with text_at c_str
tags_test = refl

-- The first line ends with a carriage return and a line feed, the last one with the file.
read_words-lines_text_example :
    (read_words_from_text
        (some (lines_text ((codes "plate", 1) ∷ (codes "sky", 0) ∷ []) (codes "mjd")))
      ≡ some (word_list 3 (codes "plate" ∷ codes "sky" ∷ codes "mjd" ∷ [])))
    × (read_words_from_text none ≡ some (exited 4))
read_words-lines_text_example =
    read_words-lines_text ((codes "plate", 1) ∷ (codes "sky", 0) ∷ []) (codes "mjd") (ground arith)
      (ground arith) (omega arith) (omega arith)

-- An empty line is a word with no bytes, and what is behind a byte 0 is lost.
words_test :
    read_words_from_text (some (codes "a" ++ 10 ∷ 10 ∷ 13 ∷ codes "b" ++ 0 ∷ codes "c"))
    ≡ some (word_list 3 (codes "a" ∷ [] ∷ (13 ∷ codes "b") ∷ []))
unfolding read_words_from_text word_loop fgets take_line trimmed word_end more_lines c_str
words_test = refl

is_value_in_range-join_tags_example :
    (is_value_in_range clean
        (some (join_tags (codes "no" ∷ codes "a=1" ∷ (codes "b" ++ 61 ∷ codes "42") ∷ [])))
        (some (codes "b"))
        (negsuc 4)
        (pos 42)
      ≡ some true)
    × (is_value_in_range clean
          (some (join_tags (codes "no" ∷ codes "a=1" ∷ [])))
          (some (codes "b"))
          (negsuc 4)
          (pos 42)
        ≡ none)
unfolding IsTag Passed index_of pair_matches get_key get_value simple_matches match_type
    determine_pattern_type subrstr substr substring copy_block starts_with is_prefix text_at c_str
    strstr equals number_of
is_value_in_range-join_tags_example =
    is_value_in_range-join_tags clean (codes "b") (codes "b") (codes "42")
      (codes "no" ∷ codes "a=1" ∷ []) [] (negsuc 4) (pos 42) (ground arith) (ground arith)
      (inl refl, (inr refl, tt)) refl (ground arith) (ground arith) (omega arith) refl

atoi_test :
    (atoi (codes " -12x") ≡ some (negsuc 11))
    × (atoi (codes "x") ≡ some (pos 0))
    × (atoi (codes "-2147483648") ≡ some (negsuc 2147483647))
    × (atoi (codes "2147483648") ≡ none)
unfolding atoi skip_space signed_number read_digits negative positive
atoi_test = (refl, refl, refl, refl)

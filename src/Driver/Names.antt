-- ===== src/Driver/Names.antt =====
-- The names of the index files fit their buffers.
use miqs.Prelude.{
  ℕ, zero, suc, ◌+◌, ◌/◌, ◌%◌, ◌≤◌, ◌<◌, ◌≡◌, refl, some, [], ◌∷◌, ◌++◌, Bytes, length,
  length-append, ◌==◌, lt→ltb, if◌then◌else◌, Bool-cases, inl, inr, arith,
}
use miqs.Strings.{ends_with}
use miqs.Driver.{decimal, index_file_name, resolve_file_name, fits}

length-decimal : (digits n : ℕ) → length (decimal digits n) ≤ digits
unfolding decimal
length-decimal zero n = omega arith
length-decimal (suc digits) n = elim (Bool-cases (n / 10 == 0)) [
  | inl e ↦ rw e (omega arith)
  | inr e ↦ rw e (
      omega (
        arith,
        length-decimal digits (n / 10),
        length-append (decimal digits (n / 10)) ((48 + n % 10) ∷ []),
      ))
]

length-index_file_name :
    (rank : ℕ) (suffix : Bytes) → length (index_file_name rank suffix) ≤ 22 + length suffix
unfolding index_file_name
length-index_file_name rank suffix =
    omega (arith, length-decimal 10 rank, length-append (decimal 10 rank) (46 ∷ suffix))

fits-lt : (size : ℕ) (text : Bytes) → length text < size → fits size text ≡ some text
fits-lt size text h = rw (lt→ltb (length text) size h) refl

-- The directory with a slash at its end.
abbrev pub with_slash : Bytes → Bytes
with_slash dir = if ends_with dir (47 ∷ []) then dir else dir ++ 47 ∷ []

length-with_slash : (dir : Bytes) → length (with_slash dir) ≤ length dir + 1
length-with_slash dir = elim (Bool-cases (ends_with dir (47 ∷ []))) [
  | inl e ↦ rw e (omega arith)
  | inr e ↦ rw e (omega (arith, length-append dir (47 ∷ [])))
]

-- For a suffix of at most 3 bytes `resolve_file_name` overruns neither of its buffers, whatever the
-- rank and the directory: it returns the name of the index file in the directory.
pub resolve_file_name-index_file_name :
    (dir suffix : Bytes) (rank : ℕ)
    → length suffix ≤ 3
    → resolve_file_name dir suffix rank ≡ some (with_slash dir ++ index_file_name rank suffix)
unfolding resolve_file_name
resolve_file_name-index_file_name dir suffix rank h =
    let name : Bytes = index_file_name rank suffix in
    let short : length name ≤ 22 + length suffix = length-index_file_name rank suffix in
    rw
      (
        fits-lt (16 + 16) name (omega (arith, short, h)),
        fits-lt (length dir + 16 + 20) (with_slash dir ++ name)
            (omega (arith, short, h, length-append (with_slash dir) name, length-with_slash dir)),
      )
      refl

-- ===== src/Tests/Dirs.antt =====
-- The making of directories, with a `dirname` that cuts the path at its last slash and a file system
-- that is a list of paths.
use miqs.Prelude.{
  ◌≢◌, ℕ, suc, ◌<◌, ◌≡◌, ◌⊎◌, refl, sym, ap, ◌∙◌, inl, inr, Bool, true, false, ◌||◌, Option,
  Option-cases, Bool-cases, none, some, List, [], ◌∷◌, Bytes, length, str_eq, str_eq_iff, ◌==◌,
  if◌then◌else◌, arith,
}
use mathlib.Core.Option.{some-injective}
use miqs.Tests.{codes}
use miqs.Walk.Mkpath.{
  Made, made, refused, there, here, IsDone, Os, is_top, Above, IsOpen, was_made, mkpath,
  mkpath-makes,
}

abbrev extended : ℕ → Option Bytes → Option Bytes
extended b none = if b == 47 then some [] else none
extended b (some p) = some (b ∷ p)

unfoldable before_slash : Bytes → Option Bytes
before_slash [] = none
before_slash (b ∷ s) = extended b (before_slash s)

abbrev above : Option Bytes → Bytes
above none = 46 ∷ []
above (some []) = 47 ∷ []
above (some (b ∷ p)) = b ∷ p

unfoldable parent : Bytes → Bytes
unfolding before_slash
parent s = above (before_slash s)

extended-length :
    (b n : ℕ) (r : Option Bytes) (p : Bytes)
    → ((q : Bytes) → r ≡ some q → length q < n)
    → extended b r ≡ some p
    → length p < suc n
extended-length b n (some q) p h e =
    let same : suc (length q) ≡ length p = ap length (some-injective (b ∷ q) p e) in
    omega (arith, h q refl, same)
extended-length b n none p h e = elim (Bool-cases (b == 47)) [
  | inl slash ↦
      let same : some [] ≡ some p = sym (rw slash refl) ∙ e in
      let empty : 0 ≡ length p = ap length (some-injective [] p same) in omega (arith, empty)
  | inr other ↦ let never : none ≡ some p = sym (rw other refl) ∙ e in cc
]

before_slash-length : (s p : Bytes) → before_slash s ≡ some p → length p < length s
unfolding before_slash
before_slash-length [] p e = cc
before_slash-length (b ∷ s) p e =
    extended-length b (length s) (before_slash s) p (before_slash-length s) e

parent-shorter : (s : Bytes) → (length (parent s) < length s) ⊎ (is_top (parent s) ≡ true)
unfolding parent is_top
parent-shorter s = elim (Option-cases (before_slash s)) [
  | inl n ↦ inr (rw n refl)
  | inr ([], f) ↦ inr (rw f refl)
  | inr (b ∷ p, f) ↦ inl (rw f (before_slash-length s (b ∷ p) f))
]

or_middle : (a c : Bool) → (a || (true || c)) ≡ true
or_middle true c = refl
or_middle false c = refl

or_more : (a b c : Bool) → (a || c) ≡ true → (a || (b || c)) ≡ true
or_more true b c h = refl
or_more false true c h = refl
or_more false false c h = h

abbrev has : Bytes → List Bytes → Bool
has p [] = false
has p (q ∷ dirs) = str_eq p q || has p dirs

abbrev There : List Bytes → Bytes → Type 0
There dirs s = (is_top s || has s dirs) ≡ true

-- A file system that refuses the empty path.
abbrev open_mkdir : Bytes → List Bytes → Made × List Bytes
open_mkdir [] dirs = (refused 2, dirs)
open_mkdir (b ∷ s) dirs = (made, (b ∷ s) ∷ dirs)

full_parent : (r : Option Bytes) → above r ≢ []
full_parent none e = cc e
full_parent (some []) e = cc e
full_parent (some (b ∷ p)) e = cc e

full-Above : (s p : Bytes) → s ≢ [] → Above parent open_mkdir s p → p ≢ []
unfolding parent
full-Above s p full here = full
full-Above s p full (there below a) = full-Above (parent s) p (full_parent (before_slash s)) a

made-There :
    (dirs : List Bytes) (s : Bytes)
    → s ≢ []
    → IsDone parent open_mkdir (open_mkdir s dirs).0 × There (open_mkdir s dirs).1 s
made-There dirs [] full = absurd (full refl)
made-There dirs (b ∷ s) full = (
  was_made,
  rw ((str_eq_iff (b ∷ s) (b ∷ s)).1 refl) (or_middle (is_top (b ∷ s)) (has (b ∷ s) dirs)),
)

kept-There : (dirs : List Bytes) (s p : Bytes) → There dirs p → There (open_mkdir s dirs).1 p
kept-There dirs [] p h = h
kept-There dirs (b ∷ s) p h = or_more (is_top p) (str_eq p (b ∷ s)) (has p dirs) h

list_of_paths : (s : Bytes) → s ≢ [] → IsOpen parent open_mkdir There s
list_of_paths s full = record {
  top = λ dirs p h. rw h refl;
  shorter = λ p a h. parent-shorter p;
  makes = λ dirs p a h e. made-There dirs p (full-Above s p full a);
  keeps = λ dirs p q a h. kept-There dirs p q h;
}

abbrev new_os : Os (List Bytes)
new_os = record { dirs = []; errno = 0 }

mkpath-makes_example :
    (os : Os (List Bytes)) × (mkpath parent open_mkdir 8 (codes "/a/b/c") new_os ≡ some (true, os))
    × ((p : Bytes) → Above parent open_mkdir (codes "/a/b/c") p → There os.dirs p)
mkpath-makes_example =
    mkpath-makes parent open_mkdir There (codes "/a/b/c") new_os
      (list_of_paths (codes "/a/b/c") (λ e. cc e))

mkpath_test :
    mkpath parent open_mkdir 8 (codes "/a/b/c") new_os
    ≡ some (true, record { dirs = codes "/a/b/c" ∷ codes "/a/b" ∷ codes "/a" ∷ []; errno = 0 })
unfolding mkpath parent before_slash
mkpath_test = refl

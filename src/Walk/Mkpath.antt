-- ===== src/Walk/Mkpath.antt =====
-- src/utils/fs/fs_ops.c: `mkpath`, which makes a directory with all that are above it. `dirname` and
-- `mkdir` are given.
use mathlib.Core.Logic.{◌⊎◌}
use miqs.Prelude.{
  ℕ, zero, suc, ◌+◌, ◌<◌, ◌≤◌, ◌≡◌, refl, ap, inl, inr, Bool, Bool-cases, true, false, not, ◌&&◌,
  ◌||◌, Option, none, some, [], ◌∷◌, Bytes, length, str_eq, ◌==◌, if◌then◌else◌, ◌>>=◌, arith,
}

-- What `mkdir` returns; a refusal comes with its `errno`.
pub data Made : Type 0 where
  made : Made
  refused : ℕ → Made

-- The directories, and `errno`.
pub record Os (S : Type 0) : Type 0 where
  pub dirs : S
  pub errno : ℕ

-- `s` is "." or "/".
unfoldable pub is_top : Bytes → Bool
is_top s = str_eq s (46 ∷ []) || str_eq s (47 ∷ [])

module _ {S : Type 0} (dirname : Bytes → Bytes) (mkdir : Bytes → S → Made × S) where
  -- `EEXIST` is 17; true stands for the result 0, false for -1.
  unfoldable pub made_or_there : Made × S → ℕ → Bool × Os S
  made_or_there (made, dirs) errno = (true, record { dirs = dirs; errno = errno })
  made_or_there (refused e, dirs) errno = (e == 17, record { dirs = dirs; errno = e })

  -- What follows the call for the directory above.
  unfoldable pub make_last : Bytes → Bool × Os S → Bool × Os S
  unfolding made_or_there
  make_last s (ok, os) =
      if not ok && not (os.errno == 17)
      then (false, os)
      else made_or_there (mkdir s os.dirs) os.errno

  unfoldable pub mkpath : ℕ → Bytes → Os S → Option (Bool × Os S)
  unfolding make_last is_top
  mkpath zero s os = none
  mkpath (suc fuel) s os =
      let up = mkpath fuel (dirname s) os in
      if is_top s then some (true, os) else (up >>= λ r. some (make_last s r))

  -- A path that is its own parent, and neither "." nor "/", is gone up from for ever.
  mkpath-own_parent :
      (fuel : ℕ) (s : Bytes) (os : Os S)
      → is_top s ≡ false
      → dirname s ≡ s
      → mkpath fuel s os ≡ none
  unfolding mkpath
  mkpath-own_parent zero s os h e = refl
  mkpath-own_parent (suc fuel) s os h e = rw (h, e, mkpath-own_parent fuel s os h e) refl

  -- The path and those above it.
  pub data Above : Bytes → Bytes → Type 0 where
    here : {s : Bytes} → Above s s
    there : {s p : Bytes} → is_top s ≡ false → Above (dirname s) p → Above s p

  pub data IsDone : Made → Type 0 where
    was_made : IsDone made
    was_there : IsDone (refused 17)

  -- What is asked of the path and those above it, and of no other path: each can be made where the one
  -- above it exists, the next one above it is shorter or at the top, and what exists stays.
  pub record IsOpen (Exists : S → Bytes → Type 0) (root : Bytes) : Type 0 where
    pub top : (dirs : S) (s : Bytes) → is_top s ≡ true → Exists dirs s
    pub shorter :
        (s : Bytes)
        → Above root s
        → is_top s ≡ false
        → (length (dirname s) < length s) ⊎ (is_top (dirname s) ≡ true)
    pub makes :
        (dirs : S) (s : Bytes)
        → Above root s
        → is_top s ≡ false
        → Exists dirs (dirname s)
        → IsDone (mkdir s dirs).0 × Exists (mkdir s dirs).1 s
    pub keeps : (dirs : S) (s p : Bytes) → Above root s → Exists dirs p → Exists (mkdir s dirs).1 p

  last_done :
      (r : Made × S) (e : ℕ)
      → IsDone r.0
      → (errno : ℕ) × (made_or_there r e ≡ (true, record { dirs = r.1; errno = errno }))
  unfolding made_or_there
  last_done (_, dirs) e was_made = (e, refl)
  last_done (_, dirs) e was_there = (17, refl)

  make_last-IsDone :
      (s : Bytes) (os : Os S)
      → IsDone (mkdir s os.dirs).0
      → (errno : ℕ) × (make_last s (true, os)
          ≡ (true, record { dirs = (mkdir s os.dirs).1; errno = errno }))
  unfolding make_last
  make_last-IsDone s os h = last_done (mkdir s os.dirs) os.errno h

  mkpath-top :
      (fuel : ℕ) (s : Bytes) (os : Os S)
      → is_top s ≡ true
      → mkpath (suc fuel) s os ≡ some (true, os)
  unfolding mkpath
  mkpath-top fuel s os h = rw h refl

  module _ (Exists : S → Bytes → Type 0) where
    up-IsOpen : (s : Bytes) → is_top s ≡ false → IsOpen Exists s → IsOpen Exists (dirname s)
    up-IsOpen s below o = record {
      top = o.top;
      shorter = λ p a. o.shorter p (there below a);
      makes = λ dirs p a. o.makes dirs p (there below a);
      keeps = λ dirs p q a. o.keeps dirs p q (there below a);
    }

    above_top :
        (dirs : S) (s p : Bytes) → IsOpen Exists s → is_top s ≡ true → Above s p → Exists dirs p
    above_top dirs s p o h here = o.top dirs s h
    above_top dirs s p o h (there below a) = cc

    above_made :
        (dirs : S) (s p : Bytes)
        → IsOpen Exists s
        → is_top s ≡ false
        → ((q : Bytes) → Above (dirname s) q → Exists dirs q)
        → Above s p
        → Exists (mkdir s dirs).1 p
    above_made dirs s p o low h here = (o.makes dirs s here low (h (dirname s) here)).1
    above_made dirs s p o low h (there below a) = o.keeps dirs s p here (h p a)

    enough_above :
        (fuel : ℕ) (s : Bytes)
        → IsOpen Exists s
        → is_top s ≡ false
        → length s + 2 ≤ suc fuel
        → (0 < fuel) × ((is_top (dirname s) ≡ true) ⊎ (length (dirname s) + 2 ≤ fuel))
    enough_above fuel s o below h = elim (o.shorter s here below) [
      | inl lt ↦ (omega (arith, h), inr (omega (arith, h, lt)))
      | inr top ↦ (omega (arith, h), inl top)
    ]

    mkpath-Exists :
        (fuel : ℕ) (s : Bytes) (os : Os S)
        → IsOpen Exists s
        → 0 < fuel
        → (is_top s ≡ true) ⊎ (length s + 2 ≤ fuel)
        → (os' : Os S) × (mkpath fuel s os ≡ some (true, os'))
          × ((p : Bytes) → Above s p → Exists os'.dirs p)
    unfolding mkpath
    mkpath-Exists zero s os o pos enough = absurd (omega (arith, pos))
    mkpath-Exists (suc fuel) s os o pos (inl top) =
        (os, mkpath-top fuel s os top, λ p a. above_top os.dirs s p o top a)
    mkpath-Exists (suc fuel) s os o pos (inr enough) = elim (Bool-cases (is_top s)) [
      | inl top ↦ (os, mkpath-top fuel s os top, λ p a. above_top os.dirs s p o top a)
      | inr below ↦
          let (pos', enough') = enough_above fuel s o below enough in
          let (up, run, exist) =
            mkpath-Exists fuel (dirname s) os (up-IsOpen s below o) pos' enough' in
          let (errno, last) =
            make_last-IsDone s up (o.makes up.dirs s here below (exist (dirname s) here)).0 in
          (
            record { dirs = (mkdir s up.dirs).1; errno = errno },
            rw (below, run) (ap some last),
            λ p a. above_made up.dirs s p o below exist a,
          )
    ]

    -- Where "." and "/" exist, and the path and each one above it can be made below an existing
    -- directory, is kept, and has one above it that is shorter or at the top, `mkpath` ends with the
    -- result 0, in no more calls of its own than the path has bytes and two more, and then the path
    -- exists and all the paths above it.
    pub mkpath-makes :
        (s : Bytes) (os : Os S)
        → IsOpen Exists s
        → (os' : Os S) × (mkpath (length s + 2) s os ≡ some (true, os'))
          × ((p : Bytes) → Above s p → Exists os'.dirs p)
    mkpath-makes s os o = mkpath-Exists (length s + 2) s os o (omega arith) (inr (omega arith))

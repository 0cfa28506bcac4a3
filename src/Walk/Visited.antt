-- ===== src/Walk/Visited.antt =====
-- The files that the walk over a directory comes to, and how the processes share them.
use miqs.Prelude.{
  Bool, ◌<◌, leb, All, ℕ, suc, ◌+◌, ◌%◌, ◌≡◌, refl, sym, ap, ◌∙◌, ◌||◌, List, [], ◌∷◌, ◌++◌, Bytes,
  length, length-append, take, ◌==◌, ltb, if◌then◌else◌, append_assoc, append-nil, Bool-cases, inl,
  inr, arith,
}
use miqs.Walk.{
  Node, file, directory, unreadable, Listing, no_more, entry, is_hdf5, joined, visit_entry,
  visit_listing, collect_dir, Driver, parse_single_hdf5_file, on_file, parse_files_in_dir,
}

-- The paths of the files, in the order of the walk. Of each directory it is the first `topk` entries
-- that pass the filter, or all where `topk` is 0.
module _ (topk : ℕ) where
  unfoldable mutual
    pub files_of : Node → Bytes → List Bytes
    files_of (file n) parent = joined parent n ∷ []
    files_of (unreadable n) parent = []
    files_of (directory n l) parent = files_in 0 l (take 1022 (joined parent n))

    pub files_in : ℕ → Listing → Bytes → List Bytes
    files_in count no_more parent = []
    files_in count (entry node rest) parent =
        if is_hdf5 node
        then (if topk == 0 || ltb count topk
            then files_of node parent ++ files_in (count + 1) rest parent
            else [])
        else files_in count rest parent

-- The files of a process, of those from position `count` on, positions being counted from 1.
abbrev pub share : ℕ → ℕ → ℕ → List Bytes → List Bytes
share rank size count [] = []
share rank size count (p ∷ ps) =
    if (count + 1) % size == rank
    then p ∷ share rank size (count + 1) ps
    else share rank size (count + 1) ps

share-append :
    (rank size count : ℕ) (l m : List Bytes)
    → share rank size count (l ++ m)
      ≡ share rank size count l ++ share rank size (count + length l) m
share-append rank size count [] m = ap (λ n. share rank size n m) (omega arith)
share-append rank size count (p ∷ ps) m =
    let rest : share rank size (count + 1) (ps ++ m)
        ≡ share rank size (count + 1) ps ++ share rank size (count + suc (length ps)) m =
      share-append rank size (count + 1) ps m
      ∙ ap (λ n. share rank size (count + 1) ps ++ share rank size n m) (omega arith) in
    ground (arith, rest)

-- A driver that has gone through the paths from where the other stood.
record Through (rank size : ℕ) (paths : List Bytes) (s s' : Driver) : Type 0 where
  counted : s'.current_file_count ≡ s.current_file_count + length paths
  shared : s'.parsed ≡ s.parsed ++ share rank size s.current_file_count paths
  fitting : All (λ p. length p < 512) paths → s'.overrun ≡ s.overrun

Through-nil : (rank size : ℕ) (s : Driver) → Through rank size [] s s
Through-nil rank size s = record {
  counted = omega arith;
  shared = sym (append-nil s.parsed);
  fitting = λ h. refl;
}

All-split {ℓ κ} :
    {A : Type ℓ} (P : A → Type κ) (xs ys : List A) → All P (xs ++ ys) → All P xs × All P ys
All-split P [] ys h = (tt, h)
All-split P (x ∷ xs) ys (p, h) = let (l, r) = All-split P xs ys h in ((p, l), r)

fits_buffer : (b : Bool) (n : ℕ) → n < 512 → (b || leb 512 n) ≡ b
fits_buffer b n h = ground arith

Through-append :
    (rank size : ℕ) (l m : List Bytes) (s t u : Driver)
    → Through rank size l s t
    → Through rank size m t u
    → Through rank size (l ++ m) s u
Through-append rank size l m s t u h k = record {
  counted = omega (arith, h.counted, k.counted, length-append l m);
  shared =
      k.shared
      ∙ ap (λ x. x ++ share rank size t.current_file_count m) h.shared
      ∙ append_assoc s.parsed _ _
      ∙ ap (λ n. s.parsed ++ (share rank size s.current_file_count l ++ share rank size n m))
          h.counted
      ∙ ap (◌++◌ s.parsed) (sym (share-append rank size s.current_file_count l m));
  fitting = λ short.
      let (front, back) = All-split (λ p. length p < 512) l m short in
      k.fitting back ∙ h.fitting front;
}

on_file-Through :
    (rank size : ℕ) (n parent : Bytes) (s : Driver)
    → Through rank size (joined parent n ∷ []) s (on_file rank size (file n) parent s)
unfolding on_file parse_single_hdf5_file
on_file-Through rank size n parent s =
    elim (Bool-cases ((s.current_file_count + 1) % size == rank)) [
      | inl e ↦ rw e (record {
        counted = refl;
        shared = rw e refl;
        fitting = λ (short, _). fits_buffer s.overrun (length (joined parent n)) short;
      })
      | inr e ↦ rw e (record {
        counted = refl;
        shared = rw e (sym (append-nil s.parsed));
        fitting = λ (short, _). fits_buffer s.overrun (length (joined parent n)) short;
      })
    ]

module _ (rank size topk : ℕ) where
  abbrev visit_one : Node → Bytes → Driver → Driver
  visit_one = visit_entry is_hdf5 topk (on_file rank size) (λ n p d. d) (λ d. d) (λ d. d)

  abbrev visit_all : ℕ → Listing → Bytes → Driver → Driver
  visit_all = visit_listing is_hdf5 topk (on_file rank size) (λ n p d. d) (λ d. d) (λ d. d)

  mutual
    unfolding visit_entry files_of

    visit_one-Through :
        (n : Node) (parent : Bytes) (s : Driver)
        → Through rank size (files_of topk n parent) s (visit_one n parent s)
    visit_one-Through (file n) parent s = on_file-Through rank size n parent s
    visit_one-Through (unreadable n) parent s = Through-nil rank size s
    visit_one-Through (directory n l) parent s =
        visit_all-Through l 0 (take 1022 (joined parent n)) s

    visit_all-Through :
        (l : Listing) (count : ℕ) (parent : Bytes) (s : Driver)
        → Through rank size (files_in topk count l parent) s (visit_all count l parent s)
    visit_all-Through no_more count parent s = Through-nil rank size s
    visit_all-Through (entry node rest) count parent s = elim (Bool-cases (is_hdf5 node)) [
      | inr e ↦ rw e (visit_all-Through rest count parent s)
      | inl e ↦ elim (Bool-cases (topk == 0 || ltb count topk)) [
        | inl f ↦
            rw (e, f)
              (Through-append rank size _ _ s _ _ (visit_one-Through node parent s)
                (visit_all-Through rest (count + 1) parent (visit_one node parent s)))
        | inr f ↦ rw (e, f) (Through-nil rank size s)
      ]
    ]

-- Where the path of every HDF5 file that the walk comes to has fewer than 512 bytes, no buffer is
-- overrun; the process `rank` of `size` counts every one of these files, and parses, in the order of
-- the walk, exactly those whose count is `rank` modulo `size`.
pub parse_files-share :
    (rank size topk : ℕ) (path : Bytes) (listing : Listing) (s : Driver)
    → All (λ p. length p < 512) (files_in topk 0 listing path)
    → let paths : List Bytes = files_in topk 0 listing path in
      let r : Driver = parse_files_in_dir rank size topk path listing s in
      (r.overrun ≡ s.overrun)
      × (r.current_file_count ≡ s.current_file_count + length paths)
      × (r.parsed ≡ s.parsed ++ share rank size s.current_file_count paths)
unfolding parse_files_in_dir collect_dir
parse_files-share rank size topk path listing s short =
    let h = visit_all-Through rank size topk listing 0 path s in
    (h.fitting short, h.counted, h.shared)

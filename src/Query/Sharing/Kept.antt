-- ===== src/Query/Sharing/Kept.antt =====
-- What stays in its bucket while a search is in it.
use mathlib.Core.Path.{subst}
use mathlib.Core.Option.{some-injective}
use miqs.Containers.{Containers}
use miqs.Prelude.{
  ℕ, zero, suc, ◌+◌, ◌≤◌, ◌≡◌, ◌≢◌, refl, sym, ap, ◌∙◌, inl, inr, true, false, some, List, [], ◌∷◌,
  ◌++◌, map, All, length, length-append, drop, get_elem?, set, get_elem?-set_cases,
  get_elem?-set_ne, arith,
}
use miqs.Index.State.{Anchor}
use miqs.Index.Build.{bucket_of}
use miqs.Index.Buckets.{Bucket, read_bucket, write_bucket, read-write_bucket}
use miqs.Index.Calls.{Call}
use miqs.Index.Locking.{System, Step, enter, leave, inside, Reach, here, next, start_threads}
use miqs.Index.Locking.Serial.{Reach-IsSerial}
use miqs.Index.Locking.Steps.{IsSerial}
use miqs.Query.Sharing.{
  Search, Searcher, idle, searching, Shared, Reads, Enters, indices_since, Act, index_step, lock,
  unlock, Acts, stop, then, start_shared,
}

pub All-snoc {ℓ κ} :
    {A : Type ℓ} (P : A → Type κ) (xs : List A) (x : A) → All P xs → P x → All P (xs ++ x ∷ [])
All-snoc P [] x h p = (p, tt)
All-snoc P (y ∷ xs) x (q, h) p = (q, All-snoc P xs x h p)

pub drop-snoc {ℓ} :
    {A : Type ℓ} (n : ℕ) (xs : List A) (x : A)
    → n ≤ length xs
    → drop n (xs ++ x ∷ []) ≡ drop n xs ++ x ∷ []
drop-snoc zero xs x h = refl
drop-snoc (suc n) [] x h = absurd (omega (arith, h))
drop-snoc (suc n) (y ∷ xs) x h = drop-snoc n xs x (omega (arith, h))

drop-whole {ℓ} : {A : Type ℓ} (xs : List A) → drop (length xs) xs ≡ []
drop-whole [] = refl
drop-whole (x ∷ xs) = drop-whole xs

module _ ⦃c : Containers⦄ where
  -- The bucket of the search is where the name lies in the index, and what it was at the start.
  pub record IsUnchanged (pos : ℕ) (b : Bucket) (search : Search) (x : Anchor) : Type 0 where
    pub read : read_bucket x pos ≡ some b
    pub place : bucket_of search.attr_name x.parallelism ≡ some pos

  -- The lock of the bucket of a search is not held for writing, and the bucket is what it was.
  abbrev pub HeldToRead : System → Searcher → Type 0
  HeldToRead s (idle searches) = Unit {0}
  HeldToRead s (searching pos b search rest since) =
      IsUnchanged pos b search s.index × (get_elem? s.locks pos ≡ some false)

  -- In all indices since the search took its lock the bucket is the same.
  abbrev pub HeldSince : Shared → Searcher → Type 0
  HeldSince s (idle searches) = Unit {0}
  HeldSince s (searching pos b search rest since) =
      All (IsUnchanged pos b search) (indices_since s since) × (since ≤ length s.past)

  pub record IsHeld (a : Anchor) (todo : List (List Call)) (s : Shared) : Type 0 where
    pub indexed : Reach (start_threads a todo) s.indexing
    pub held :
        (k : ℕ) (u : Searcher)
        → get_elem? s.searchers k ≡ some u
        → HeldToRead s.indexing u × HeldSince s u

  taken_lock :
      (s : System) (p : ℕ) (u : Searcher)
      → ¬ Reads p u
      → HeldToRead s u
      → HeldToRead (record s { locks = set s.locks p true }) u
  taken_lock s p (idle searches) h k = tt
  taken_lock s p (searching pos b search rest since) h (kept, free) =
      (kept, get_elem?-set_ne s.locks p pos true h ∙ free)

  -- What a step of a thread that indexes leaves to a search.
  Step-HeldToRead :
      {a : Anchor} {todo : List (List Call)} {s t : System} (step : Step s t) (u : Searcher)
      → IsSerial a todo s
      → ((p : ℕ) → Enters p step → ¬ Reads p u)
      → HeldToRead s u
      → HeldToRead t u
  unfolding write_bucket read_bucket
  Step-HeldToRead {s = s} (enter i pos b call rest at place free read) (idle searches) h apart k =
      tt
  Step-HeldToRead {s = s} (enter i pos b call rest at place free read) (searching q x y z since) h
        apart k =
      taken_lock s pos (searching q x y z since) (apart pos refl) k
  Step-HeldToRead {s = s} (leave i pos us b b' call rest at changed) (idle searches) h apart k = tt
  Step-HeldToRead {s = s} (leave i pos us b b' call rest at changed) (searching q x y z since) h
        apart (kept, free) =
      let (_, _, locked) = h.held i (inside pos b call rest) at in
      let other : pos ≢ q = λ same. cc (sym locked ∙ ap (get_elem? s.locks) same ∙ free) in
      (
        record {
          read = read-write_bucket s.index call.0 pos q b' other ∙ kept.read;
          place = kept.place;
        },
        get_elem?-set_ne s.locks pos q false other ∙ free,
      )

  -- One more index with the same bucket.
  since_step :
      (s : Shared) (t : System) (u : Searcher)
      → HeldSince s u
      → HeldToRead t u
      → HeldSince (record s { indexing = t; past = s.past ++ s.indexing.index ∷ [] }) u
  unfolding indices_since
  since_step s t (idle searches) h k = tt
  since_step s t (searching pos b search rest since) (same, early) (now, free) =
      let more : length (s.past ++ s.indexing.index ∷ []) ≡ length s.past + 1 =
        length-append s.past (s.indexing.index ∷ []) in
      (
        subst (All (IsUnchanged pos b search))
            (sym (
              drop-snoc since (s.past ++ s.indexing.index ∷ []) t.index
                (omega (arith, early, more))))
            (All-snoc (IsUnchanged pos b search) _ t.index same now),
        omega (arith, early, more),
      )

  -- At the start there is one index.
  since_start : (s : Shared) → indices_since s (length s.past) ≡ s.indexing.index ∷ []
  unfolding indices_since
  since_start s =
      drop-snoc (length s.past) s.past s.indexing.index (omega arith)
      ∙ ap (λ l. l ++ s.indexing.index ∷ []) (drop-whole s.past)

  pub Act-IsHeld :
      {a : Anchor} {todo : List (List Call)} {s t : Shared}
      → Act s t
      → IsHeld a todo s
      → IsHeld a todo t
  unfolding indices_since
  Act-IsHeld {a} {todo} {s} (index_step {t} step apart) h = record {
    indexed = next h.indexed step;
    held = λ k u e.
        let (now, since) = h.held k u e in
        let later =
          Step-HeldToRead step u (Reach-IsSerial a todo h.indexed)
            (λ p enters. apart p k u enters e) now in
        (later, since_step s t u since later);
  }
  Act-IsHeld {a} {todo} {s} (lock i pos b search rest at place free read) h = record {
    indexed = h.indexed;
    held = λ k u e. elim (get_elem?-set_cases s.searchers i _ k e) [
      | inl (ik, eq) ↦
          let now : IsUnchanged pos b search s.indexing.index = record {
            read = read;
            place = place;
          } in
          subst (λ u. HeldToRead s.indexing u × HeldSince s u) eq
            (
              (now, free),
              (subst (All (IsUnchanged pos b search)) (sym (since_start s)) (now, tt), omega arith),
            )
      | inr (ne, old) ↦ h.held k u old
    ];
  }
  Act-IsHeld {a} {todo} {s} (unlock i pos b search rest since rst at read) h = record {
    indexed = h.indexed;
    held = λ k u e. elim (get_elem?-set_cases s.searchers i _ k e) [
      | inl (ik, eq) ↦ subst (λ u. HeldToRead s.indexing u × HeldSince s u) eq (tt, tt)
      | inr (ne, old) ↦ h.held k u old
    ];
  }

  idle_searcher :
      (searches : List (List Search)) (k : ℕ) (u : Searcher)
      → get_elem? (map idle searches) k ≡ some u
      → (l : List Search) × (idle l ≡ u)
  idle_searcher [] k u e = cc
  idle_searcher (l ∷ searches) zero u e = (l, some-injective _ u e)
  idle_searcher (l ∷ searches) (suc k) u e = idle_searcher searches k u e

  pub start_shared-IsHeld :
      (a : Anchor) (todo : List (List Call)) (searches : List (List Search))
      → IsHeld a todo (start_shared a todo searches)
  unfolding start_shared
  start_shared-IsHeld a todo searches = record {
    indexed = here;
    held = λ k u e.
        let (l, eq) = idle_searcher searches k u e in
        subst
          (λ u. HeldToRead (start_threads a todo) u × HeldSince (start_shared a todo searches) u) eq
          (tt, tt);
  }

  pub Acts-IsHeld :
      (a : Anchor) (todo : List (List Call)) (searches : List (List Search)) {s : Shared}
      → Acts (start_shared a todo searches) s
      → IsHeld a todo s
  Acts-IsHeld a todo searches stop = start_shared-IsHeld a todo searches
  Acts-IsHeld a todo searches (then acts act) = Act-IsHeld act (Acts-IsHeld a todo searches acts)

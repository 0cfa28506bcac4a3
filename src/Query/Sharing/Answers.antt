-- ===== src/Query/Sharing/Answers.antt =====
-- What a search that reads the index bit by bit answers while other threads index.
use mathlib.Core.Path.{subst}
use mathlib.Core.Option.{some-injective}
use miqs.Containers.{Containers}
use miqs.Prelude.{
  ℕ, ◌≡◌, refl, sym, ap, ◌∙◌, inl, inr, some, List, [], ◌∷◌, ◌++◌, map, All, get_elem?, set,
  get_elem?-set_cases, append-nil, append_assoc, zero, suc,
}
use miqs.Index.State.{Anchor}
use miqs.Index.Build.{bucket_of}
use miqs.Index.Buckets.{Bucket, read_bucket}
use miqs.Index.Calls.{Call, run_steps}
use miqs.Index.Locking.{System, Step, enter, leave}
use miqs.Index.Locking.Live.{IsInt}
use miqs.Index.Locking.Progress.{Reach-IsLive}
use miqs.Index.Locking.Serial.{Reach-IsSerial}
use miqs.Index.Log.{Fact}
use miqs.Index.Refines.{Represents, same-Represents}
use miqs.Query.{PowerSearchRst, exact_metadata_search}
use miqs.Query.Sharing.{
  Search, Searcher, idle, searching, Answer, Shared, ReadAnswer, indices_since, Act, index_step,
  lock, unlock, Acts, stop, then, start_shared,
}
use miqs.Query.Sharing.Whole.{IsIntSearch, read-whole}
use miqs.Query.Sharing.Kept.{All-snoc, IsUnchanged, IsHeld, Act-IsHeld, start_shared-IsHeld}

module _ ⦃c : Containers⦄ where
  abbrev pub searches_of : Searcher → List Search
  searches_of (idle searches) = searches
  searches_of (searching pos b search rest since) = search ∷ rest

  -- The answer is that of the whole search on the index that the calls make which had returned
  -- before it.
  pub record IsSerialAnswer (a : Anchor) (finished : List (ℕ × Call)) (x : Answer) : Type 0 where
    pub later : List (ℕ × Call)
    pub first : finished ≡ x.before ++ later
    pub index : Anchor
    pub made : run_steps (map (λ e. e.1) x.before) a ≡ some index
    pub found : exact_metadata_search index x.search.attr_name x.search.attribute_value ≡ some x.rst

  pub record IsShared (a : Anchor) (todo : List (List Call)) (s : Shared) : Type 0 where
    pub kept : IsHeld a todo s
    pub ints :
        (k : ℕ) (u : Searcher) → get_elem? s.searchers k ≡ some u → All IsIntSearch (searches_of u)
    pub answered : All (IsSerialAnswer a s.indexing.finished) s.answers

  grown :
      (a : Anchor) (finished more : List (ℕ × Call)) (xs : List Answer)
      → All (IsSerialAnswer a finished) xs
      → All (IsSerialAnswer a (finished ++ more)) xs
  grown a finished more [] h = tt
  grown a finished more (x ∷ xs) (h, hs) = (
    record {
      later = h.later ++ more;
      first = ap (λ l. l ++ more) h.first ∙ append_assoc x.before h.later more;
      index = h.index;
      made = h.made;
      found = h.found;
    },
    grown a finished more xs hs,
  )

  Step-grown :
      {s t : System} → Step s t → (more : List (ℕ × Call)) × (t.finished ≡ s.finished ++ more)
  Step-grown {s} (enter i pos b call rest at place free read) = ([], sym (append-nil s.finished))
  Step-grown {s} (leave i pos us b b' call rest at changed) = ((i, call) ∷ [], refl)

  -- The searches to come of the other threads stay, and those of the thread that steps are given.
  set-searches :
      (us : List Searcher) (i : ℕ) (new : Searcher)
      → ((k : ℕ) (u : Searcher) → get_elem? us k ≡ some u → All IsIntSearch (searches_of u))
      → All IsIntSearch (searches_of new)
      → (k : ℕ) (u : Searcher) → get_elem? (set us i new) k ≡ some u
      → All IsIntSearch (searches_of u)
  set-searches us i new old at_new k u e = elim (get_elem?-set_cases us i new k e) [
    | inl (ik, eq) ↦ subst (λ u. All IsIntSearch (searches_of u)) eq at_new
    | inr (ne, was) ↦ old k u was
  ]

  -- The answer of a search that is released now.
  serial_answer :
      (a : Anchor) (log : List Fact) (todo : List (List Call)) (s : Shared) (i pos : ℕ) (b : Bucket)
      (search : Search) (rest : List Search) (since : ℕ) (rst : PowerSearchRst)
      → Represents a log
      → All (All IsInt) todo
      → IsShared a todo s
      → get_elem? s.searchers i ≡ some (searching pos b search rest since)
      → ReadAnswer (indices_since s since) search rst
      → IsSerialAnswer a s.indexing.finished
          (record { before = s.indexing.finished; search = search; rst = rst })
  unfolding read_bucket
  serial_answer a log todo s i pos b search rest since rst r ints h at read =
      let serial = Reach-IsSerial a todo h.kept.indexed in
      let live = Reach-IsLive a log todo r ints h.kept.indexed in
      let y : Anchor = serial.made in
      let ((now, free), (same, early)) = h.kept.held i _ at in
      let made : Represents y live.log =
        same-Represents s.indexing.index y live.log (ap (λ x. x.parallelism) serial.same)
          (ap (λ x. x.root_art_array) serial.same) (ap (λ x. x.file_paths_list) serial.same)
          (ap (λ x. x.object_paths_list) serial.same) live.represents in
      let here : IsUnchanged pos b search y = record {
        read = ap (λ x. read_bucket x pos) serial.same ∙ now.read;
        place = ap (λ x. bucket_of search.attr_name x.parallelism) serial.same ∙ now.place;
      } in
      record {
        later = [];
        first = sym (append-nil s.indexing.finished);
        index = y;
        made = serial.serial;
        found =
            read-whole y live.log pos b (indices_since s since) search rst (h.ints i _ at).0 made
              here same read;
      }

  Act-IsShared :
      (a : Anchor) (log : List Fact) (todo : List (List Call)) {s t : Shared}
      → Represents a log
      → All (All IsInt) todo
      → Act s t
      → IsShared a todo s
      → IsShared a todo t
  Act-IsShared a log todo {s} r ints (index_step {t} step apart) h =
      let (more, eq) = Step-grown step in
      record {
        kept = Act-IsHeld (index_step step apart) h.kept;
        ints = h.ints;
        answered =
            subst (λ f. All (IsSerialAnswer a f) s.answers) (sym eq)
              (grown a s.indexing.finished more s.answers h.answered);
      }
  Act-IsShared a log todo {s} r ints (lock i pos b search rest at place free read) h = record {
    kept = Act-IsHeld (lock i pos b search rest at place free read) h.kept;
    ints = set-searches s.searchers i _ h.ints (h.ints i _ at);
    answered = h.answered;
  }
  Act-IsShared a log todo {s} r ints (unlock i pos b search rest since rst at read) h = record {
    kept = Act-IsHeld (unlock i pos b search rest since rst at read) h.kept;
    ints = set-searches s.searchers i _ h.ints (h.ints i _ at).1;
    answered =
        All-snoc (IsSerialAnswer a s.indexing.finished) s.answers _ h.answered
          (serial_answer a log todo s i pos b search rest since rst r ints h at read);
  }

  start-ints :
      (searches : List (List Search)) (k : ℕ) (u : Searcher)
      → All (All IsIntSearch) searches
      → get_elem? (map idle searches) k ≡ some u
      → All IsIntSearch (searches_of u)
  start-ints [] k u h e = cc e
  start-ints (l ∷ searches) zero u h e =
      subst (λ u. All IsIntSearch (searches_of u)) (some-injective _ u e) h.0
  start-ints (l ∷ searches) (suc k) u h e = start-ints searches k u h.1 e

  start_shared-IsShared :
      (a : Anchor) (todo : List (List Call)) (searches : List (List Search))
      → All (All IsIntSearch) searches
      → IsShared a todo (start_shared a todo searches)
  unfolding start_shared
  start_shared-IsShared a todo searches h = record {
    kept = start_shared-IsHeld a todo searches;
    ints = λ k u e. start-ints searches k u h e;
    answered = tt;
  }

  -- Threads that index integer attributes and threads that search for integers, on an index that stands
  -- for a log, however their steps follow one another: while a search is under way, its bucket is the
  -- same in all indices since it took its lock; and each answer, whose leaf and whose paths may each be
  -- read at another of these moments, is what `exact_metadata_search` returns at once on the index that
  -- the calls make which had returned before it, one behind the other.
  pub Acts-IsShared :
      (a : Anchor) (log : List Fact) (todo : List (List Call)) (searches : List (List Search))
      {s : Shared}
      → Represents a log
      → All (All IsInt) todo
      → All (All IsIntSearch) searches
      → Acts (start_shared a todo searches) s
      → IsShared a todo s
  Acts-IsShared a log todo searches r ints looked stop =
      start_shared-IsShared a todo searches looked
  Acts-IsShared a log todo searches r ints looked (then acts act) =
      Act-IsShared a log todo r ints act (Acts-IsShared a log todo searches r ints looked acts)

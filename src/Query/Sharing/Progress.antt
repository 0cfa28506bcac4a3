-- ===== src/Query/Sharing/Progress.antt =====
-- Threads that search and threads that index do not wait for one another for ever.
use mathlib.Core.Path.{subst}
use mathlib.Core.Option.{some-injective}
use miqs.Containers.{Containers}
use miqs.Prelude.{
  ℕ, zero, suc, ◌+◌, ◌*◌, ◌≡◌, ◌⊎◌, refl, sym, ap, ◌∙◌, inl, inr, Bool-cases, none, some, List, [],
  ◌∷◌, length, All, get_elem?, Option-cases, total, total-set, arith,
}
use miqs.Index.State.{Anchor}
use miqs.Index.Buckets.{Bucket}
use miqs.Index.Calls.{Call}
use miqs.Index.Log.{Fact}
use miqs.Index.Refines.{Represents}
use miqs.Index.Locking.Live.{IsInt, AllDone, work, Step-work, IsLive, bucket_at}
use miqs.Index.Locking.Progress.{Reach-IsLive, can-Step, nobody_done}
use miqs.Index.Locking.Serial.{Reach-IsSerial}
use miqs.Query.{exact_metadata_search}
use miqs.Query.Sharing.{
  Search, Searcher, idle, searching, Shared, Reads, Act, index_step, lock, unlock, Acts,
  start_shared,
}
use miqs.Query.Sharing.Kept.{IsHeld, Acts-IsHeld}
use miqs.Query.Sharing.Now.{read_now}

module _ ⦃c : Containers⦄ where
  abbrev pub AllIdle : List Searcher → Type 0
  AllIdle = All (λ u. u ≡ idle [])

  abbrev NobodyReads : List Searcher → Type 0
  NobodyReads us = (k p : ℕ) (u : Searcher) → get_elem? us k ≡ some u → ¬ Reads p u

  -- A search under way, if there is one, or one to come.
  data FoundSearch (us : List Searcher) : Type 0 where
    none_left : AllIdle us → NobodyReads us → FoundSearch us
    under_way :
        (i pos : ℕ) (b : Bucket) (search : Search) (rest : List Search) (since : ℕ)
        → get_elem? us i ≡ some (searching pos b search rest since)
        → FoundSearch us
    to_come :
        (i : ℕ) (search : Search) (rest : List Search)
        → get_elem? us i ≡ some (idle (search ∷ rest))
        → NobodyReads us
        → FoundSearch us

  behind_idle : (l : List Search) (us : List Searcher) → NobodyReads us → NobodyReads (idle l ∷ us)
  behind_idle l us h zero p u e it =
      let no : ⊥ = subst (Reads p) (some-injective u _ (sym e)) it in no
  behind_idle l us h (suc k) p u e it = h k p u e it

  find_search : (us : List Searcher) → FoundSearch us
  find_search [] = none_left tt (λ k p u e it. cc e)
  find_search (searching pos b search rest since ∷ us) = under_way 0 pos b search rest since refl
  find_search (idle [] ∷ us) = elim (find_search us) [
    | none_left h nobody ↦ none_left (refl, h) (behind_idle [] us nobody)
    | under_way i pos b search rest since e ↦ under_way (suc i) pos b search rest since e
    | to_come i search rest e nobody ↦ to_come (suc i) search rest e (behind_idle [] us nobody)
  ]
  find_search (idle (x ∷ xs) ∷ us) = elim (find_search us) [
    | none_left h nobody ↦ to_come 0 x xs refl (behind_idle (x ∷ xs) us nobody)
    | under_way i pos b search rest since e ↦ under_way (suc i) pos b search rest since e
    | to_come i search rest e nobody ↦
        to_come (suc i) search rest e (behind_idle (x ∷ xs) us nobody)
  ]

  -- A search under way that faults.
  pub record Faults (s : Shared) : Type 0 where
    pub thread : ℕ
    pub pos : ℕ
    pub bucket : Bucket
    pub search : Search
    pub rest : List Search
    pub since : ℕ
    pub at : get_elem? s.searchers thread ≡ some (searching pos bucket search rest since)
    pub fault :
        exact_metadata_search s.indexing.index search.attr_name search.attribute_value ≡ none

  abbrev pub IsOver : Shared → Type 0
  IsOver s = AllDone s.indexing.threads × AllIdle s.searchers

  -- With no search under way a thread that indexes steps, or a search begins.
  with_nobody :
      {a : Anchor} {todo : List (List Call)} (s : Shared)
      → IsHeld a todo s
      → IsLive s.indexing
      → NobodyReads s.searchers
      → AllDone s.indexing.threads ⊎ ((t : Shared) × Act s t)
  with_nobody {a} {todo} s h l nobody =
      elim (can-Step s.indexing (Reach-IsSerial a todo h.indexed) l) [
        | inl d ↦ inl d
        | inr (t, step) ↦ inr (_, index_step step (λ p k u enters e. nobody k p u e))
      ]

  begins :
      (s : Shared) (i : ℕ) (search : Search) (rest : List Search)
      → IsLive s.indexing
      → AllDone s.indexing.threads
      → get_elem? s.searchers i ≡ some (idle (search ∷ rest))
      → (t : Shared) × Act s t
  begins s i search rest l d at =
      let (pos, b, held, place, read, e) = bucket_at s.indexing search.attr_name l in
      elim (Bool-cases held) [
        | inl taken ↦
            let (k, t, ek, it) = l.owner pos (e ∙ ap some taken) in
            absurd (nobody_done s.indexing.threads d k pos t ek it)
        | inr free ↦ (_, lock i pos b search rest at place (e ∙ ap some free) read)
      ]

  can-Act :
      {a : Anchor} {todo : List (List Call)} (s : Shared)
      → IsHeld a todo s
      → IsLive s.indexing
      → IsOver s ⊎ (((t : Shared) × Act s t) ⊎ Faults s)
  can-Act s h l = elim (find_search s.searchers) [
    | none_left idles nobody ↦ elim (with_nobody s h l nobody) [
      | inl d ↦ inl (d, idles)
      | inr act ↦ inr (inl act)
    ]
    | to_come i search rest at nobody ↦ elim (with_nobody s h l nobody) [
      | inl d ↦ inr (inl (begins s i search rest l d at))
      | inr act ↦ inr (inl act)
    ]
    | under_way i pos b search rest since at ↦
        elim (Option-cases
          (exact_metadata_search s.indexing.index search.attr_name search.attribute_value)) [
            | inl fault ↦ inr (
                inr (record {
                  thread = i;
                  pos = pos;
                  bucket = b;
                  search = search;
                  rest = rest;
                  since = since;
                  at = at;
                  fault = fault;
                }))
            | inr (rst, found) ↦ inr (
                inl (
                  _,
                  unlock i pos b search rest since rst at
                      (read_now s since search rst (h.held i _ at).1.1 found),
                ))
          ]
  ]

  -- The steps that are left.
  abbrev pub search_work : Searcher → ℕ
  search_work (idle searches) = 2 * length searches
  search_work (searching pos b search rest since) = 2 * length rest + 1

  abbrev pub shared_work : Shared → ℕ
  shared_work s = work s.indexing.threads + total search_work s.searchers

  Act-work : {s t : Shared} → Act s t → shared_work s ≡ suc (shared_work t)
  Act-work {s} (index_step step apart) = omega (arith, Step-work step)
  Act-work {s} (lock i pos b search rest at place free read) = omega (
    arith,
    total-set search_work s.searchers i _ (searching pos b search rest (length s.past)) at
        (omega arith),
  )
  Act-work {s} (unlock i pos b search rest since rst at read) =
      omega (arith, total-set search_work s.searchers i _ (idle rest) at (omega arith))

  -- Threads that index integer attributes and threads that search, on an index that stands for a log: in
  -- every state that they reach, all of them are done, or one of them can step, or a search under way
  -- faults; and each step leaves one step less to make, so that no run goes on for ever.
  pub Acts-IsOver :
      (a : Anchor) (log : List Fact) (todo : List (List Call)) (searches : List (List Search))
      (s : Shared)
      → Represents a log
      → All (All IsInt) todo
      → Acts (start_shared a todo searches) s
      → (IsOver s ⊎ (((t : Shared) × Act s t) ⊎ Faults s))
        × ((t : Shared) → Act s t → shared_work s ≡ suc (shared_work t))
  Acts-IsOver a log todo searches s r ints acts =
      let h = Acts-IsHeld a todo searches acts in
      (can-Act s h (Reach-IsLive a log todo r ints h.indexed), λ t act. Act-work act)

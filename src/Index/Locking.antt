-- ===== src/Index/Locking.antt =====
-- Threads that index attributes, with the locks of the buckets. A call of
-- `create_in_mem_index_for_attr` is two steps: it takes the lock of its bucket and reads the bucket,
-- and it writes the bucket back and releases the lock. In between other threads run. No lock
-- protects the counter `us_to_index`: after a step that changes it, it has any value. The searches are in
-- Query/Sharing.antt.
pub mod Steps
pub mod Serial
pub mod Live
pub mod Progress
use miqs.Containers.{Containers}
use miqs.Prelude.{
  ℕ, ◌≡◌, Bool, true, false, some, List, [], ◌∷◌, ◌++◌, map, get_elem?, set, replicate, ◌==◌,
  if◌then◌else◌,
}
use miqs.Index.State.{Anchor}
use miqs.Index.Build.{bucket_of}
use miqs.Index.Buckets.{Bucket, read_bucket, change, write_bucket}
use miqs.Index.Calls.{Call}

module _ ⦃c : Containers⦄ where
  -- A thread between two calls with the calls that it has still to make, or in a call: its bucket, what
  -- it read there, the call, and the calls behind it.
  pub data Thread : Type 0 where
    outside : List Call → Thread
    inside : ℕ → Bucket → Call → List Call → Thread

  -- `GLOBAL_INDEX_LOCK[i]` is true while it is held for writing. The calls that have returned are
  -- recorded with their threads.
  pub record System : Type 0 where
    pub index : Anchor
    pub locks : List Bool
    pub threads : List Thread
    pub finished : List (ℕ × Call)

  pub data Step (s : System) : System → Type 0 where
    enter :
        (i pos : ℕ) (b : Bucket) (call : Call) (rest : List Call)
        → get_elem? s.threads i ≡ some (outside (call ∷ rest))
        → bucket_of call.1.attr_name s.index.parallelism ≡ some pos
        → get_elem? s.locks pos ≡ some false
        → read_bucket s.index pos ≡ some b
        → Step s (record s {
          locks = set s.locks pos true;
          threads = set s.threads i (inside pos b call rest);
        })
    leave :
        (i pos us : ℕ) (b b' : Bucket) (call : Call) (rest : List Call)
        → get_elem? s.threads i ≡ some (inside pos b call rest)
        → change pos call.1 b ≡ some b'
        → Step s (record {
          index = record (write_bucket s.index call.0 pos b') { us_to_index = us };
          locks = set s.locks pos false;
          threads = set s.threads i (outside rest);
          finished = s.finished ++ (i, call) ∷ [];
        })

  pub data Reach (s : System) : System → Type 0 where
    here : Reach s s
    next : {t u : System} → Reach s t → Step t u → Reach s u

  -- All locks are free.
  unfoldable pub start_threads : Anchor → List (List Call) → System
  start_threads a todo = record {
    index = a;
    locks = replicate a.parallelism false;
    threads = map outside todo;
    finished = [];
  }

  -- The calls of a thread that have not returned.
  abbrev pub remaining : Thread → List Call
  remaining (outside calls) = calls
  remaining (inside pos b call rest) = call ∷ rest

  -- The calls of a thread that have returned, in order.
  abbrev pub returned : ℕ → List (ℕ × Call) → List Call
  returned i [] = []
  returned i ((j, call) ∷ l) = if j == i then call ∷ returned i l else returned i l

  -- The thread is in a call on the bucket.
  abbrev pub IsIn : ℕ → Thread → Type 0
  IsIn pos (outside calls) = ⊥
  IsIn pos (inside q b call rest) = pos ≡ q

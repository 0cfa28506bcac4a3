-- ===== src/Tests/Locking.antt =====
-- Runs of threads under the locks.
use miqs.Containers.Assoc.{assoc}
use miqs.Hashing.{djb2_loop, djb2_hash}
use miqs.Index.Build.{init_in_mem_index, bucket_of}
use miqs.Index.Buckets.{Bucket, read_bucket}
use miqs.Index.Calls.{Call}
use miqs.Index.Locking.{System, Step, Reach, here, next, enter, inside, outside, start_threads}
use miqs.Index.Locking.Live.{IsInt, AllDone, work}
use miqs.Index.Locking.Progress.{Reach-AllDone}
use miqs.Index.Locking.Serial.{Reach-IsSerial}
use miqs.Index.Locking.Steps.{IsSerial}
use miqs.Index.Refines.{init-Represents}
use miqs.Prelude.{suc, ◌≡◌, ◌⊎◌, refl, true, false, List, [], ◌∷◌, All, arith}
use miqs.Tests.{start, plate_run, plate_sky}

-- Two threads with an attribute of the same name each.
abbrev two_threads : List (List Call)
two_threads = ((1, plate_run) ∷ []) ∷ ((2, plate_sky) ∷ []) ∷ []

abbrev empty_bucket : Bucket
empty_bucket = record { art = []; tables = record { files = []; objects = [] } }

-- The second thread has taken the lock.
abbrev second_in : System
second_in = record {
  index = start;
  locks = false ∷ false ∷ false ∷ true ∷ [];
  threads = outside ((1, plate_run) ∷ []) ∷ inside 3 empty_bucket (2, plate_sky) [] ∷ [];
  finished = [];
}

second_enters : Reach (start_threads start two_threads) second_in
unfolding start_threads init_in_mem_index bucket_of djb2_hash djb2_loop read_bucket
second_enters = next here (enter 1 3 empty_bucket (2, plate_sky) [] refl refl refl refl)

Reach-IsSerial_example : IsSerial start two_threads second_in
Reach-IsSerial_example = Reach-IsSerial start two_threads second_enters

calls_of_integers : All (All IsInt) two_threads
calls_of_integers = (((_, _, _, _, refl), tt), (((_, _, _, _, refl), tt), tt))

Reach-AllDone_example :
    (AllDone second_in.threads ⊎ ((t : System) × Step second_in t))
    × ((t : System) → Step second_in t → work second_in.threads ≡ suc (work t.threads))
    × ((t : System) × Reach second_in t × AllDone t.threads)
Reach-AllDone_example =
    Reach-AllDone start [] two_threads second_in (init-Represents 4 (omega arith)) calls_of_integers
      second_enters

-- ===== src/Index/Locking/Serial.antt =====
-- The locks make the calls of all threads as if one ran behind the other.
use mathlib.Core.Path.{subst}
use mathlib.Core.Option.{some-injective}
use miqs.Containers.{Containers}
use miqs.Prelude.{ℕ, zero, suc, ◌≡◌, refl, sym, some, List, [], ◌∷◌, map, get_elem?}
use miqs.Index.State.{Anchor}
use miqs.Index.Calls.{Call, run_steps}
use miqs.Index.Locking.{
  Thread, outside, System, Step, enter, leave, Reach, here, next, start_threads, remaining, IsIn,
}
use miqs.Index.Locking.Steps.{Held, IsSerial, enter-IsSerial, leave-IsSerial}

module _ ⦃c : Containers⦄ where
  pub started :
      (todo : List (List Call)) (k : ℕ) (t : Thread)
      → get_elem? (map outside todo) k ≡ some t
      → (calls : List Call) × (outside calls ≡ t) × (get_elem? todo k ≡ some calls)
  started [] k t e = cc
  started (calls ∷ todo) zero t e = (calls, some-injective _ t e, refl)
  started (calls ∷ todo) (suc k) t e = started todo k t e

  pub Step-IsSerial :
      {a : Anchor} {todo : List (List Call)} {s t : System}
      → Step s t
      → IsSerial a todo s
      → IsSerial a todo t
  Step-IsSerial {a} {todo} {s} (enter i pos b call rest at place free read) h =
      enter-IsSerial a todo s h i pos call rest b at place free read
  Step-IsSerial {a} {todo} {s} (leave i pos us b b' call rest at changed) h =
      leave-IsSerial a todo s h i pos call rest us b b' at changed

  start_threads-IsSerial :
      (a : Anchor) (todo : List (List Call)) → IsSerial a todo (start_threads a todo)
  unfolding start_threads run_steps
  start_threads-IsSerial a todo = record {
    held = λ k t e.
        let (calls, eq, old) = started todo k t e in subst (Held (start_threads a todo)) eq tt;
    alone = λ q j k t u ej ek it iu.
        let (calls, eq, old) = started todo j t ej in
        let no : ⊥ = subst (IsIn q) (sym eq) it in absurd no;
    made = a;
    serial = refl;
    same = refl;
    ordered = λ k t e.
        let (calls, eq, old) = started todo k t e in
        subst (λ t. get_elem? todo k ≡ some (remaining t)) eq old;
  }

  -- However the steps of any number of threads follow one another: at most one thread is in a bucket,
  -- and what it read there is what the bucket holds until it writes it back; the index, but for the
  -- counter `us_to_index`, which has any value, is what the calls that have returned make of the first
  -- one when they are made one behind the other in the order in which they returned; and each thread
  -- makes its calls in its order.
  pub Reach-IsSerial :
      (a : Anchor) (todo : List (List Call)) {s : System}
      → Reach (start_threads a todo) s
      → IsSerial a todo s
  Reach-IsSerial a todo here = start_threads-IsSerial a todo
  Reach-IsSerial a todo (next r step) = Step-IsSerial step (Reach-IsSerial a todo r)

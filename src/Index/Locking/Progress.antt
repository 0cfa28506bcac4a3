-- ===== src/Index/Locking/Progress.antt =====
-- Threads that index integer attributes do not wait for ever.
use mathlib.Core.Path.{subst}
use mathlib.Core.Option.{some-injective}
use miqs.Containers.{Containers}
use miqs.Prelude.{
  ◌+◌, ℕ, zero, suc, ◌≡◌, ◌⊎◌, refl, sym, ap, ◌∙◌, inl, inr, false, some, List, [], ◌∷◌, All,
  get_elem?, All-get_elem?, get_elem?-replicate, length-replicate, Bool-cases, arith,
}
use miqs.Index.State.{Anchor}
use miqs.Index.Buckets.{Bucket}
use miqs.Index.Calls.{Call}
use miqs.Index.Log.{Fact}
use miqs.Index.Refines.{Represents}
use miqs.Index.Locking.{
  Thread, outside, inside, System, Step, enter, leave, Reach, here, next, start_threads, remaining,
  IsIn,
}
use miqs.Index.Locking.Steps.{IsSerial}
use miqs.Index.Locking.Serial.{Reach-IsSerial, started}
use miqs.Index.Locking.Live.{
  IsInt, AllDone, work, Step-work, IsLive, call-change, Step-IsLive, bucket_at,
}

module _ ⦃c : Containers⦄ where
  open c use {Lst, Art}

  -- A thread that can step, if not all are done.
  data Found (ts : List Thread) : Type 0 where
    all_done : AllDone ts → Found ts
    in_call :
        (i pos : ℕ) (b : Bucket) (call : Call) (rest : List Call)
        → get_elem? ts i ≡ some (inside pos b call rest)
        → Found ts
    waiting :
        (i : ℕ) (call : Call) (rest : List Call)
        → get_elem? ts i ≡ some (outside (call ∷ rest))
        → ((k p : ℕ) (t : Thread) → get_elem? ts k ≡ some t → ¬ IsIn p t)
        → Found ts

  behind_outside :
      (calls : List Call) (ts : List Thread)
      → ((k p : ℕ) (t : Thread) → get_elem? ts k ≡ some t → ¬ IsIn p t)
      → (k p : ℕ) (t : Thread) → get_elem? (outside calls ∷ ts) k ≡ some t
      → ¬ IsIn p t
  behind_outside calls ts h zero p t e it =
      let no : ⊥ = subst (IsIn p) (some-injective t _ (sym e)) it in no
  behind_outside calls ts h (suc k) p t e it = h k p t e it

  pub nobody_done :
      (ts : List Thread)
      → AllDone ts
      → (k p : ℕ) (t : Thread) → get_elem? ts k ≡ some t
      → ¬ IsIn p t
  nobody_done [] h k p t e it = cc e
  nobody_done (x ∷ ts) (d, h) zero p t e it =
      let no : ⊥ = subst (IsIn p) (some-injective t _ (sym e) ∙ d) it in no
  nobody_done (x ∷ ts) (d, h) (suc k) p t e it = nobody_done ts h k p t e it

  find_thread : (ts : List Thread) → Found ts
  find_thread [] = all_done tt
  find_thread (inside pos b call rest ∷ ts) = in_call 0 pos b call rest refl
  find_thread (outside [] ∷ ts) = elim (find_thread ts) [
    | all_done h ↦ all_done (refl, h)
    | in_call i pos b call rest e ↦ in_call (suc i) pos b call rest e
    | waiting i call rest e nobody ↦ waiting (suc i) call rest e (behind_outside [] ts nobody)
  ]
  find_thread (outside (x ∷ xs) ∷ ts) = elim (find_thread ts) [
    | all_done h ↦ waiting 0 x xs refl (behind_outside (x ∷ xs) ts (nobody_done ts h))
    | in_call i pos b call rest e ↦ in_call (suc i) pos b call rest e
    | waiting i call rest e nobody ↦ waiting (suc i) call rest e (behind_outside (x ∷ xs) ts nobody)
  ]

  -- The locks of the buckets cannot all be waited for.
  pub can-Step :
      {a : Anchor} {todo : List (List Call)} (s : System)
      → IsSerial a todo s
      → IsLive s
      → AllDone s.threads ⊎ ((t : System) × Step s t)
  can-Step s h l = elim (find_thread s.threads) [
    | all_done d ↦ inl d
    | in_call i pos b call rest at ↦
        let (read, place, lock) = h.held i (inside pos b call rest) at in
        let (int, ints) = l.ints i (inside pos b call rest) at in
        let (b', log', changed, r') = call-change s l.log pos b call l.represents int read place in
        inr (_, leave i pos (s.index.us_to_index + call.0) b b' call rest at changed)
    | waiting i call rest at nobody ↦
        let (pos, b, held, place, read, lock) = bucket_at s call.1.attr_name l in
        elim (Bool-cases held) [
          | inl taken ↦
              let (k, t, ek, it) = l.owner pos (lock ∙ ap some taken) in
              absurd (nobody k pos t ek it)
          | inr free ↦ inr (_, enter i pos b call rest at place (lock ∙ ap some free) read)
        ]
  ]

  start_threads-IsLive :
      (a : Anchor) (log : List Fact) (todo : List (List Call))
      → Represents a log
      → All (All IsInt) todo
      → IsLive (start_threads a todo)
  unfolding start_threads
  start_threads-IsLive a log todo r ints = record {
    log = log;
    represents = r;
    ints = λ k t e.
        let (calls, eq, old) = started todo k t e in
        subst (λ t. All IsInt (remaining t)) eq (All-get_elem? (All IsInt) todo k ints old);
    width = length-replicate a.parallelism false;
    owner = λ pos e. cc (get_elem?-replicate a.parallelism false pos e);
  }

  pub Reach-IsLive :
      (a : Anchor) (log : List Fact) (todo : List (List Call)) {s : System}
      → Represents a log
      → All (All IsInt) todo
      → Reach (start_threads a todo) s
      → IsLive s
  Reach-IsLive a log todo r ints here = start_threads-IsLive a log todo r ints
  Reach-IsLive a log todo r ints (next reach step) =
      Step-IsLive step (Reach-IsSerial a todo reach) (Reach-IsLive a log todo r ints reach)

  Step-Reach : {s t u : System} → Step s t → Reach t u → Reach s u
  Step-Reach step here = next here step
  Step-Reach step (next r last) = next (Step-Reach step r) last

  run_on :
      (a : Anchor) (log : List Fact) (todo : List (List Call)) (n : ℕ) (s : System)
      → Represents a log
      → All (All IsInt) todo
      → Reach (start_threads a todo) s
      → work s.threads ≡ n
      → (t : System) × Reach s t × AllDone t.threads
  run_on a log todo zero s r ints reach h =
      elim (can-Step s (Reach-IsSerial a todo reach) (Reach-IsLive a log todo r ints reach)) [
        | inl d ↦ (s, here, d)
        | inr (t, step) ↦ absurd (omega (arith, Step-work step, h))
      ]
  run_on a log todo (suc n) s r ints reach h =
      elim (can-Step s (Reach-IsSerial a todo reach) (Reach-IsLive a log todo r ints reach)) [
        | inl d ↦ (s, here, d)
        | inr (t, step) ↦
            let (u, onward, d) =
              run_on a log todo n t r ints (next reach step) (omega (arith, Step-work step, h)) in
            (u, Step-Reach step onward, d)
      ]

  -- Threads that index integer attributes, on an index that stands for a log: in every state that they
  -- reach, all of them are done or one of them can step, each step leaves one step less to make, and
  -- from there a state is reached in which all are done.
  pub Reach-AllDone :
      (a : Anchor) (log : List Fact) (todo : List (List Call)) (s : System)
      → Represents a log
      → All (All IsInt) todo
      → Reach (start_threads a todo) s
      → (AllDone s.threads ⊎ ((t : System) × Step s t))
        × ((t : System) → Step s t → work s.threads ≡ suc (work t.threads))
        × ((t : System) × Reach s t × AllDone t.threads)
  Reach-AllDone a log todo s r ints reach = (
    can-Step s (Reach-IsSerial a todo reach) (Reach-IsLive a log todo r ints reach),
    λ t step. Step-work step,
    run_on a log todo (work s.threads) s r ints reach refl,
  )

-- ===== src/Index/Locking/Steps.antt =====
-- One step of threads under the locks of the buckets.
use mathlib.Core.Path.{subst}
use mathlib.Core.Option.{some-injective}
use miqs.Containers.{Containers}
use miqs.Prelude.{
  ℕ, bind-eq-some, ◌≡◌, ◌≢◌, refl, sym, ap, ◌∙◌, inl, inr, true, false, some, List, [], ◌∷◌, ◌++◌,
  map, get_elem?, set, get_elem?-set_cases, get_elem?-set_ne, get_elem?-set_self,
  lt-length-get_elem?, arith, append_assoc,
}
use miqs.Index.State.{Anchor}
use miqs.Index.Build.{bucket_of, create_in_mem_index_for_attr}
use miqs.Index.Buckets.{Bucket, read_bucket, change, write_bucket, create_eq, read-write_bucket}
use miqs.Index.Calls.{Call, run_steps}
use miqs.Index.Locking.{Thread, outside, inside, System, remaining, returned, IsIn}

module _ ⦃c : Containers⦄ where
  -- A thread in a call has read what is still in the bucket, and holds its lock.
  abbrev pub Held : System → Thread → Type 0
  Held s (outside calls) = Unit {0}
  Held s (inside pos b call rest) =
      (read_bucket s.index pos ≡ some b)
      × (bucket_of call.1.attr_name s.index.parallelism ≡ some pos)
      × (get_elem? s.locks pos ≡ some true)

  pub record IsSerial (a : Anchor) (todo : List (List Call)) (s : System) : Type 0 where
    pub held : (k : ℕ) (t : Thread) → get_elem? s.threads k ≡ some t → Held s t
    -- At most one thread is in a bucket.
    pub alone :
        (pos i k : ℕ) (t u : Thread)
        → get_elem? s.threads i ≡ some t
        → get_elem? s.threads k ≡ some u
        → IsIn pos t
        → IsIn pos u
        → i ≡ k
    -- The index, but for the counter, is what the calls that have returned make of the first one, in
    -- the order in which they returned.
    pub made : Anchor
    pub serial : run_steps (map (λ e. e.1) s.finished) a ≡ some made
    pub same : record made { us_to_index = s.index.us_to_index } ≡ s.index
    -- Each thread makes its calls in order.
    pub ordered :
        (k : ℕ) (t : Thread)
        → get_elem? s.threads k ≡ some t
        → get_elem? todo k ≡ some (returned k s.finished ++ remaining t)

  locked :
      (s : System) (pos : ℕ) (t : Thread)
      → Held s t
      → IsIn pos t
      → get_elem? s.locks pos ≡ some true
  locked s pos (outside calls) h i = elim i [ ]
  locked s pos (inside q b call rest) h i = ap (get_elem? s.locks) i ∙ h.2

  returned-append_same :
      (l : List (ℕ × Call)) (i : ℕ) (call : Call)
      → returned i (l ++ (i, call) ∷ []) ≡ returned i l ++ call ∷ []
  returned-append_same [] i call = ground arith
  returned-append_same ((j, x) ∷ l) i call = ground (arith, returned-append_same l i call)

  returned-append_other :
      (l : List (ℕ × Call)) (i k : ℕ) (call : Call)
      → i ≢ k
      → returned k (l ++ (i, call) ∷ []) ≡ returned k l
  returned-append_other [] i k call ne = ground arith
  returned-append_other ((j, x) ∷ l) i k call ne =
      ground (arith, returned-append_other l i k call ne)

  run_steps-snoc :
      (l : List (ℕ × Call)) (i : ℕ) (call : Call) (a b d : Anchor)
      → run_steps (map (λ e. e.1) l) a ≡ some b
      → create_in_mem_index_for_attr call.0 b call.1 ≡ some d
      → run_steps (map (λ e. e.1) (l ++ (i, call) ∷ [])) a ≡ some d
  unfolding run_steps
  run_steps-snoc [] i call a b d run one = rw (some-injective a b run, one)
  run_steps-snoc ((j, x) ∷ l) i call a b d run one =
      let (m, first, others) = bind-eq-some (create_in_mem_index_for_attr x.0 a x.1) _ run in
      rw first (run_steps-snoc l i call m b d others one)

  module _ (a : Anchor) (todo : List (List Call)) (s : System) (h : IsSerial a todo s) (i pos : ℕ)
      (call : Call) (rest : List Call) where
    module _ (b : Bucket) (at : get_elem? s.threads i ≡ some (outside (call ∷ rest)))
        (place : bucket_of call.1.attr_name s.index.parallelism ≡ some pos)
        (free : get_elem? s.locks pos ≡ some false) (read : read_bucket s.index pos ≡ some b) where
      abbrev pub entered : System
      entered = record s {
        locks = set s.locks pos true;
        threads = set s.threads i (inside pos b call rest);
      }

      lock_taken : (q : ℕ) → get_elem? s.locks q ≡ some true → pos ≢ q
      lock_taken q e same = cc (ap (get_elem? s.locks) same ∙ e)

      enter-Held : (t : Thread) → Held s t → Held entered t
      enter-Held (outside calls) h' = tt
      enter-Held (inside q x y z) (hr, hp, hl) =
          (hr, hp, get_elem?-set_ne s.locks pos q true (lock_taken q hl) ∙ hl)

      entered_thread : Held entered (inside pos b call rest)
      entered_thread =
          (read, place, get_elem?-set_self s.locks pos true (lt-length-get_elem? s.locks pos free))

      -- No other thread is in the bucket that is entered.
      nobody-IsIn : (k : ℕ) (u : Thread) → get_elem? s.threads k ≡ some u → ¬ IsIn pos u
      nobody-IsIn k u e it = lock_taken pos (locked s pos u (h.held k u e) it) refl

      enter-alone :
          (q j k : ℕ) (t u : Thread)
          → get_elem? entered.threads j ≡ some t
          → get_elem? entered.threads k ≡ some u
          → IsIn q t
          → IsIn q u
          → j ≡ k
      enter-alone q j k t u ej ek it iu = elim (get_elem?-set_cases s.threads i _ j ej) [
        | inl (at_j, eq_j) ↦ elim (get_elem?-set_cases s.threads i _ k ek) [
          | inl (at_k, eq_k) ↦ sym at_j ∙ at_k
          | inr (ne, old) ↦
              let here : q ≡ pos = subst (IsIn q) (sym eq_j) it in
              absurd (nobody-IsIn k u old (subst (λ p. IsIn p u) here iu))
        ]
        | inr (ne, old_j) ↦ elim (get_elem?-set_cases s.threads i _ k ek) [
          | inl (at_k, eq_k) ↦
              let here : q ≡ pos = subst (IsIn q) (sym eq_k) iu in
              absurd (nobody-IsIn j t old_j (subst (λ p. IsIn p t) here it))
          | inr (ne', old_k) ↦ h.alone q j k t u old_j old_k it iu
        ]
      ]

      pub enter-IsSerial : IsSerial a todo entered
      enter-IsSerial = record {
        held = λ k t e. elim (get_elem?-set_cases s.threads i _ k e) [
          | inl (ik, eq) ↦ subst (Held entered) eq entered_thread
          | inr (ne, old) ↦ enter-Held t (h.held k t old)
        ];
        alone = enter-alone;
        made = h.made;
        serial = h.serial;
        same = h.same;
        ordered = λ k t e. elim (get_elem?-set_cases s.threads i _ k e) [
          | inl (ik, eq) ↦
              subst (λ t. get_elem? todo k ≡ some (returned k s.finished ++ remaining t)) eq
                (h.ordered k _ (ap (get_elem? s.threads) (sym ik) ∙ at))
          | inr (ne, old) ↦ h.ordered k t old
        ];
      }

    module _ (us : ℕ) (b b' : Bucket) (at : get_elem? s.threads i ≡ some (inside pos b call rest))
        (changed : change pos call.1 b ≡ some b') where
      abbrev pub left_system : System
      left_system = record {
        index = record (write_bucket s.index call.0 pos b') { us_to_index = us };
        locks = set s.locks pos false;
        threads = set s.threads i (outside rest);
        finished = s.finished ++ (i, call) ∷ [];
      }

      other_bucket :
          (k q : ℕ) (u : Thread) → get_elem? s.threads k ≡ some u → i ≢ k → IsIn q u → pos ≢ q
      other_bucket k q u e ne iu same =
          ne (h.alone q i k (inside pos b call rest) u at e (sym same) iu)

      leave-Held :
          (k : ℕ) (t : Thread)
          → get_elem? s.threads k ≡ some t
          → i ≢ k
          → Held s t
          → Held left_system t
      unfolding write_bucket read_bucket
      leave-Held k (outside calls) e ne h' = tt
      leave-Held k (inside q x y z) e ne (hr, hp, hl) =
          let apart : pos ≢ q = other_bucket k q (inside q x y z) e ne refl in
          (
            read-write_bucket s.index call.0 pos q b' apart ∙ hr,
            hp,
            get_elem?-set_ne s.locks pos q false apart ∙ hl,
          )

      old_thread :
          (k q : ℕ) (t : Thread)
          → get_elem? left_system.threads k ≡ some t
          → IsIn q t
          → get_elem? s.threads k ≡ some t
      old_thread k q t e it = elim (get_elem?-set_cases s.threads i _ k e) [
        | inl (ik, eq) ↦ let no : ⊥ = subst (IsIn q) (sym eq) it in absurd no
        | inr (ne, old) ↦ old
      ]

      -- The bucket is the same in the index that the calls before make alone.
      same_read : read_bucket h.made pos ≡ some b
      unfolding read_bucket
      same_read =
          let (read, place, lock) = h.held i (inside pos b call rest) at in
          ap (λ x. read_bucket x pos) h.same ∙ read

      created :
          create_in_mem_index_for_attr call.0 h.made call.1
          ≡ some (write_bucket h.made call.0 pos b')
      created =
          let (read, place, lock) = h.held i (inside pos b call rest) at in
          create_eq call.0 h.made call.1 pos
            (ap (λ x. bucket_of call.1.attr_name x.parallelism) h.same ∙ place)
          ∙ rw (same_read, changed) refl

      same_left :
          record (write_bucket h.made call.0 pos b') { us_to_index = us } ≡ left_system.index
      unfolding write_bucket
      same_left = ap (λ x. record (write_bucket x call.0 pos b') { us_to_index = us }) h.same

      pub leave-IsSerial : IsSerial a todo left_system
      leave-IsSerial = record {
        held = λ k t e. elim (get_elem?-set_cases s.threads i _ k e) [
          | inl (ik, eq) ↦ subst (Held left_system) eq tt
          | inr (ne, old) ↦ leave-Held k t old ne (h.held k t old)
        ];
        alone = λ q j k t u ej ek it iu.
            h.alone q j k t u (old_thread j q t ej it) (old_thread k q u ek iu) it iu;
        made = write_bucket h.made call.0 pos b';
        serial = run_steps-snoc s.finished i call a h.made _ h.serial created;
        same = same_left;
        ordered = λ k t e. elim (get_elem?-set_cases s.threads i _ k e) [
          | inl (ik, eq) ↦
              subst
                (λ t.
                  get_elem? todo k
                  ≡ some (returned k (s.finished ++ (i, call) ∷ []) ++ remaining t))
                eq
                (subst
                  (λ k. get_elem? todo k ≡ some (returned k (s.finished ++ (i, call) ∷ []) ++ rest))
                  ik
                  (h.ordered i _ at
                    ∙ ap some (
                        rw (returned-append_same s.finished i call)
                          (sym (append_assoc (returned i s.finished) (call ∷ []) rest)))))
          | inr (ne, old) ↦ rw (returned-append_other s.finished i k call ne) (h.ordered k t old)
        ];
      }

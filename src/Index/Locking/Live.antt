-- ===== src/Index/Locking/Live.antt =====
-- What every step of threads that index integer attributes keeps, and how many steps are left.
use mathlib.Core.Path.{subst}
use mathlib.Core.Option
use mathlib.Core.Option.{some-injective}
use miqs.Containers.{Containers}
use miqs.Prelude.{
  Bool, refl, ℕ, suc, ◌+◌, ◌*◌, ◌≡◌, sym, ap, ◌∙◌, inl, inr, true, false, some, List, [], ◌∷◌, ◌++◌,
  Bytes, length, All, total, total-set, get_elem?-lt, ◌%◌, ◌<◌, get_elem?, set, get_elem?-set_cases,
  get_elem?-set_ne, get_elem?-set_self, lt-length-get_elem?, length-set, Option-cases, arith, ◌>>=◌,
}
use miqs.Index.State.{Anchor}
use miqs.Index.Build.{bucket_of, create_in_mem_index_for_attr}
use miqs.Index.Buckets.{Bucket, read_bucket, change, write_bucket, create_eq}
use miqs.Index.Calls.{Call}
use miqs.Index.Log.{Fact, facts_of}
use miqs.Index.Refines.{
  same-Represents, Represents, int_attribute, create-Represents, bucket_of-pos,
}
use miqs.Hashing.{djb2_hash}
use native.Mathlib.Nat.{mod-lt}
use miqs.Index.Locking.{Thread, outside, inside, System, Step, enter, leave, remaining, IsIn}
use miqs.Index.Locking.Steps.{IsSerial}

-- The call indexes an attribute of integers.
abbrev pub IsInt : Call → Type 0
IsInt call =
    (name : Bytes) × (vs : List ℕ) × (file object : Bytes) × (call.1
      ≡ int_attribute name vs file object)

module _ ⦃c : Containers⦄ where
  open c use {Lst, Art}

  abbrev pub AllDone : List Thread → Type 0
  AllDone = All (λ t. t ≡ outside [])

  -- The steps that a thread has still to make, and those of all threads.
  abbrev pub thread_work : Thread → ℕ
  thread_work (outside calls) = 2 * length calls
  thread_work (inside pos b call rest) = 2 * length rest + 1

  abbrev pub work : List Thread → ℕ
  work = total thread_work

  pub Step-work : {s t : System} → Step s t → work s.threads ≡ suc (work t.threads)
  Step-work {s} (enter i pos b call rest at place free read) =
      total-set thread_work s.threads i _ _ at (omega arith)
  Step-work {s} (leave i pos us b b' call rest at changed) =
      total-set thread_work s.threads i _ _ at (omega arith)

  -- The index stands for a log, all calls to come are of integers, and a lock that is held has a
  -- thread that holds it.
  pub record IsLive (s : System) : Type 0 where
    pub log : List Fact
    pub represents : Represents s.index log
    pub ints : (k : ℕ) (t : Thread) → get_elem? s.threads k ≡ some t → All IsInt (remaining t)
    pub width : length s.locks ≡ s.index.parallelism
    pub owner :
        (pos : ℕ)
        → get_elem? s.locks pos ≡ some true
        → (k : ℕ) × (t : Thread) × (get_elem? s.threads k ≡ some t) × IsIn pos t

  -- The bucket of a name is there, with its lock.
  pub bucket_at :
      (s : System) (name : Bytes)
      → IsLive s
      → (pos : ℕ) × (b : Bucket) × (held : Bool) × (bucket_of name s.index.parallelism ≡ some pos)
        × (read_bucket s.index pos ≡ some b)
        × (get_elem? s.locks pos ≡ some held)
  unfolding read_bucket
  bucket_at s name l =
      let r = l.represents in
      let pos : ℕ = djb2_hash name % s.index.parallelism in
      let below : pos < s.index.parallelism = mod-lt (djb2_hash name) r.positive in
      let (held, el) = get_elem?-lt s.locks pos (omega (arith, l.width)) in
      let (art, ea) = get_elem?-lt s.index.root_art_array pos (omega (arith, r.arts)) in
      let (f, ef) = get_elem?-lt s.index.file_paths_list pos (omega (arith, r.files)) in
      let (o, eo) = get_elem?-lt s.index.object_paths_list pos (omega (arith, r.objects)) in
      (
        pos,
        record { art = art; tables = record { files = f; objects = o } },
        held,
        bucket_of-pos name s.index.parallelism r.positive,
        rw (ea, ef, eo) refl,
        el,
      )

  -- What a call of integers makes of a bucket.
  pub call-change :
      (s : System) (log : List Fact) (pos : ℕ) (b : Bucket) (call : Call)
      → Represents s.index log
      → IsInt call
      → read_bucket s.index pos ≡ some b
      → bucket_of call.1.attr_name s.index.parallelism ≡ some pos
      → (b' : Bucket) × (log' : List Fact) × (change pos call.1 b ≡ some b')
        × Represents (write_bucket s.index call.0 pos b') log'
  call-change s log pos b call r (name, vs, file, object, int) read place =
      let (a', created, r') = create-Represents s.index log call.0 name vs file object r in
      let steps : Option.map (write_bucket s.index call.0 pos) (change pos call.1 b) ≡ some a' =
        ap (λ m. Option.map (write_bucket s.index call.0 pos) (m >>= change pos call.1)) (sym read)
        ∙ sym (create_eq call.0 s.index call.1 pos place)
        ∙ ap (create_in_mem_index_for_attr call.0 s.index) int
        ∙ created in
      elim (Option-cases (change pos call.1 b)) [
        | inl n ↦ cc (sym (ap (Option.map (write_bucket s.index call.0 pos)) n) ∙ steps)
        | inr (b', e) ↦
            let same : write_bucket s.index call.0 pos b' ≡ a' =
              some-injective _ a'
                (sym (ap (Option.map (write_bucket s.index call.0 pos)) e) ∙ steps) in
            (
              b',
              _,
              e,
              subst (λ x. Represents x (log ++ facts_of name vs file object)) (sym same) r',
            )
      ]

  keep_owner :
      (ts : List Thread) (i p k : ℕ) (old new t : Thread)
      → get_elem? ts i ≡ some old
      → ¬ IsIn p old
      → get_elem? ts k ≡ some t
      → IsIn p t
      → (k : ℕ) × (t : Thread) × (get_elem? (set ts i new) k ≡ some t) × IsIn p t
  keep_owner ts i p k old new t at out e it = (
    k,
    t,
    get_elem?-set_ne ts i k new (λ same.
          out (
            subst (IsIn p) (some-injective t old (sym e ∙ (ap (get_elem? ts) (sym same) ∙ at))) it))
        ∙ e,
    it,
  )

  -- The calls to come of the other threads stay, and those of the thread that steps are given.
  set-ints :
      (ts : List Thread) (i : ℕ) (new : Thread)
      → ((k : ℕ) (t : Thread) → get_elem? ts k ≡ some t → All IsInt (remaining t))
      → All IsInt (remaining new)
      → (k : ℕ) (t : Thread) → get_elem? (set ts i new) k ≡ some t
      → All IsInt (remaining t)
  set-ints ts i new old at_new k t e = elim (get_elem?-set_cases ts i new k e) [
    | inl (ik, eq) ↦ subst (λ u. All IsInt (remaining u)) eq at_new
    | inr (ne, was) ↦ old k t was
  ]

  pub Step-IsLive :
      {a : Anchor} {todo : List (List Call)} {s t : System}
      → Step s t
      → IsSerial a todo s
      → IsLive s
      → IsLive t
  unfolding write_bucket
  Step-IsLive {a} {todo} {s} (enter i pos b call rest at place free read) h l = record {
    log = l.log;
    represents = l.represents;
    ints = set-ints s.threads i _ l.ints (l.ints i _ at);
    width = length-set s.locks pos true ∙ l.width;
    owner = λ p e. elim (get_elem?-set_cases s.locks pos true p e) [
      | inl (pp, eq) ↦ (
        i,
        inside pos b call rest,
        get_elem?-set_self s.threads i _ (lt-length-get_elem? s.threads i at),
        sym pp,
      )
      | inr (ne, old) ↦
          let (k, t, ek, it) = l.owner p old in
          keep_owner s.threads i p k (outside (call ∷ rest)) _ t at (λ no. no) ek it
    ];
  }
  Step-IsLive {a} {todo} {s} (leave i pos us b b' call rest at changed) h l =
      let (read, place, lock) = h.held i (inside pos b call rest) at in
      let (int, ints) = l.ints i (inside pos b call rest) at in
      let (b1, log', e1, r') = call-change s l.log pos b call l.represents int read place in
      record {
        log = log';
        represents =
            same-Represents (write_bucket s.index call.0 pos b') _ log' refl refl refl refl (
              subst (λ x. Represents (write_bucket s.index call.0 pos x) log')
                (some-injective b1 b' (sym e1 ∙ changed)) r');
        ints = set-ints s.threads i _ l.ints ints;
        width = length-set s.locks pos false ∙ l.width;
        owner = λ p e. elim (get_elem?-set_cases s.locks pos false p e) [
          | inl (pp, eq) ↦ cc eq
          | inr (ne, old) ↦
              let (k, t, ek, it) = l.owner p old in
              keep_owner s.threads i p k (inside pos b call rest) _ t at (λ q. ne (sym q)) ek it
        ];
      }

-- ===== src/Index/Finishes.antt =====
-- `load_aof` comes to an end.
use miqs.Containers.{Containers}
use miqs.Prelude.{
  ℕ, zero, suc, ◌+◌, ◌<◌, ◌≢◌, Option, none, some, [], ◌∷◌, Bytes, length, ◌>>=◌, Option-cases, inl,
  inr, arith,
}
use miqs.Records.{read_index_record}
use miqs.Records.Finishes.{read_index_record-length}
use miqs.Index.State.{Anchor}
use miqs.Index.Aof.{
  indexing_attr, convert_index_record_to_in_mem_parameters, unfinished, load_aof_loop, load_aof,
}

module _ ⦃c : Containers⦄ where
  loop_end :
      (fuel : ℕ) (pointer_text : Bytes → Bytes) (disk duration : ℕ) (s : Bytes) (count : ℕ)
      (a : Anchor)
      → length s < fuel
      → load_aof_loop fuel pointer_text disk duration s count a ≢ unfinished
  unfolding load_aof_loop
  loop_end zero pt disk duration s count a h e = elim h [ ]
  loop_end (suc fuel) pt disk duration s count a h e = elim (Option-cases (read_index_record s).0) [
    | inl n ↦ cc (rw (n, load_aof_loop) at e)
    | inr (r, er) ↦
        let conv = convert_index_record_to_in_mem_parameters a r in
        elim (Option-cases (conv.1 >>= indexing_attr pt disk duration conv.0)) [
          | inl n ↦ cc (rw (er, load_aof_loop, n) at e)
          | inr (b, eb) ↦
              loop_end fuel pt disk duration (read_index_record s).1 (count + 1) b
                (omega (arith, h, read_index_record-length s er)) (rw (er, load_aof_loop, eb) at e)
        ]
  ]

  -- Whatever the file and the index hold, `load_aof` comes to an end: it returns or it faults.
  pub load_aof-finishes :
      (pointer_text : Bytes → Bytes) (disk duration : ℕ) (contents : Option Bytes) (a : Anchor)
      → load_aof pointer_text disk duration contents a ≢ unfinished
  unfolding load_aof
  load_aof-finishes pt disk duration none a e = cc e
  load_aof-finishes pt disk duration (some []) a e = cc e
  load_aof-finishes pt disk duration (some (b ∷ bs)) a e =
      loop_end (suc (length (b ∷ bs))) pt disk duration (b ∷ bs) 0 _ (omega arith) e

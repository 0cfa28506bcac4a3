-- ===== src/Index/Calls.antt =====
-- Calls of `create_in_mem_index_for_attr`, one behind the other.
use miqs.Containers.{Containers}
use miqs.Prelude.{ℕ, Option, some, List, [], ◌∷◌, ◌>>=◌}
use miqs.Index.State.{Attribute, Anchor}
use miqs.Index.Build.{create_in_mem_index_for_attr}

-- A call: what the stopwatch reads, and the attribute.
abbrev pub Call : Type 0
Call = ℕ × Attribute

module _ ⦃c : Containers⦄ where
  -- The calls one after the other.
  unfoldable pub run_steps : List Call → Anchor → Option Anchor
  run_steps [] a = some a
  run_steps ((duration, attr) ∷ calls) a =
      create_in_mem_index_for_attr duration a attr >>= run_steps calls

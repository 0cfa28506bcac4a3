-- ===== src/Plugins.antt =====
-- src/index/spi: the index plug-ins. The data structures behind them are other projects' libraries,
-- src/index/libhl and src/index/art, taken as parameters.
pub mod Reverse
pub mod StringStores
pub mod Strings
pub mod NumberStores
pub mod Numbers
pub mod FoundNumbers
pub mod Found
pub mod Affixes
pub mod Assoc
use Prim.Native.Nat.{bit_or, bit_and}
use miqs.Prelude.{
  ℕ, ◌-◌, ◌≡◌, Bool, true, ◌&&◌, Option, none, some, List, Bytes, All, if◌then◌else◌, str_eq,
}
use mathlib.Core.List.{Memᴰ}

-- The `int` that an operation returns; `negsuc n` is -n - 1.
pub data ℤ : Type 0 where
  pos negsuc : ℕ → ℤ

-- `a | b` in two's complement.
unfoldable pub either : ℤ → ℤ → ℤ
either (pos a) (pos b) = pos (bit_or a b)
either (pos a) (negsuc b) = negsuc (b - bit_and a b)
either (negsuc a) (pos b) = negsuc (a - bit_and b a)
either (negsuc a) (negsuc b) = negsuc (bit_and a b)

-- A map from keys to pointers: the calls that make one, insert, and find, and what iterating over it
-- comes to, in order. Nothing is asked of them.
pub record KeyedCalls (K V : Type 0) : Type 1 where
  pub Store : Type 0
  pub empty : Store
  pub insert : Store → K → V → ℤ × Store
  pub find : Store → K → Option V
  pub items : Store → List (K × V)

-- A map from keys to pointers, where `same` says which keys it does not tell apart and `accepts` which
-- it takes. The laws are what the libraries document: the last insertion of a key that is taken counts,
-- and the iteration comes to what is found.
pub record KeyedStore (K : Type 0) (same : K → K → Bool) (accepts : K → Bool) (V : Type 0)
    : Type 1 where
  pub Store : Type 0
  pub empty : Store
  pub insert : Store → K → V → ℤ × Store
  pub find : Store → K → Option V
  pub items : Store → List (K × V)
  pub find-insert :
      (t : Store) (k j : K) (v : V)
      → find (insert t k v).1 j ≡ (if accepts k && same k j then some v else find t j)
  pub items-found : (t : Store) → All (λ kv. find t kv.0 ≡ some kv.1) (items t)
  pub found-items :
      (t : Store) (k : K) (v : V)
      → find t k ≡ some v
      → (j : K) × (same j k ≡ true) × Memᴰ (j, v) (items t)

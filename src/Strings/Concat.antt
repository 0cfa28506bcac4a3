-- ===== src/Strings/Concat.antt =====
-- src/utils/string_utils.c: `concat`, with the size of its buffer. Memory does not run out, and
-- sizes do not wrap around. `none` is a fault: a byte is written behind the buffer.
use miqs.Prelude.{
  ℕ, ◌+◌, ◌*◌, ◌<◌, ◌≤◌, ◌≡◌, refl, sym, ap, ◌∙◌, inl, inr, Bool-cases, true, false, Option, none,
  some, List, [], ◌∷◌, ◌++◌, Bytes, length, ltb, if◌then◌else◌, ◌>>=◌, length-append, append-nil,
  append_assoc, arith,
}

-- The buffer: its size, and the bytes up to `wp`.
pub record Buffer : Type 0 where
  pub allocated : ℕ
  pub result : Bytes

-- One round of the loop.
unfoldable pub concat_one : Bytes → Buffer → Option Buffer
concat_one s b =
    let len = length s in
    let size =
      if ltb b.allocated (length b.result + len + 1)
      then (b.allocated + len) * 2
      else b.allocated in
    if ltb size (length b.result + len)
    then none
    else some (record { allocated = size; result = b.result ++ s })

unfoldable pub concat_loop : List Bytes → Buffer → Option Buffer
unfolding concat_one
concat_loop [] b = some b
concat_loop (s ∷ args) b = concat_one s b >>= concat_loop args

-- The strings up to the null pointer that ends them. The terminator is written last.
unfoldable pub concat : List Bytes → Option Bytes
unfolding concat_loop
concat args = concat_loop args (record { allocated = 100; result = [] }) >>= λ b.
    if ltb (length b.result) b.allocated then some b.result else none

-- All strings, one behind the other.
pub joined_all : List Bytes → Bytes
joined_all [] = []
joined_all (s ∷ args) = s ++ joined_all args

-- There is room for the terminator.
HasRoom : Buffer → Type 0
HasRoom b = length b.result < b.allocated

ltb-false : {a b : ℕ} → b ≤ a → ltb a b ≡ false
ltb-false h = ground arith

concat_one-HasRoom :
    (s : Bytes) (b : Buffer)
    → HasRoom b
    → (b' : Buffer) × (concat_one s b ≡ some b') × HasRoom b' × (b'.result ≡ b.result ++ s)
unfolding concat_one HasRoom
concat_one-HasRoom s b h = elim (Bool-cases (ltb b.allocated (length b.result + length s + 1))) [
  | inl e ↦
      let fits : ltb ((b.allocated + length s) * 2) (length b.result + length s) ≡ false =
        ltb-false (omega arith) in
      (
        record { allocated = (b.allocated + length s) * 2; result = b.result ++ s },
        rw (e, fits) refl,
        rw (length-append b.result s) (omega arith),
        refl,
      )
  | inr e ↦
      let room : length b.result + length s < b.allocated = ground arith in
      let fits : ltb b.allocated (length b.result + length s) ≡ false = ltb-false (omega arith) in
      (
        record { allocated = b.allocated; result = b.result ++ s },
        rw (e, fits) refl,
        rw (length-append b.result s) room,
        refl,
      )
]

concat_loop-HasRoom :
    (args : List Bytes) (b : Buffer)
    → HasRoom b
    → (b' : Buffer) × (concat_loop args b ≡ some b')
      × HasRoom b'
      × (b'.result ≡ b.result ++ joined_all args)
unfolding concat_loop joined_all
concat_loop-HasRoom [] b h = (b, refl, h, sym (append-nil b.result))
concat_loop-HasRoom (s ∷ args) b h =
    let (c, one, room, eq) = concat_one-HasRoom s b h in
    let (d, run, room', eq') = concat_loop-HasRoom args c room in
    (
      d,
      rw one run,
      room',
      eq' ∙ ap (λ r. r ++ joined_all args) eq ∙ append_assoc b.result s (joined_all args),
    )

-- `concat` writes no byte behind its buffer, however long its strings are, and returns them one behind
-- the other.
pub concat-joined_all : (args : List Bytes) → concat args ≡ some (joined_all args)
unfolding concat HasRoom
concat-joined_all args =
    let (b, run, room, eq) =
      concat_loop-HasRoom args (record { allocated = 100; result = [] }) (omega arith) in
    let fits : ltb (length b.result) b.allocated ≡ true = ground arith in
    rw (run, fits) (ap some eq)

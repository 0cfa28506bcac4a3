-- ===== src/Hashing.antt =====
-- src/utils/hash_utils.c: the string hashes. A string is given with no terminator, its bytes are
-- unsigned chars; `unsigned long` has 64 bits and `unsigned int` 32.
use miqs.Prelude.{ℕ, ◌+◌, ◌-◌, ◌*◌, ◌%◌, ◌^◌, ◌≡◌, refl, ap, ◌∙◌, [], ◌∷◌, Bytes, arith}

-- `hash = ((hash << 5) + hash) + c`
unfoldable pub djb2_loop : ℕ → Bytes → ℕ
djb2_loop hash [] = hash
djb2_loop hash (c ∷ str) = djb2_loop ((hash * 2 ^ 5 % 2 ^ 64 + hash + c) % 2 ^ 64) str

unfoldable pub djb2_hash : Bytes → ℕ
djb2_hash = djb2_loop 5381

-- `hash = c + (hash << 6) + (hash << 16) - hash`
unfoldable pub sdbm_loop : ℕ → Bytes → ℕ
sdbm_loop hash [] = hash
sdbm_loop hash (c ∷ str) =
    sdbm_loop ((c + hash * 2 ^ 6 % 2 ^ 64 + hash * 2 ^ 16 % 2 ^ 64 + (2 ^ 64 - hash)) % 2 ^ 64) str

unfoldable pub sdbm_hash : Bytes → ℕ
sdbm_hash = sdbm_loop 0

-- `hash += c`, in 32 bits
unfoldable pub lose_lose_loop : ℕ → Bytes → ℕ
lose_lose_loop hash [] = hash
lose_lose_loop hash (c ∷ str) = lose_lose_loop ((hash + c) % 2 ^ 32) str

unfoldable pub lose_lose_hash : Bytes → ℕ
lose_lose_hash = lose_lose_loop 0

-- The value at `m` of the polynomial with these coefficients, the first byte's the highest, over the
-- integers.
abbrev pub horner : ℕ → ℕ → Bytes → ℕ
horner m acc [] = acc
horner m acc (c ∷ str) = horner m (acc * m + c) str

djb2_round :
    (acc c : ℕ)
    → (acc % 2 ^ 64 * 2 ^ 5 % 2 ^ 64 + acc % 2 ^ 64 + c) % 2 ^ 64 ≡ (acc * 33 + c) % 2 ^ 64
djb2_round acc c = omega arith

sdbm_round :
    (acc c : ℕ)
    → let h : ℕ = acc % 2 ^ 64 in
      (c + h * 2 ^ 6 % 2 ^ 64 + h * 2 ^ 16 % 2 ^ 64 + (2 ^ 64 - h)) % 2 ^ 64
      ≡ (acc * 65599 + c) % 2 ^ 64
sdbm_round acc c = omega arith

djb2_loop-horner :
    (str : Bytes) (acc : ℕ) → djb2_loop (acc % 2 ^ 64) str ≡ horner 33 acc str % 2 ^ 64
unfolding djb2_loop
djb2_loop-horner [] acc = refl
djb2_loop-horner (c ∷ str) acc =
    ap (λ h. djb2_loop h str) (djb2_round acc c) ∙ djb2_loop-horner str (acc * 33 + c)

sdbm_loop-horner :
    (str : Bytes) (acc : ℕ) → sdbm_loop (acc % 2 ^ 64) str ≡ horner 65599 acc str % 2 ^ 64
unfolding sdbm_loop
sdbm_loop-horner [] acc = refl
sdbm_loop-horner (c ∷ str) acc =
    ap (λ h. sdbm_loop h str) (sdbm_round acc c) ∙ sdbm_loop-horner str (acc * 65599 + c)

lose_lose_loop-horner :
    (str : Bytes) (acc : ℕ) → lose_lose_loop (acc % 2 ^ 32) str ≡ horner 1 acc str % 2 ^ 32
unfolding lose_lose_loop
lose_lose_loop-horner [] acc = refl
lose_lose_loop-horner (c ∷ str) acc =
    ap (λ h. lose_lose_loop h str) (omega arith) ∙ lose_lose_loop-horner str (acc * 1 + c)

-- The three hashes are polynomials in the bytes of the string, at 33 with the initial value 5381, at
-- 65599 and at 1, reduced modulo the word's range only once: the wrap-around and the shifts inside
-- the loops lose nothing.
pub hash-horner :
    (str : Bytes)
    → (djb2_hash str ≡ horner 33 5381 str % 2 ^ 64)
      × (sdbm_hash str ≡ horner 65599 0 str % 2 ^ 64)
      × (lose_lose_hash str ≡ horner 1 0 str % 2 ^ 32)
unfolding djb2_hash sdbm_hash lose_lose_hash
hash-horner str = (djb2_loop-horner str 5381, sdbm_loop-horner str 0, lose_lose_loop-horner str 0)

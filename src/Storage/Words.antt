-- ===== src/Storage/Words.antt =====
-- The bytes of an object of n bytes in memory, lowest first, and the C library's `fread`.
use miqs.Prelude.{
  ℕ, zero, suc, ◌+◌, ◌*◌, ◌/◌, ◌%◌, ◌^◌, ◌<◌, ◌≡◌, refl, ap, [], ◌∷◌, ◌++◌, Bytes, length, take,
  drop, arith, take-append_left, drop-append_left, length-append, take-nil, drop-nil, drop-eq-nil,
  append-nil,
}
use native.Mathlib.Nat.{pow-suc}

unfoldable pub le_bytes : ℕ → ℕ → Bytes
le_bytes zero v = []
le_bytes (suc n) v = (v % 256) ∷ le_bytes n (v / 256)

unfoldable pub of_le_bytes : Bytes → ℕ
of_le_bytes [] = 0
of_le_bytes (b ∷ bs) = b + 256 * of_le_bytes bs

pub length-le_bytes : (n v : ℕ) → length (le_bytes n v) ≡ n
unfolding le_bytes
length-le_bytes zero v = refl
length-le_bytes (suc n) v = ap suc (length-le_bytes n (v / 256))

pub of_le_bytes-le_bytes : (n v : ℕ) → v < 256 ^ n → of_le_bytes (le_bytes n v) ≡ v
unfolding le_bytes of_le_bytes
of_le_bytes-le_bytes zero v h = omega arith
of_le_bytes-le_bytes (suc n) v h =
    omega (arith, of_le_bytes-le_bytes n (v / 256) (omega (arith, pow-suc 256 n)))

-- `fread(buf, …)` into a buffer that holds `buf`: what the stream cannot fill stays as it was.
unfoldable pub fread : Bytes → Bytes → Bytes × Bytes
fread buf stream = (take (length buf) stream ++ drop (length stream) buf, drop (length buf) stream)

-- `fwrite` at the end of the stream.
unfoldable pub fwrite : Bytes → Bytes → Bytes
fwrite bytes stream = stream ++ bytes

-- A buffer that the stream can fill is filled.
pub fread-append :
    (buf xs rest : Bytes) → length xs ≡ length buf → fread buf (xs ++ rest) ≡ (xs, rest)
unfolding fread
fread-append buf xs rest h = rw (
  ← h,
  take-append_left (length xs) xs rest refl,
  drop-append_left (length xs) xs rest refl,
  drop-eq-nil (length (xs ++ rest)) buf (omega (arith, length-append xs rest)),
  append-nil,
)

pub fread-nil : (buf : Bytes) → fread buf [] ≡ (buf, [])
unfolding fread
fread-nil buf = rw (take-nil (length buf), drop-nil (length buf))

-- ===== src/Tags/Pairs.antt =====
-- The key and the value of a pair.
use miqs.Prelude.{
  ℕ, suc, ◌+◌, ◌≡◌, ◌≢◌, refl, sym, ap, ◌∙◌, none, some, [], ◌∷◌, ◌++◌, Bytes, length,
  length-append, drop, drop-append_left, All, append-nil, append_assoc, arith,
}
use miqs.Strings.{subrstr}
use miqs.Strings.Matching.{substring_at, substr_eq}
use miqs.Tags.{index_of, get_key, get_value}

pub index_of-append :
    (k v : Bytes) (d : ℕ) → All (λ b. b ≢ d) k → index_of (k ++ d ∷ v) d ≡ some (length k)
unfolding index_of
index_of-append [] v d h = ground arith
index_of-append (b ∷ k) v d (n, h) = ground (arith, index_of-append k v d h)

index_of-missing : (k : Bytes) (d : ℕ) → All (λ b. b ≢ d) k → index_of k d ≡ none
unfolding index_of
index_of-missing [] d h = refl
index_of-missing (b ∷ k) d (n, h) = ground (arith, index_of-missing k d h)

drop_pair : (k v : Bytes) (d : ℕ) → drop (length k + 1) (k ++ d ∷ v) ≡ v
drop_pair k v d =
    ap (drop (length k + 1)) (sym (append_assoc k (d ∷ []) v))
    ∙ drop-append_left (length k + 1) (k ++ d ∷ []) v (length-append k (d ∷ []))

drop_zero : (s : Bytes) → drop 0 s ≡ s
drop_zero [] = refl
drop_zero (b ∷ s) = refl

-- Of a key and a value joined by the delimiter, where the key does not contain it, `get_key` copies
-- exactly the key's bytes and `get_value` exactly the value's, also where either is empty or the value
-- contains the delimiter; and of a string without the delimiter both return a null pointer.
pub get_key_value :
    (k v : Bytes) (d : ℕ)
    → All (λ b. b ≢ d) k
    → (get_key (k ++ d ∷ v) d ≡ some (some k))
      × (get_value (k ++ d ∷ v) d ≡ some (some v))
      × (get_key k d ≡ some none)
      × (get_value k d ≡ some none)
unfolding get_key get_value subrstr
get_key_value k v d h =
    let len : length (k ++ d ∷ v) ≡ length k + suc (length v) = length-append k (d ∷ v) in
    (
      rw (index_of-append k v d h, get_key)
          (substring_at (k ++ d ∷ v) 0 (length k) k (d ∷ v) (omega arith) (drop_zero _)
            (omega arith) (omega arith)),
      rw (index_of-append k v d h, get_value)
          (substr_eq (k ++ d ∷ v) (length k + 1)
            ∙ substring_at (k ++ d ∷ v) (length k + 1) _ v [] (omega arith)
                (drop_pair k v d ∙ sym (append-nil v)) (omega arith) (omega arith)),
      rw (index_of-missing k d h, get_key) refl,
      rw (index_of-missing k d h, get_value) refl,
    )

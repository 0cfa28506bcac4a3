-- ===== src/Plugins/Affixes.antt =====
-- The search by a part of the string, in the hash table and the red-black tree.
use mathlib.Core.Path.{subst}
use miqs.Prelude.{
  ◌≡◌, refl, sym, ap, ◌∙◌, ◌↔◌, Bool, true, Option, some, List, [], ◌∷◌, ◌++◌, Bytes, map, str_eq,
  str_eq_iff, All, Bool-cases, inl, inr,
}
use mathlib.Core.List.{Memᴰ}
use miqs.Plugins.{KeyedStore}
use miqs.Plugins.StringStores.{
  to, is_filled, StringStores, search_affix_in_hashtable, collect, create_affix_info,
  is_matching_given_affix,
}
use miqs.Plugins.Strings.{hashtable, string_impl, hashtable_index, search_affix}
use miqs.Strings.{
  text_at, PatternType, pattern_exact, pattern_prefix, pattern_suffix, pattern_middle,
}
use miqs.Strings.Patterns.{starts_with_iff, ends_with_iff, contains_iff}

-- The key has the affix at its beginning, at its end, or anywhere; no key has an exact pattern.
abbrev pub HasAffix : PatternType → Bytes → Bytes → Type 0
HasAffix pattern_prefix affix key = (r : Bytes) × (key ≡ affix ++ r)
HasAffix pattern_suffix affix key = (l : Bytes) × (key ≡ l ++ affix)
HasAffix pattern_middle affix key = (l : Bytes) × (r : Bytes) × (key ≡ l ++ (affix ++ r))
HasAffix pattern_exact affix key = ⊥

matching_iff :
    (type : PatternType) (affix key : Bytes)
    → (is_matching_given_affix key (create_affix_info affix type) ≡ true) ↔ HasAffix type affix key
unfolding is_matching_given_affix create_affix_info
matching_iff pattern_prefix affix key = starts_with_iff key affix
matching_iff pattern_suffix affix key = ends_with_iff key affix
matching_iff pattern_middle affix key = contains_iff key affix
matching_iff pattern_exact affix key = (λ e. cc e, λ h. elim h [ ])

module _ {V : Type 0} (test : Bytes → Bool) where
  at_front :
      (key : Bytes) (w : V) (items : List (Bytes × V)) (v : V)
      → test key ≡ true
      → (Memᴰ v (collect test items) → (k : Bytes) × Memᴰ (k, v) items × (test k ≡ true))
      → Memᴰ v (w ∷ collect test items)
      → (k : Bytes) × Memᴰ (k, v) ((key, w) ∷ items) × (test k ≡ true)
  at_front key w items v e rest (Memᴰ.head p) = (key, Memᴰ.head (ap (λ x. (key, x)) p), e)
  at_front key w items v e rest (Memᴰ.tail m) = let (k, m', f) = rest m in (k, Memᴰ.tail m', f)

  from-collect :
      (items : List (Bytes × V)) (v : V)
      → Memᴰ v (collect test items)
      → (key : Bytes) × Memᴰ (key, v) items × (test key ≡ true)
  from-collect [] v h = elim h [ ]
  from-collect ((key, w) ∷ items) v h = elim (Bool-cases (test key)) [
    | inl e ↦ at_front key w items v e (from-collect items v) (rw e at h)
    | inr e ↦ let (k, m, f) = from-collect items v (rw e at h) in (k, Memᴰ.tail m, f)
  ]

  to-collect :
      (items : List (Bytes × V)) (key : Bytes) (v : V)
      → Memᴰ (key, v) items
      → test key ≡ true
      → Memᴰ v (collect test items)
  to-collect [] key v h e = elim h [ ]
  to-collect ((k, w) ∷ items) key v (Memᴰ.head p) e =
      rw (sym (ap (λ x. test x.0) p) ∙ e) (Memᴰ.head (ap (λ x. x.1) p))
  to-collect ((k, w) ∷ items) key v (Memᴰ.tail m) e = elim (Bool-cases (test k)) [
    | inl f ↦ rw f (Memᴰ.tail (to-collect items key v m e))
    | inr f ↦ rw f (to-collect items key v m e)
  ]

All-Mem {ℓ κ} : {A : Type ℓ} (P : A → Type κ) (xs : List A) (x : A) → All P xs → Memᴰ x xs → P x
All-Mem P [] x h m = elim m [ ]
All-Mem P (y ∷ xs) x (h, hs) (Memᴰ.head e) = subst P (sym e) h
All-Mem P (y ∷ xs) x (h, hs) (Memᴰ.tail m) = All-Mem P xs x hs m

module _ {V : Type 0} (store : KeyedStore Bytes str_eq is_filled V) (behind : Bytes → Bytes) where
  -- A pointer is collected where it is found under a key with the affix.
  collect_iff :
      (t : store.Store) (type : PatternType) (affix : Bytes) (v : V)
      → Memᴰ v (
          collect
            (λ k. is_matching_given_affix (text_at behind k) (create_affix_info affix type))
            (store.items t))
        ↔ ((key : Bytes) × (store.find t key ≡ some v) × HasAffix type affix (text_at behind key))
  collect_iff t type affix v = (
    λ h.
        let (key, m, e) = from-collect _ (store.items t) v h in
        (
          key,
          All-Mem (λ kv. store.find t kv.0 ≡ some kv.1) (store.items t) (key, v)
              (store.items-found t) m,
          (matching_iff type affix (text_at behind key)).0 e,
        ),
    λ (key, f, h).
        let (k, e, m) = store.found-items t key v f in
        to-collect _ (store.items t) k v m (
          (matching_iff type affix (text_at behind k)).1
            (subst (λ x. HasAffix type affix (text_at behind x)) (sym ((str_eq_iff k key).0 e)) h)),
  )

module _ {V : Type 0} (s : StringStores V) where
  -- In a hash table, where the environment names it, the search for an affix returns pointers that are
  -- exactly those found under the keys that, read up to the first 0 in them or behind them, have the
  -- affix at the place that the pattern says; for an exact pattern it returns none.
  pub search_affix-HasAffix :
      (env : Option Bytes) (t : s.ht.Store) (type : PatternType) (affix : Bytes)
      → string_impl env ≡ hashtable
      → (vs : List V) × (search_affix s env (some (hashtable_index t)) type affix
          ≡ some (some (map (λ v. some (to v)) vs)))
        × ((v : V)
            → Memᴰ v vs ↔ (
                (key : Bytes) × (s.ht.find t key ≡ some v)
                × HasAffix type affix (text_at s.behind key)))
  unfolding search_affix search_affix_in_hashtable
  search_affix-HasAffix env t type affix e =
      (_, rw (e, search_affix) refl, collect_iff s.ht s.behind t type affix)

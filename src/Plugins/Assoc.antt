-- ===== src/Plugins/Assoc.antt =====
-- A store that keeps the insertions in a list, the last one first.
use miqs.Prelude.{
  ◌≡◌, refl, sym, ap, ◌∙◌, Bool, true, false, Option, none, some, List, [], ◌∷◌, if◌then◌else◌, All,
  Bool-cases, inl, inr,
}
use mathlib.Core.Option.{some_inj}
use mathlib.Core.List.{Memᴰ}
use miqs.Plugins.{pos, KeyedStore}

apart :
    {K : Type 0} (same : K → K → Bool)
    → ((a b c : K) → same a b ≡ true → same b c ≡ true → same a c ≡ true)
    → (i j k : K) → same i k ≡ false
    → same j k ≡ true
    → same i j ≡ false
apart same trans i j k e f = elim (Bool-cases (same i j)) [
  | inr g ↦ g
  | inl g ↦ cc (e, trans i j k g f)
]

module _ {K V : Type 0} (same : K → K → Bool) where
  abbrev find_in : List (K × V) → K → Option V
  find_in [] j = none
  find_in ((k, v) ∷ t) j = if same k j then some v else find_in t j

  abbrev drop_same : K → List (K × V) → List (K × V)
  drop_same k [] = []
  drop_same k ((j, v) ∷ t) = if same k j then drop_same k t else (j, v) ∷ drop_same k t

  abbrev items_of : List (K × V) → List (K × V)
  items_of [] = []
  items_of ((k, v) ∷ t) = (k, v) ∷ drop_same k (items_of t)

  drop_same-All :
      (k : K) (v : V) (t xs : List (K × V))
      → All (λ kv. find_in t kv.0 ≡ some kv.1) xs
      → All (λ kv. find_in ((k, v) ∷ t) kv.0 ≡ some kv.1) (drop_same k xs)
  drop_same-All k v t [] h = tt
  drop_same-All k v t ((j, w) ∷ xs) (h, hs) = elim (Bool-cases (same k j)) [
    | inl e ↦ rw e (drop_same-All k v t xs hs)
    | inr e ↦ rw e (rw e h, drop_same-All k v t xs hs)
  ]

  drop_same-Mem :
      (k i : K) (v : V) (xs : List (K × V))
      → same k i ≡ false
      → Memᴰ (i, v) xs
      → Memᴰ (i, v) (drop_same k xs)
  drop_same-Mem k i v [] e m = elim m [ ]
  drop_same-Mem k i v ((j, w) ∷ xs) e (Memᴰ.head p) =
      rw (sym (ap (λ x. same k x.0) p) ∙ e) (Memᴰ.head p)
  drop_same-Mem k i v ((j, w) ∷ xs) e (Memᴰ.tail m) = elim (Bool-cases (same k j)) [
    | inl f ↦ rw f (drop_same-Mem k i v xs e m)
    | inr f ↦ rw f (Memᴰ.tail (drop_same-Mem k i v xs e m))
  ]

  module _ (same_refl : (k : K) → same k k ≡ true)
      (same_trans : (a b c : K) → same a b ≡ true → same b c ≡ true → same a c ≡ true) where
    pub stored_items : (t : List (K × V)) → All (λ kv. find_in t kv.0 ≡ some kv.1) (items_of t)
    stored_items [] = tt
    stored_items ((k, v) ∷ t) =
        (rw (same_refl k) refl, drop_same-All k v t (items_of t) (stored_items t))

    pub some_item :
        (t : List (K × V)) (k : K) (v : V)
        → find_in t k ≡ some v
        → (j : K) × (same j k ≡ true) × Memᴰ (j, v) (items_of t)
    some_item [] k v h = cc h
    some_item ((i, w) ∷ t) k v h = elim (Bool-cases (same i k)) [
      | inl e ↦ (i, e, Memᴰ.head (ap (λ x. (i, x)) (sym (some_inj.0 (rw e at h)))))
      | inr e ↦
          let (j, f, m) = some_item t k v (rw e at h) in
          (j, f, Memᴰ.tail (drop_same-Mem i j v (items_of t) (apart same same_trans i j k e f) m))
    ]

    abbrev pub assoc_store : KeyedStore K same (λ key. true) V
    assoc_store = record {
      Store = List (K × V);
      empty = [];
      insert = λ t k v. (pos 0, (k, v) ∷ t);
      find = find_in;
      items = items_of;
      find-insert = λ t k j v. refl;
      items-found = stored_items;
      found-items = some_item;
    }

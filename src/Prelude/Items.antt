-- ===== src/Prelude/Items.antt =====
-- Lists of items under keys, by a test for equal keys.
use mathlib.Core.Path.{◌≡◌, refl, sym, ◌∙◌, subst}
use mathlib.Core.Bool.{Bool, true}
use mathlib.Core.Logic.{◌↔◌, inl, inr}
use mathlib.Core.List.{List, [], ◌∷◌}
use mathlib.Core.Option.{Option, none, some, some-injective}
use native.Mathlib.Omega.{arith}
use miqs.Prelude.Tests.{if◌then◌else◌, Bool-cases}
use miqs.Prelude.Lists.{All, get_elem?, set}
use Prim.Native.Nat.{ℕ, zero, suc, ◌+◌}

module _ {K V : Type 0} (same : K → K → Bool) where
  -- The first item under the key.
  abbrev pub find_item : K → List (K × V) → Option V
  find_item k [] = none
  find_item k ((j, v) ∷ l) = if same j k then some v else find_item k l

  -- Each key stands once.
  abbrev pub AreDistinct : List (K × V) → Type 0
  AreDistinct [] = Unit {0}
  AreDistinct ((k, v) ∷ l) = (find_item k l ≡ none) × AreDistinct l

  abbrev remove : K → List (K × V) → List (K × V)
  remove k [] = []
  remove k ((j, v) ∷ l) = let rest = remove k l in if same j k then rest else (j, v) ∷ rest

  -- The first item of each key.
  abbrev pub first_items : List (K × V) → List (K × V)
  first_items [] = []
  first_items ((k, v) ∷ l) = (k, v) ∷ remove k (first_items l)

module _ {K V : Type 0} (same : K → K → Bool)
    (same_iff : (j k : K) → (same j k ≡ true) ↔ (j ≡ k)) where
  find_item-remove :
      (k j : K) (l : List (K × V))
      → find_item same j (remove same k l) ≡ (if same k j then none else find_item same j l)
  find_item-remove k j [] = ground arith
  find_item-remove k j ((i, v) ∷ l) =
      ground (arith, same_iff i k, same_iff i j, same_iff k j, find_item-remove k j l)

  remove-AreDistinct :
      (k : K) (l : List (K × V)) → AreDistinct same l → AreDistinct same (remove same k l)
  remove-AreDistinct k [] h = tt
  remove-AreDistinct k ((j, v) ∷ l) (n, h) = elim (Bool-cases (same j k)) [
    | inl e ↦ rw e (remove-AreDistinct k l h)
    | inr e ↦ rw e (ground (arith, find_item-remove k j l), remove-AreDistinct k l h)
  ]

  pub first_items-AreDistinct : (l : List (K × V)) → AreDistinct same (first_items same l)
  first_items-AreDistinct [] = tt
  first_items-AreDistinct ((k, v) ∷ l) = (
    ground (arith, find_item-remove k k (first_items same l), same_iff k k),
    remove-AreDistinct k (first_items same l) (first_items-AreDistinct l),
  )

  pub find_item-first_items :
      (k : K) (l : List (K × V)) → find_item same k (first_items same l) ≡ find_item same k l
  find_item-first_items k [] = refl
  find_item-first_items k ((j, v) ∷ l) =
      ground (arith, find_item-remove j k (first_items same l), find_item-first_items k l)

  -- What holds of all that is found holds of all items.
  pub All-find_item :
      (P : K → V → Type 0) (l : List (K × V))
      → AreDistinct same l
      → ((k : K) (v : V) → find_item same k l ≡ some v → P k v)
      → All (λ e. P e.0 e.1) l
  All-find_item P [] d h = tt
  All-find_item P ((k, v) ∷ l) (n, d) h = (
    h k v (ground (arith, same_iff k k)),
    All-find_item P l d (λ j w e. elim (Bool-cases (same k j)) [
      | inl at ↦ ground (arith, same_iff k j)
      | inr other ↦ h j w (rw other e)
    ]),
  )

-- What is found under a key once items were copied in: what was there before, where there is no item
-- under the key, or else a copy of the item.
abbrev pub CopiedIn : {V : Type 0} → (V → V → Type 0) → Option V → Option V → Option V → Type 0
CopiedIn R old none found = found ≡ old
CopiedIn {V} R old (some v) found = (w : V) × (found ≡ some w) × R v w

module _ {K V : Type 0} (same : K → K → Bool) (same_iff : (j k : K) → (same j k ≡ true) ↔ (j ≡ k))
    (R : V → V → Type 0) where
  -- One item is copied in, and then others under other keys.
  pub CopiedIn-cons :
      (k j : K) (v w : V) (l : List (K × V)) (old added found : Option V)
      → R v w
      → added ≡ (if same k j then some w else old)
      → find_item same k l ≡ none
      → CopiedIn R added (find_item same j l) found
      → CopiedIn R old (find_item same j ((k, v) ∷ l)) found
  CopiedIn-cons k j v w l old added found copy add once h = elim (Bool-cases (same k j)) [
    | inl e ↦
        let missing : find_item same j l ≡ none =
          subst (λ i. find_item same i l ≡ none) ((same_iff k j).0 e) once in
        let kept : found ≡ added = subst (λ o. CopiedIn R added o found) missing h in
        rw e (w, kept ∙ add ∙ rw e, copy)
    | inr e ↦
        let other : added ≡ old = add ∙ rw e in
        rw e (subst (λ o. CopiedIn R o (find_item same j l) found) other h)
  ]

module _ {V : Type 0} (R : V → V → Type 0) where
  pub CopiedIn-none :
      {old : Option V} (found : Option V) → CopiedIn R none old found → old ≡ none → found ≡ none
  CopiedIn-none found h e = subst (λ o. CopiedIn R none o found) e h

  pub CopiedIn-some :
      (w : V) (old found : Option V)
      → CopiedIn R none old found
      → found ≡ some w
      → (v : V) × (old ≡ some v) × R v w
  CopiedIn-some w none found h e = cc
  CopiedIn-some w (some v) found (x, at, r) e =
      (v, refl, subst (R v) (some-injective x w (sym at ∙ e)) r)

  pub CopiedIn-missing :
      (old found : Option V) → CopiedIn R none old found → found ≡ none → old ≡ none
  CopiedIn-missing none found h e = refl
  CopiedIn-missing (some v) found (x, at, r) e = cc

-- The sum of the weights of all items.
abbrev pub total {ℓ} : {A : Type ℓ} → (A → ℕ) → List A → ℕ
total w [] = 0
total w (x ∷ xs) = w x + total w xs

-- Where one item becomes lighter by one, so does the list.
pub total-set {ℓ} :
    {A : Type ℓ} (w : A → ℕ) (xs : List A) (i : ℕ) (x y : A)
    → get_elem? xs i ≡ some x
    → w x ≡ suc (w y)
    → total w xs ≡ suc (total w (set xs i y))
total-set w [] i x y e h = cc
total-set w (z ∷ xs) zero x y e h = rw (some-injective z x e) (omega (arith, h))
total-set w (z ∷ xs) (suc i) x y e h = omega (arith, total-set w xs i x y e h)

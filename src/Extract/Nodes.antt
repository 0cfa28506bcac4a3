-- ===== src/Extract/Nodes.antt =====
-- src/metadata/hdf5_meta_extractor.c: the linked lists of objects and attributes. The nodes are on a
-- heap, in the order they are allocated, and a pointer is the position of its node.
use miqs.Prelude.{◌≤◌}
use miqs.Prelude.{
  ℕ, zero, suc, ◌+◌, ◌≡◌, refl, sym, ap, ◌∙◌, Option, none, some, List, [], ◌∷◌, ◌++◌, length,
  get_elem?, get_elem?-append_length, ◌>>=◌, map, arith, append_assoc, length-append, length-map,
}
use mathlib.Core.Option

-- A node: what it holds, and its links.
pub record Item {ℓ} (A : Type ℓ) : Type ℓ where
  pub held : A
  pub next : Option ℕ
  pub head : Option ℕ
  pub tail : Option ℕ

-- The node that the new one is hung behind: the tail, or the head where there is no tail yet.
abbrev last_of : ℕ → Option ℕ → ℕ
last_of h none = h
last_of h (some t) = t

module _ {ℓ} {A : Type ℓ} where
  abbrev pub item : A → Option ℕ → Option ℕ → Option ℕ → Item A
  item x n h t = record { held = x; next = n; head = h; tail = t }

  abbrev set_next : ℕ → Item A → Item A
  set_next p n = record n { next = some p }

  abbrev set_head : ℕ → Item A → Item A
  set_head p n = record n { head = some p }

  abbrev set_tail : ℕ → Item A → Item A
  set_tail p n = record n { tail = some p }

  -- A write through a pointer.
  unfoldable pub modify : ℕ → (Item A → Item A) → List (Item A) → Option (List (Item A))
  modify i f [] = none
  modify zero f (n ∷ ns) = some (f n ∷ ns)
  modify (suc i) f (n ∷ ns) = Option.map (◌∷◌ n) (modify i f ns)

  -- The end of `op_func`: the new object goes behind the last one.
  unfoldable pub link_object : Option ℕ → A → List (Item A) → Option (Option ℕ × List (Item A))
  unfolding modify
  link_object none x heap = some (some (length heap), heap ++ item x none none none ∷ [])
  link_object (some h) x heap = do
    let fresh = length heap
    let heap1 = heap ++ item x none none none ∷ []
    head ← get_elem? heap1 h
    heap2 ← modify (last_of h head.tail) (set_next fresh) heap1
    heap3 ← modify h (set_tail fresh) heap2
    heap4 ← modify fresh (set_head h) heap3
    some (some h, heap4)

  -- The end of `attr_info`: with or without a tail, the new attribute goes behind the head.
  unfoldable pub link_attribute : Option ℕ → A → List (Item A) → Option (Option ℕ × List (Item A))
  unfolding modify
  link_attribute none x heap = some (some (length heap), heap ++ item x none none none ∷ [])
  link_attribute (some h) x heap = do
    let fresh = length heap
    let heap1 = heap ++ item x none none none ∷ []
    head ← get_elem? heap1 h
    heap2 ← modify h (set_next fresh) heap1
    heap3 ← modify h (set_tail fresh) heap2
    heap4 ← modify fresh (set_head h) heap3
    some (some h, heap4)

  -- What a loop over the list comes to, with as many rounds as given; `none` is a bad pointer or a
  -- list longer than that.
  unfoldable pub walk : ℕ → Option ℕ → List (Item A) → Option (List A)
  walk fuel none heap = some []
  walk zero (some p) heap = none
  walk (suc fuel) (some p) heap = do
    n ← get_elem? heap p
    rest ← walk fuel n.next heap
    some (n.held ∷ rest)

  -- The heap of a list of objects, and its pointer.
  abbrev pub pointer : List A → Option ℕ
  pointer [] = none
  pointer (x ∷ xs) = some 0

  abbrev next_of : ℕ → List A → Option ℕ
  next_of i [] = none
  next_of i (x ∷ xs) = some (suc i)

  abbrev tail_of : List A → Option ℕ
  tail_of [] = none
  tail_of (x ∷ xs) = some (suc (length xs))

  abbrev behind : ℕ → List A → List (Item A)
  behind i [] = []
  behind i (x ∷ xs) = item x (next_of i xs) (some 0) none ∷ behind (suc i) xs

  abbrev pub object_heap : List A → List (Item A)
  object_heap [] = []
  object_heap (x ∷ xs) = item x (next_of 0 xs) none (tail_of xs) ∷ behind 1 xs

  -- The heap while a node is being hung behind the others, its own head still open.
  abbrev joining : ℕ → A → List A → A → Option ℕ → List (Item A)
  joining i x [] y h = item x (some (suc i)) (some 0) none ∷ item y none h none ∷ []
  joining i x (z ∷ zs) y h = item x (some (suc i)) (some 0) none ∷ joining (suc i) z zs y h

  length-behind : (i : ℕ) (xs : List A) → length (behind i xs) ≡ length xs
  length-behind i [] = refl
  length-behind i (x ∷ xs) = ap suc (length-behind (suc i) xs)

  modify-joining :
      (i fresh : ℕ) (x : A) (xs : List A) (y : A)
      → fresh ≡ i + suc (length xs)
      → modify (length xs) (set_next fresh) (behind i (x ∷ xs) ++ item y none none none ∷ [])
        ≡ some (joining i x xs y none)
  unfolding modify
  modify-joining i fresh x [] y h =
      ap (λ n. some (item x (some n) (some 0) none ∷ item y none none none ∷ [])) (omega (arith, h))
  modify-joining i fresh x (z ∷ zs) y h =
      rw (modify-joining (suc i) fresh z zs y (omega (arith, h))) refl

  joining-head :
      (i : ℕ) (x : A) (xs : List A) (y : A)
      → modify (suc (length xs)) (set_head 0) (joining i x xs y none)
        ≡ some (behind i (x ∷ (xs ++ y ∷ [])))
  unfolding modify
  joining-head i x [] y = refl
  joining-head i x (z ∷ zs) y = rw (joining-head (suc i) z zs y) refl

  -- On a list of objects a new one is put at the end.
  pub link_object-object_heap :
      (xs : List A) (y : A)
      → link_object (pointer xs) y (object_heap xs)
        ≡ some (pointer (xs ++ y ∷ []), object_heap (xs ++ y ∷ []))
  unfolding link_object modify
  link_object-object_heap [] y = refl
  link_object-object_heap (x ∷ []) y = refl
  link_object-object_heap (x ∷ z ∷ zs) y =
      rw
        (
          length-behind 2 zs,
          modify-joining 1 (suc (suc (length zs))) z zs y (omega arith),
          joining-head 1 z zs y,
          length-append zs (y ∷ []),
        )
        (ap
          (λ n. some (some 0, item x (some 1) none (some (suc n)) ∷ behind 1 (z ∷ (zs ++ y ∷ []))))
          (omega arith))

  walk-behind :
      (i : ℕ) (pre : List (Item A)) (xs : List A)
      → length pre ≡ suc i
      → walk (length xs) (next_of i xs) (pre ++ behind (suc i) xs) ≡ some xs
  unfolding walk
  walk-behind i pre [] h = refl
  walk-behind i pre (x ∷ xs) h =
      let n : Item A = item x (next_of (suc i) xs) (some 0) none in
      let at : get_elem? (pre ++ behind (suc i) (x ∷ xs)) (suc i) ≡ some n =
        ap (get_elem? (pre ++ behind (suc i) (x ∷ xs))) (sym h)
        ∙ get_elem?-append_length pre n (behind (suc (suc i)) xs) in
      let rest : walk (length xs) (next_of (suc i) xs) (pre ++ behind (suc i) (x ∷ xs)) ≡ some xs =
        ap (walk (length xs) (next_of (suc i) xs)) (sym (append_assoc pre (n ∷ []) _))
        ∙ walk-behind (suc i) (pre ++ n ∷ []) xs (length-append pre (n ∷ []) ∙ omega (arith, h)) in
      rw (at, rest) refl

  -- A loop over the list comes to the objects in order.
  pub walk-object_heap : (xs : List A) → walk (length xs) (pointer xs) (object_heap xs) ≡ some xs
  unfolding walk
  walk-object_heap [] = refl
  walk-object_heap (x ∷ xs) =
      rw (walk-behind 0 (item x (next_of 0 xs) none (tail_of xs) ∷ []) xs refl) refl

  -- The heap of a list of attributes: only the last one hangs behind the head.
  abbrev loose : List A → List (Item A)
  loose xs = map (λ x. item x none (some 0) none) xs

  abbrev pub attribute_heap : List A → List (Item A)
  attribute_heap [] = []
  attribute_heap (x ∷ xs) = item x (tail_of xs) none (tail_of xs) ∷ loose xs

  modify-loose :
      (xs : List A) (y : A)
      → modify (length xs) (set_head 0) (loose xs ++ item y none none none ∷ [])
        ≡ some (loose (xs ++ y ∷ []))
  unfolding modify
  modify-loose [] y = refl
  modify-loose (x ∷ xs) y = rw (modify-loose xs y) refl

  tail_of-append : (xs : List A) (y : A) → tail_of (xs ++ y ∷ []) ≡ some (suc (length xs))
  tail_of-append [] y = refl
  tail_of-append (x ∷ xs) y = ap (λ n. some (suc n)) (length-append xs (y ∷ []) ∙ omega arith)

  pub link_attribute-attribute_heap :
      (xs : List A) (y : A)
      → link_attribute (pointer xs) y (attribute_heap xs)
        ≡ some (pointer (xs ++ y ∷ []), attribute_heap (xs ++ y ∷ []))
  unfolding link_attribute modify
  link_attribute-attribute_heap [] y = refl
  link_attribute-attribute_heap (x ∷ xs) y =
      rw (length-map xs (λ z. item z none (some 0) none), modify-loose xs y, tail_of-append xs y)
        refl

  -- The attributes that the list still has: the first and the last.
  abbrev last : A → List A → A
  last x [] = x
  last x (y ∷ ys) = last y ys

  abbrev pub ends : List A → List A
  ends [] = []
  ends (x ∷ []) = x ∷ []
  ends (x ∷ y ∷ ys) = x ∷ last y ys ∷ []

  get_elem?-loose :
      (x : A) (xs : List A)
      → get_elem? (loose (x ∷ xs)) (length xs) ≡ some (item (last x xs) none (some 0) none)
  get_elem?-loose x [] = refl
  get_elem?-loose x (y ∷ ys) = get_elem?-loose y ys

  pub walk-attribute_heap : (xs : List A) → walk 2 (pointer xs) (attribute_heap xs) ≡ some (ends xs)
  unfolding walk
  walk-attribute_heap [] = refl
  walk-attribute_heap (x ∷ []) = refl
  walk-attribute_heap (x ∷ y ∷ ys) = rw (get_elem?-loose y ys) refl

  pub walk-attribute_nodes :
      (xs : List A)
      → walk (length (attribute_heap xs)) (pointer xs) (attribute_heap xs) ≡ some (ends xs)
  unfolding walk
  walk-attribute_nodes [] = refl
  walk-attribute_nodes (x ∷ []) = refl
  walk-attribute_nodes (x ∷ y ∷ ys) = rw (get_elem?-loose y ys) refl

  pub length-object_heap : (xs : List A) → length (object_heap xs) ≡ length xs
  length-object_heap [] = refl
  length-object_heap (x ∷ xs) = ap suc (length-behind 1 xs)

  pub length-ends : (xs : List A) → length (ends xs) ≤ 2
  length-ends [] = omega arith
  length-ends (x ∷ []) = omega arith
  length-ends (x ∷ y ∷ ys) = omega arith

-- ===== src/Strings/Patterns.antt =====
-- What a pattern of each kind matches.
use miqs.Prelude.{
  ℕ, zero, suc, ◌+◌, ◌-◌, ◌≡◌, ◌↔◌, refl, sym, ap, ◌∙◌, true, [], ◌∷◌, ◌++◌, Bytes, length,
  length-append, take, drop, drop-append_left, str_eq_iff, if◌then◌else◌, Bool-cases, Option-cases,
  inl, inr, arith,
}
use miqs.Strings.{is_prefix, strstr, starts_with, ends_with, contains}

is_prefix_iff : (p s : Bytes) → (is_prefix p s ≡ true) ↔ ((r : Bytes) × (s ≡ p ++ r))
unfolding is_prefix
is_prefix_iff [] s = (λ e. (s, refl), λ e. refl)
is_prefix_iff (p ∷ ps) [] = (λ e. cc, λ (r, e). cc)
is_prefix_iff (p ∷ ps) (c ∷ cs) = (
  λ e. (let (r, eq) = (is_prefix_iff ps cs).0 (ground arith) in (r, ground arith)),
  λ (r, e). ground (arith, (is_prefix_iff ps cs).1 (r, ground arith)),
)

starts_with_eq : (s p : Bytes) → starts_with s p ≡ is_prefix p s
unfolding starts_with strstr
starts_with_eq [] p = elim (Bool-cases (is_prefix p [])) [ inl e ↦ rw e refl | inr e ↦ rw e refl ]
starts_with_eq (c ∷ cs) p = elim (Bool-cases (is_prefix p (c ∷ cs))) [
  | inl e ↦ rw e refl
  | inr e ↦ elim (Option-cases (strstr cs p)) [
    | inl f ↦ rw (e, f) refl
    | inr (i, f) ↦ rw (e, f) (ground arith)
  ]
]

pub starts_with_iff : (s p : Bytes) → (starts_with s p ≡ true) ↔ ((r : Bytes) × (s ≡ p ++ r))
starts_with_iff s p = rw (starts_with_eq s p) (is_prefix_iff p s)

take_end : (n : ℕ) (s : Bytes) → take n s ++ drop n s ≡ s
take_end zero [] = refl
take_end zero (c ∷ cs) = refl
take_end (suc n) [] = refl
take_end (suc n) (c ∷ cs) = ap (◌∷◌ c) (take_end n cs)

pub ends_with_iff : (s p : Bytes) → (ends_with s p ≡ true) ↔ ((l : Bytes) × (s ≡ l ++ p))
unfolding ends_with
ends_with_iff s p = (
  λ e. (
    take (length s - length p) s,
    sym (take_end (length s - length p) s)
        ∙ ap (◌++◌ (take (length s - length p) s))
            ((str_eq_iff (drop (length s - length p) s) p).0 (ground arith)),
  ),
  λ (l, e).
      let len : length s ≡ length l + length p = ap length e ∙ length-append l p in
      let end : drop (length s - length p) s ≡ p =
        ap (drop (length s - length p)) e
        ∙ drop-append_left (length s - length p) l p (omega arith) in
      ground (arith, (str_eq_iff (drop (length s - length p) s) p).1 end),
)

contains_cons :
    (c : ℕ) (cs p : Bytes)
    → contains (c ∷ cs) p ≡ (if is_prefix p (c ∷ cs) then true else contains cs p)
unfolding contains strstr
contains_cons c cs p = elim (Bool-cases (is_prefix p (c ∷ cs))) [
  | inl e ↦ rw e refl
  | inr e ↦ elim (Option-cases (strstr cs p)) [
    | inl f ↦ rw (e, f) refl
    | inr (i, f) ↦ rw (e, f) refl
  ]
]

contains_nil : (p : Bytes) → contains [] p ≡ is_prefix p []
unfolding contains strstr
contains_nil p = elim (Bool-cases (is_prefix p [])) [ inl e ↦ rw e refl | inr e ↦ rw e refl ]

contains-true :
    (s p : Bytes) → contains s p ≡ true → (l : Bytes) × (r : Bytes) × (s ≡ l ++ (p ++ r))
contains-true [] p e =
    let (r, eq) = (is_prefix_iff p []).0 (sym (contains_nil p) ∙ e) in ([], r, eq)
contains-true (c ∷ cs) p e = elim (Bool-cases (is_prefix p (c ∷ cs))) [
  | inl f ↦ let (r, eq) = (is_prefix_iff p (c ∷ cs)).0 f in ([], r, eq)
  | inr f ↦
      let (l, r, eq) = contains-true cs p (ground (arith, contains_cons c cs p)) in
      (c ∷ l, r, ap (◌∷◌ c) eq)
]

contains-append : (l p r : Bytes) → contains (l ++ (p ++ r)) p ≡ true
contains-append [] [] [] = contains_nil [] ∙ (is_prefix_iff [] []).1 ([], refl)
contains-append [] [] (c ∷ r) = contains_cons c r [] ∙ unfold is_prefix in refl
contains-append [] (c ∷ p) r =
    contains_cons c (p ++ r) (c ∷ p) ∙ rw ((is_prefix_iff (c ∷ p) (c ∷ (p ++ r))).1 (r, refl)) refl
contains-append (c ∷ l) p r =
    contains_cons c (l ++ (p ++ r)) p ∙ ground (arith, contains-append l p r)

pub contains_iff :
    (s p : Bytes) → (contains s p ≡ true) ↔ ((l : Bytes) × (r : Bytes) × (s ≡ l ++ (p ++ r)))
contains_iff s p =
    (contains-true s p, λ (l, r, e). ap (λ t. contains t p) e ∙ contains-append l p r)

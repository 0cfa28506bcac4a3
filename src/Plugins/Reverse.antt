-- ===== src/Plugins/Reverse.antt =====
-- src/utils/string_utils.c: `reverse_str`.
use miqs.Prelude.{ℕ, ◌≡◌, refl, ap, ◌∙◌, [], ◌∷◌, ◌++◌, Bytes}

unfoldable pub reverse_str : Bytes → Bytes
reverse_str [] = []
reverse_str (c ∷ str) = reverse_str str ++ c ∷ []

reverse-append : (a : Bytes) (c : ℕ) → reverse_str (a ++ c ∷ []) ≡ c ∷ reverse_str a
unfolding reverse_str
reverse-append [] c = refl
reverse-append (b ∷ a) c = ap (λ s. s ++ b ∷ []) (reverse-append a c)

pub reverse-reverse : (str : Bytes) → reverse_str (reverse_str str) ≡ str
unfolding reverse_str
reverse-reverse [] = refl
reverse-reverse (c ∷ str) = reverse-append (reverse_str str) c ∙ ap (◌∷◌ c) (reverse-reverse str)

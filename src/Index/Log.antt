-- ===== src/Index/Log.antt =====
-- The abstract index of integer attributes: the list of the facts indexed, in order.
use miqs.Prelude.{
  ℕ, ◌≡◌, refl, ◌&&◌, List, [], ◌∷◌, ◌++◌, Bytes, ◌==◌, str_eq, if◌then◌else◌, arith, true, false,
}
use miqs.Query.{SearchRstEntry}
use miqs.Index.Pairs.{entry}
use miqs.Index.Numeric.{occurrences}

-- An object of a file has an attribute of this name with this value, a 32-bit pattern.
pub record Fact : Type 0 where
  pub name : Bytes
  pub value : ℕ
  pub file : Bytes
  pub object : Bytes

-- What a search for the name and the value returns.
unfoldable pub matching : Bytes → ℕ → List Fact → List SearchRstEntry
matching name v [] = []
matching name v (f ∷ fs) =
    if str_eq f.name name && f.value == v
    then entry f.file f.object ∷ matching name v fs
    else matching name v fs

abbrev pub fact : Bytes → Bytes → Bytes → ℕ → Fact
fact name file object v = record { name = name; value = v; file = file; object = object }

-- The facts of one attribute.
unfoldable pub facts_of : Bytes → List ℕ → Bytes → Bytes → List Fact
facts_of name [] file object = []
facts_of name (v ∷ vs) file object = fact name file object v ∷ facts_of name vs file object

pub matching-append :
    (name : Bytes) (v : ℕ) (l m : List Fact)
    → matching name v (l ++ m) ≡ matching name v l ++ matching name v m
unfolding matching
matching-append name v [] m = refl
matching-append name v (f ∷ l) m = ground (arith, matching-append name v l m)

pub matching-facts_same :
    (name : Bytes) (v : ℕ) (n : Bytes) (vs : List ℕ) (file object : Bytes)
    → str_eq name n ≡ true
    → matching n v (facts_of name vs file object) ≡ occurrences vs (entry file object) v
unfolding matching facts_of
matching-facts_same name v n [] file object h = refl
matching-facts_same name v n (u ∷ us) file object h =
    ground (arith, matching-facts_same name v n us file object h)

pub matching-facts_other :
    (name : Bytes) (v : ℕ) (n : Bytes) (vs : List ℕ) (file object : Bytes)
    → str_eq name n ≡ false
    → matching n v (facts_of name vs file object) ≡ []
unfolding matching facts_of
matching-facts_other name v n [] file object h = refl
matching-facts_other name v n (u ∷ us) file object h =
    ground (arith, matching-facts_other name v n us file object h)

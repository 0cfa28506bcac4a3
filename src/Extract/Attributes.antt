-- ===== src/Extract/Attributes.antt =====
-- The attributes of an object that `H5Aiterate` goes through: `attr_info`.
use mathlib.Core.List.{map-append}
use miqs.Prelude.{lt→ltb}
use mathlib.Core.List.{map-append}
use miqs.Prelude.{
  ℕ, suc, ◌+◌, ◌≡◌, refl, sym, ap, ◌∙◌, Option, none, some, List, [], ◌∷◌, ◌++◌, length, map, ltb,
  if◌then◌else◌, All, arith, length-append, append_assoc, append-nil,
}
use miqs.Extract.{H5Attribute, H5Object, read_attr}
use miqs.Extract.Nodes.{pointer, attribute_heap, link_attribute-attribute_heap}
use miqs.Extract.Collector.{
  DataObject, call_on_attr, call_on_obj, attr_info, iterate_attrs, new_object,
}
use miqs.Index.State.{Attribute, AttrValues}

-- The values of the attribute fit the arrays they are read into.
abbrev pub Fits : H5Attribute → Type 0
Fits attr = (values : AttrValues) × (read_attr attr ≡ some values)

-- The object's list has at its ends the first and the last of the attributes, which were counted
-- twice.
pub record HoldsAttrs (counted : ℕ) (attrs : List Attribute) (mdo : DataObject) : Type 0 where
  pub attr_list : mdo.attr_linked_list ≡ pointer attrs
  pub attr_nodes : mdo.attr_heap ≡ attribute_heap attrs
  pub attr_count : mdo.num_attrs ≡ counted + length attrs

abbrev pub read_in : H5Attribute → AttrValues → Attribute
read_in attr values = record {
  attr_name = attr.name;
  attribute_value = values;
  file_path_str = none;
  obj_path_str = none;
}

abbrev pub with_attr : DataObject → List Attribute → DataObject
with_attr mdo attrs = record mdo {
  attr_linked_list = pointer attrs;
  attr_heap = attribute_heap attrs;
  num_attrs = mdo.num_attrs + 1;
}

pub with_attr-HoldsAttrs :
    (mdo : DataObject) (counted : ℕ) (seen : List Attribute) (attr : Attribute)
    → HoldsAttrs counted seen mdo
    → HoldsAttrs counted (seen ++ attr ∷ []) (with_attr mdo (seen ++ attr ∷ []))
with_attr-HoldsAttrs mdo counted seen attr h = record {
  attr_list = refl;
  attr_nodes = refl;
  attr_count = omega (arith, h.attr_count, length-append seen (attr ∷ []));
}

-- An object as the scan leaves it.
pub record Collected (obj : H5Object) (mdo : DataObject) : Type 0 where
  pub same_name : mdo.obj_name ≡ obj.name
  pub attrs : List Attribute
  pub attrs_held : HoldsAttrs (length obj.attributes) attrs mdo
  pub attr_names : map (λ a. a.attr_name) attrs ≡ map (λ a. a.name) obj.attributes

module _ {S : Type 0} where
  -- A user's function on attributes that never faults, and leaves their names.
  abbrev pub RunsOnAttr : Option (S → Attribute → Option (S × Attribute)) → Type 0
  RunsOnAttr on_attr =
      (s : S) (attr : Attribute)
      → (s' : S) × (attr' : Attribute) × (call_on_attr on_attr s attr ≡ some (s', attr'))
        × (attr'.attr_name ≡ attr.attr_name)

  abbrev pub RunsOnObj : Option (S → DataObject → Option S) → Type 0
  RunsOnObj on_obj = (s : S) (mdo : DataObject) → (s' : S) × (call_on_obj on_obj s mdo ≡ some s')

  pub attr_info_eq :
      (on_attr : Option (S → Attribute → Option (S × Attribute))) (attr : H5Attribute) (s s' : S)
      (mdo : DataObject) (counted : ℕ) (seen : List Attribute) (values : AttrValues)
      (attr' : Attribute)
      → HoldsAttrs counted seen mdo
      → read_attr attr ≡ some values
      → call_on_attr on_attr s (read_in attr values) ≡ some (s', attr')
      → attr_info on_attr attr (s, mdo) ≡ some (s', with_attr mdo (seen ++ attr' ∷ []))
  unfolding attr_info
  attr_info_eq on_attr attr s s' mdo counted seen values attr' h er ec =
      rw (er, ec, h.attr_list, h.attr_nodes, link_attribute-attribute_heap seen attr') refl

  iterate-HoldsAttrs :
      (on_attr : Option (S → Attribute → Option (S × Attribute))) (attrs : List H5Attribute) (s : S)
      (mdo : DataObject) (counted : ℕ) (seen : List Attribute)
      → RunsOnAttr on_attr
      → All Fits attrs
      → HoldsAttrs counted seen mdo
      → (s' : S) × (mdo' : DataObject) × (seen' : List Attribute) × (iterate_attrs on_attr attrs
            (s, mdo)
          ≡ some (s', mdo'))
        × HoldsAttrs counted seen' mdo'
        × (mdo'.obj_name ≡ mdo.obj_name)
        × (map (λ a. a.attr_name) seen' ≡ map (λ a. a.attr_name) seen ++ map (λ a. a.name) attrs)
  unfolding iterate_attrs attr_info
  iterate-HoldsAttrs on_attr [] s mdo counted seen runs fits h =
      (s, mdo, seen, refl, h, refl, sym (append-nil _))
  iterate-HoldsAttrs on_attr (attr ∷ attrs) s mdo counted seen runs ((values, er), fits) h =
      let (s1, attr1, ec, en) = runs s (read_in attr values) in
      let (s', mdo', seen', ei, h', eo, es) =
        iterate-HoldsAttrs on_attr attrs s1 (with_attr mdo (seen ++ attr1 ∷ [])) counted
          (seen ++ attr1 ∷ []) runs fits (with_attr-HoldsAttrs mdo counted seen attr1 h) in
      (
        s',
        mdo',
        seen',
        rw (attr_info_eq on_attr attr s s1 mdo counted seen values attr1 h er ec) ei,
        h',
        eo,
        es
            ∙ ap (λ l. l ++ map (λ a. a.name) attrs)
                (map-append (λ a. a.attr_name) seen (attr1 ∷ []))
            ∙ append_assoc (map (λ a. a.attr_name) seen) (attr1.attr_name ∷ []) _
            ∙ ap (λ n. map (λ a. a.attr_name) seen ++ n ∷ map (λ a. a.name) attrs) en,
      )

  pub when_any :
      (on_attr : Option (S → Attribute → Option (S × Attribute))) (attrs : List H5Attribute)
      (r : S × DataObject)
      → (if ltb 0 (length attrs) then iterate_attrs on_attr attrs r else some r)
        ≡ iterate_attrs on_attr attrs r
  unfolding iterate_attrs
  when_any on_attr [] r = refl
  when_any on_attr (attr ∷ attrs) r = rw (lt→ltb 0 (suc (length attrs)) (omega arith)) refl

  pub iterate-Collected :
      (on_attr : Option (S → Attribute → Option (S × Attribute))) (obj : H5Object) (s : S)
      → RunsOnAttr on_attr
      → All Fits obj.attributes
      → (s' : S) × (mdo : DataObject) × Collected obj mdo
        × (iterate_attrs on_attr obj.attributes (s, new_object obj) ≡ some (s', mdo))
  unfolding new_object
  iterate-Collected on_attr obj s runs fits =
      let (s', mdo, seen, ei, h, eo, es) =
        iterate-HoldsAttrs on_attr obj.attributes s (new_object obj) (length obj.attributes) [] runs
          fits (record { attr_list = refl; attr_nodes = refl; attr_count = omega arith }) in
      (s', mdo, record { same_name = eo; attrs = seen; attrs_held = h; attr_names = es }, ei)

-- ===== src/Extract/Collected.antt =====
-- The objects of a file that the scan collects.
use miqs.Extract.Attributes.{Collected, when_any}
use miqs.Prelude.{ℕ, ◌+◌, ◌≡◌, refl, some, List, [], ◌∷◌, ◌++◌, length}
use miqs.Extract.{H5Object, H5File}
use miqs.Extract.Nodes.{pointer, object_heap, link_object-object_heap}
use miqs.Extract.Collector.{
  DataObject, Collector, call_on_obj, iterate_attrs, new_object, op_func, visit_objects, scan_hdf5,
  scanned, visit_file,
}

-- The objects of a list, one by one.
abbrev CollectedAll : List H5Object → List DataObject → Type 0
CollectedAll [] [] = Unit
CollectedAll [] (mdo ∷ mdos) = ⊥
CollectedAll (obj ∷ objs) [] = ⊥
CollectedAll (obj ∷ objs) (mdo ∷ mdos) = Collected obj mdo × CollectedAll objs mdos

abbrev pub sum_attrs : List H5Object → ℕ
sum_attrs [] = 0
sum_attrs (obj ∷ objs) = length obj.attributes + sum_attrs objs

module _ {S : Type 0} where
  -- The collector's list has the objects in order.
  pub record Holds (coll : Collector S) (mdos : List DataObject) : Type 0 where
    pub object_list : coll.object_linked_list ≡ pointer mdos
    pub object_nodes : coll.object_heap ≡ object_heap mdos

  abbrev pub grown : Collector S → H5Object → S → List DataObject → Collector S
  grown coll obj s mdos = record coll {
    object_linked_list = pointer mdos;
    object_heap = object_heap mdos;
    num_objs = coll.num_objs + 1;
    total_num_attrs = coll.total_num_attrs + length obj.attributes;
    opdata = s;
  }

  pub op_func_eq :
      (obj : H5Object) (coll : Collector S) (mdos : List DataObject) (s s' : S) (mdo : DataObject)
      → Holds coll mdos
      → iterate_attrs coll.on_attr obj.attributes (coll.opdata, new_object obj) ≡ some (s, mdo)
      → call_on_obj coll.on_obj s mdo ≡ some s'
      → op_func obj coll ≡ some (grown coll obj s' (mdos ++ mdo ∷ []))
  unfolding op_func
  op_func_eq obj coll mdos s s' mdo h ei eo =
      rw
        (
          when_any coll.on_attr obj.attributes (coll.opdata, new_object obj),
          ei,
          h.object_list,
          h.object_nodes,
          link_object-object_heap mdos mdo,
          eo,
        )
        refl

  record Grows (coll coll' : Collector S) (objs : List H5Object) : Type 0 where
    counted : coll'.num_objs ≡ coll.num_objs + length objs
    attrs_counted : coll'.total_num_attrs ≡ coll.total_num_attrs + sum_attrs objs

  pub scan_eq :
      (file : H5File) (coll coll' : Collector S)
      → visit_objects file.objects coll ≡ some coll'
      → scan_hdf5 (some file) (some coll) 0 ≡ some (scanned coll')
  unfolding scan_hdf5 visit_file
  scan_eq file coll coll' h = rw h refl

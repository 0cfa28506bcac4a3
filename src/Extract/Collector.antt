-- ===== src/Extract/Collector.antt =====
-- src/metadata/miqs_meta_collector.c and hdf5_meta_extractor.c: the scan of a file. The callbacks work
-- on a state `S` that `opdata` points to. What they return is only reported, so it is left out. The
-- counter of allocated memory is left out too. `none` is a fault.
use mathlib.Core.Option
use miqs.Prelude.{
  ℕ, ◌+◌, Option, none, some, List, [], ◌∷◌, Bytes, length, ltb, ◌==◌, if◌then◌else◌, ◌>>=◌,
}
use miqs.Extract.{H5Attribute, H5Object, H5File, ObjectType, get_miqs_type_from_h5, read_attr}
use miqs.Extract.Nodes.{Item, link_object, link_attribute}
use miqs.Index.State.{Attribute}

-- `miqs_data_object_t`, with the heap of its attributes. What points into the HDF5 library is left
-- out, and the fields for sub-objects, which nothing uses.
pub record DataObject : Type 0 where
  pub obj_name : Bytes
  pub obj_type : ObjectType
  pub num_attrs : ℕ
  pub attr_linked_list : Option ℕ
  pub attr_heap : List (Item Attribute)

-- The object before its attributes are read: `H5Aget_num_attrs` has counted them.
unfoldable pub new_object : H5Object → DataObject
unfolding get_miqs_type_from_h5
new_object obj = record {
  obj_name = obj.name;
  obj_type = get_miqs_type_from_h5 obj.type;
  num_attrs = length obj.attributes;
  attr_linked_list = none;
  attr_heap = [];
}

module _ (S : Type 0) where
  -- `miqs_metadata_collector_t`, with the heap of its objects and what `opdata` points to. A callback
  -- that is null is `none`.
  pub record Collector : Type 0 where
    pub object_linked_list : Option ℕ
    pub object_heap : List (Item DataObject)
    pub num_objs : ℕ
    pub total_num_attrs : ℕ
    pub opdata : S
    pub on_obj : Option (S → DataObject → Option S)
    pub on_attr : Option (S → Attribute → Option (S × Attribute))

  -- How a scan ends when it does not fault: it returns -1 for a null collector, or else 1.
  pub data Scan : Type 0 where
    refused : Scan
    scanned : Collector → Scan

module _ {S : Type 0} where
  -- On a zeroed collector, and with no objects, as in every call.
  unfoldable pub init_metadata_collector :
      S
      → Option (S → DataObject → Option S)
      → Option (S → Attribute → Option (S × Attribute))
      → Collector S
  init_metadata_collector opdata on_obj on_attr = record {
    object_linked_list = none;
    object_heap = [];
    num_objs = 0;
    total_num_attrs = 0;
    opdata = opdata;
    on_obj = on_obj;
    on_attr = on_attr;
  }

  -- The user's function on an attribute, which may change it.
  unfoldable pub call_on_attr :
      Option (S → Attribute → Option (S × Attribute)) → S → Attribute → Option (S × Attribute)
  call_on_attr none s attr = some (s, attr)
  call_on_attr (some on_attr) s attr = on_attr s attr

  -- An attribute of the object: read, hung in the list, and given to the user's function. The node
  -- holds the attribute as that leaves it.
  unfoldable pub attr_info :
      Option (S → Attribute → Option (S × Attribute))
      → H5Attribute
      → S × DataObject
      → Option (S × DataObject)
  unfolding read_attr call_on_attr link_attribute
  attr_info on_attr attr (s, mdo) = do
    values ← read_attr attr
    (s', curr_attr) ← call_on_attr on_attr s (record {
      attr_name = attr.name;
      attribute_value = values;
      file_path_str = none;
      obj_path_str = none;
    })
    (list, heap) ← link_attribute mdo.attr_linked_list curr_attr mdo.attr_heap
    some (
      s',
      record mdo { attr_linked_list = list; attr_heap = heap; num_attrs = mdo.num_attrs + 1 },
    )

  -- `H5Aiterate` with `attr_info`, which always returns 0.
  unfoldable pub iterate_attrs :
      Option (S → Attribute → Option (S × Attribute))
      → List H5Attribute
      → S × DataObject
      → Option (S × DataObject)
  unfolding attr_info
  iterate_attrs on_attr [] r = some r
  iterate_attrs on_attr (attr ∷ attrs) r = attr_info on_attr attr r >>= iterate_attrs on_attr attrs

  unfoldable pub call_on_obj : Option (S → DataObject → Option S) → S → DataObject → Option S
  call_on_obj none s mdo = some s
  call_on_obj (some on_obj) s mdo = on_obj s mdo

  unfoldable pub op_func : H5Object → Collector S → Option (Collector S)
  unfolding new_object iterate_attrs link_object call_on_obj
  op_func obj coll = do
    let count = length obj.attributes
    (s, mdo) ←
        if ltb 0 count
        then iterate_attrs coll.on_attr obj.attributes (coll.opdata, new_object obj)
        else some (coll.opdata, new_object obj)
    (list, heap) ← link_object coll.object_linked_list mdo coll.object_heap
    s' ← call_on_obj coll.on_obj s mdo
    some (record coll {
      object_linked_list = list;
      object_heap = heap;
      num_objs = coll.num_objs + 1;
      total_num_attrs = coll.total_num_attrs + count;
      opdata = s';
    })

  -- `H5Ovisit` with `op_func`, and `H5Lvisit` with `op_func_L`, which goes on to `op_func`.
  unfoldable pub visit_objects : List H5Object → Collector S → Option (Collector S)
  unfolding op_func
  visit_objects [] coll = some coll
  visit_objects (obj ∷ objs) coll = op_func obj coll >>= visit_objects objs

  unfoldable pub visit_file : H5File → ℕ → Collector S → Option (Collector S)
  unfolding visit_objects
  visit_file file is_visit_link coll = do
    coll' ← visit_objects file.objects coll
    if is_visit_link == 0 then some coll' else visit_objects file.links coll'

  -- A file that cannot be opened has nothing to visit, and `scan_hdf5` returns 1 all the same.
  unfoldable pub scan_hdf5 : Option H5File → Option (Collector S) → ℕ → Option (Scan S)
  unfolding visit_file
  scan_hdf5 file none is_visit_link = some refused
  scan_hdf5 none (some coll) is_visit_link = some (scanned coll)
  scan_hdf5 (some file) (some coll) is_visit_link =
      Option.map scanned (visit_file file is_visit_link coll)

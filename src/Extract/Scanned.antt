-- ===== src/Extract/Scanned.antt =====
-- The index after `parse_hdf5_file`, against the facts of the file.
use mathlib.Core.Path.{subst}
use miqs.Containers.{Containers}
use miqs.Prelude.{
  inl, inr, List-cases, ℕ, ◌+◌, ◌^◌, ◌<◌, ◌≡◌, refl, sym, ap, Option, some, List, [], ◌∷◌, ◌++◌,
  Bytes, length, map, if◌then◌else◌, ◌>>=◌, All, arith, append_assoc, append-nil,
}
use miqs.Extract.{H5File}
use miqs.Extract.Collector.{
  DataObject, Collector, init_metadata_collector, call_on_attr, call_on_obj, iterate_attrs,
  new_object, visit_objects, scan_hdf5, scanned,
}
use miqs.Extract.Attributes.{HoldsAttrs, read_in, with_attr, with_attr-HoldsAttrs, attr_info_eq}
use miqs.Extract.Collected.{Holds, grown, op_func_eq, scan_eq}
use miqs.Extract.Indexing.{on_obj, on_attr, begin_file, parse_hdf5_file, anchor_of}
use miqs.Extract.Facts.{
  IntObject, h5_attr, h5_object, h5_file, Fit32, attr_facts, scan_facts, Stands, indexing-Stands,
  read_attr-h5_attr,
}
use miqs.Index.State.{Attribute, Anchor, int_values, no_stream}
use miqs.Index.Log.{Fact, facts_of}
use miqs.Index.Refines.{int_attribute, Represents, same-Represents}
use miqs.Index.Aof.{indexing_attr, build_index}

module _ ⦃c : Containers⦄ (pt : Bytes → Bytes) (disk duration : ℕ) (fields : List Bytes)
    (file : Bytes) where
  abbrev placed : Bytes → List ℕ → Option Bytes → Option Bytes → Attribute
  placed name vs f o = record {
    attr_name = name;
    attribute_value = int_values vs;
    file_path_str = f;
    obj_path_str = o;
  }

  placed_eq :
      (path name : Bytes) (vs : List ℕ) (a b : Anchor) (f o : Option Bytes)
      → f ≡ some file
      → o ≡ some path
      → indexing_attr pt disk duration a (int_attribute name vs file path) ≡ some b
      → ◌>>=◌ {B = Anchor × Attribute}
          (indexing_attr pt disk duration a (placed name vs f o))
          (λ a'. some (a', placed name vs f o))
        ≡ some (b, int_attribute name vs file path)
  placed_eq path name vs a b f o ef eo eq = rw (ef, eo, eq) refl

  call-Stands :
      (path name : Bytes) (vs : List ℕ) (log : List Fact) (a : Anchor)
      → Stands fields file path log a
      → (a' : Anchor) × (call_on_attr
            (some (on_attr pt disk duration))
            a
            (read_in (h5_attr (name, vs)) (int_values vs))
          ≡ some (a', int_attribute name vs file path))
        × Stands fields file path
            (log ++ (if build_index name fields then facts_of name vs file path else []))
            a'
  unfolding call_on_attr on_attr
  call-Stands path name vs log a h =
      let (a', eq, h') = indexing-Stands pt disk duration fields file path name vs log a h in
      (a', placed_eq path name vs a a' a.file_path a.obj_path h.in_file h.in_object eq, h')

  iterate-Stands :
      (path : Bytes) (attrs : List (Bytes × List ℕ)) (log : List Fact) (a : Anchor)
      (mdo : DataObject) (counted : ℕ) (seen : List Attribute)
      → All (λ attr. All (λ v. v < 2 ^ 32) attr.1) attrs
      → HoldsAttrs counted seen mdo
      → Stands fields file path log a
      → (a' : Anchor) × (mdo' : DataObject) × (iterate_attrs
            (some (on_attr pt disk duration))
            (map h5_attr attrs)
            (a, mdo)
          ≡ some (a', mdo'))
        × (mdo'.obj_name ≡ mdo.obj_name)
        × Stands fields file path (log ++ attr_facts fields file path attrs) a'
  unfolding iterate_attrs attr_facts
  iterate-Stands path [] log a mdo counted seen fits hs h =
      (a, mdo, refl, refl, subst (λ l. Stands fields file path l a) (sym (append-nil log)) h)
  iterate-Stands path ((name, vs) ∷ attrs) log a mdo counted seen (fit, fits) hs h =
      let (a1, ec, h1) = call-Stands path name vs log a h in
      let seen1 : List Attribute = seen ++ int_attribute name vs file path ∷ [] in
      let (a', mdo', ei, eo, h') =
        iterate-Stands path attrs _ a1 (with_attr mdo seen1) counted seen1 fits
          (with_attr-HoldsAttrs mdo counted seen (int_attribute name vs file path) hs) h1 in
      (
        a',
        mdo',
        rw
            (attr_info_eq (some (on_attr pt disk duration)) (h5_attr (name, vs)) a a1 mdo counted
              seen (int_values vs) (int_attribute name vs file path) hs
              (read_attr-h5_attr name vs fit) ec)
            ei,
        eo,
        subst (λ l. Stands fields file path l a') (append_assoc log _ _) h',
      )

  visit-Stands :
      (path : Bytes) (objs : List IntObject) (log : List Fact) (coll : Collector Anchor)
      (mdos : List DataObject)
      → coll.on_attr ≡ some (on_attr pt disk duration)
      → coll.on_obj ≡ some on_obj
      → All Fit32 objs
      → Holds coll mdos
      → Stands fields file path log coll.opdata
      → (coll' : Collector Anchor) × (visit_objects (map h5_object objs) coll ≡ some coll')
        × Represents coll'.opdata (log ++ scan_facts fields file path objs)
  unfolding visit_objects scan_facts new_object call_on_obj on_obj
  visit-Stands path [] log coll mdos ea eo fits hc h =
      (coll, refl, subst (Represents coll.opdata) (sym (append-nil log)) h.represents)
  visit-Stands path (obj ∷ objs) log coll mdos ea eo (fit, fits) hc h =
      let (a1, mdo, ei, en, h1) =
        iterate-Stands path obj.attrs log coll.opdata (new_object (h5_object obj))
          (length (h5_object obj).attributes) [] fit
          (record { attr_list = refl; attr_nodes = refl; attr_count = omega arith }) h in
      let a2 : Anchor = record a1 {
        obj_path = some mdo.obj_name;
        total_num_objects = a1.total_num_objects + 1;
      } in
      let step =
        op_func_eq (h5_object obj) coll mdos a1 a2 mdo hc
          (subst
            (λ f.
              iterate_attrs f (h5_object obj).attributes (coll.opdata, new_object (h5_object obj))
              ≡ some (a1, mdo))
            (sym ea) ei)
          (subst (λ f. call_on_obj f a1 mdo ≡ some a2) (sym eo) refl) in
      let (coll', ev, r) =
        visit-Stands obj.name objs (log ++ attr_facts fields file path obj.attrs)
          (grown coll (h5_object obj) a2 (mdos ++ mdo ∷ [])) (mdos ++ mdo ∷ []) ea eo fits
          (record { object_list = refl; object_nodes = refl })
          (record {
            represents = same-Represents a1 a2 _ refl refl refl refl h1.represents;
            quiet = h1.quiet;
            selected = h1.selected;
            in_file = h1.in_file;
            in_object = ap some en;
          }) in
      (coll', rw step ev, subst (Represents coll'.opdata) (append_assoc log _ _) r)

  parse_eq :
      (h5 : H5File) (a : Anchor) (coll' : Collector Anchor)
      → 0 < length a.root_art_array
      → scan_hdf5
          (some h5)
          (some (
            init_metadata_collector
              (begin_file file a)
              (some on_obj)
              (some (on_attr pt disk duration))))
          0
        ≡ some (scanned coll')
      → parse_hdf5_file pt disk duration (some h5) file (some a) ≡ some (some coll'.opdata)
  unfolding parse_hdf5_file anchor_of
  parse_eq h5 a coll' some_bucket h = elim (List-cases a.root_art_array) [
    | inl e ↦ absurd (omega (arith, some_bucket, ap length e))
    | inr (art, arts, e) ↦ rw (e, h) refl
  ]

  -- Where the anchor has the path of an object, `parse_hdf5_file` on a file of 32-bit integer
  -- attributes, with no index file open, never faults. It takes an index that stands for a log to one
  -- that stands for the log with the facts of the file behind it, those of the attributes of each
  -- object being under the path of the object visited before it.
  pub parse-Represents :
      (path : Bytes) (objs : List IntObject) (log : List Fact) (a : Anchor)
      → Represents a log
      → a.on_disk_file_stream ≡ no_stream
      → a.indexed_attr ≡ fields
      → a.obj_path ≡ some path
      → All Fit32 objs
      → (a' : Anchor) × (parse_hdf5_file pt disk duration (some (h5_file objs)) file (some a)
          ≡ some (some a'))
        × Represents a' (log ++ scan_facts fields file path objs)
  unfolding init_metadata_collector begin_file
  parse-Represents path objs log a r quiet selected in_object fits =
      let begun : Anchor = begin_file file a in
      let coll : Collector Anchor =
        init_metadata_collector begun (some on_obj) (some (on_attr pt disk duration)) in
      let (coll', ev, r') =
        visit-Stands path objs log coll [] refl refl fits
          (record { object_list = refl; object_nodes = refl })
          (record {
            represents = same-Represents a begun log refl refl refl refl r;
            quiet = quiet;
            selected = selected;
            in_file = refl;
            in_object = in_object;
          }) in
      (
        coll'.opdata,
        parse_eq (h5_file objs) a coll' (omega (arith, r.arts, r.positive))
            (scan_eq (h5_file objs) coll coll' ev),
        r',
      )

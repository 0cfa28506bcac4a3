-- ===== src/Tests/Storage.antt =====
-- Runs of the binary fields and the hashes.
use miqs.Tests.{codes, plate}
use miqs.Prelude.{◌≡◌, ◌++◌, ◌%◌, ◌^◌, refl, none, [], ◌∷◌, Bytes, arith}
use miqs.Hashing.{djb2_loop, djb2_hash, sdbm_hash, lose_lose_hash, horner, hash-horner}
use miqs.Storage.Words.{le_bytes}
use miqs.Storage.Fields.{
  miqs_read_int, miqs_read_string, miqs_read_double, miqs_read_uint64, miqs_read_size_t,
  element_width,
}
use miqs.Storage.RoundTrip.{field}
use miqs.Storage.Misuse.{IsField, read_any_field}
use miqs.Containers.Assoc.{assoc}

hash_test : djb2_hash (codes "ab") ≡ 5863208
unfolding djb2_hash djb2_loop
hash_test = refl

two_ints-IsField : IsField 1 2 (le_bytes 4 3 ++ le_bytes 4 5)
unfolding element_width le_bytes
two_ints-IsField = record {
  known_low = omega arith;
  known_high = omega arith;
  sized = refl;
  fits = omega arith;
  counted = omega arith;
}

read_any_field_example :
    let stream : Bytes = field 1 2 (le_bytes 4 3 ++ le_bytes 4 5) ++ 9 ∷ [] in
    (miqs_read_int stream ≡ (none, 9 ∷ []))
    × (miqs_read_double stream ≡ (none, 9 ∷ []))
    × (miqs_read_uint64 stream ≡ (none, 9 ∷ []))
    × (miqs_read_size_t stream ≡ (none, 9 ∷ []))
    × (miqs_read_string stream ≡ (none, 9 ∷ []))
read_any_field_example = read_any_field 1 2 (le_bytes 4 3 ++ le_bytes 4 5) (9 ∷ []) two_ints-IsField

hash-horner_example :
    (djb2_hash plate ≡ horner 33 5381 plate % 2 ^ 64)
    × (sdbm_hash plate ≡ horner 65599 0 plate % 2 ^ 64)
    × (lose_lose_hash plate ≡ horner 1 0 plate % 2 ^ 32)
hash-horner_example = hash-horner plate

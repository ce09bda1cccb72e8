-- ===== src/JsonPatch/Tests.antt =====
-- Tests of JSON patches, and instances of the theorems.
use linyaps_rust.Common.{
  ℕ, ◌≡◌, refl, ◌==◌, ◌↔◌, Text, codes, text_eq, text_compare, split, cons_first, List, [], ◌∷◌,
  true, ok, err, arith,
}
use linyaps_rust.Version.{parse_u64, value_from}
use linyaps_rust.JsonPatch.Json.{
  Value, null, boolean, number, string, array, object, nil, cons, end, field, length_items,
  get_item, set_item, insert_item, remove_item, get_member, insert_member, remove_member, value_eq,
}
use linyaps_rust.JsonPatch.{
  decode_pointer_token, decode_tokens, parse_pointer, array_index, set_at, child, value_at,
  put_child, at_parent, add_child, remove_child, replace_child, add, remove, replace, string_member,
  value_member, is_prefix, move_value, test_value, apply_named, apply_operation, apply_from,
  apply_json_patch, no_member,
}
use linyaps_rust.JsonPatch.Pointer.{print_pointer, parse_pointer_iff}
use linyaps_rust.JsonPatch.Locate.{IsSorted}
use linyaps_rust.JsonPatch.Laws.{IsPlace, add-remove, replace_iff, move_value_lem}

-- `{"items":["a","b"],"nested":{"old":1},"slash/key":true}`.
abbrev document : Value ℕ
document = object (
    field (codes "items") (array (cons (string (codes "a")) (cons (string (codes "b")) nil))) (
      field (codes "nested") (object (field (codes "old") (number 1) end))
        (field (codes "slash/key") (boolean true) end)))

abbrev old : List Text
old = codes "nested" ∷ codes "old" ∷ []

abbrev second_item : List Text
second_item = codes "items" ∷ codes "1" ∷ []

document-IsSorted : IsSorted document
unfolding IsSorted text_compare
document-IsSorted = ground arith

parse_pointer_example :
    (parse_pointer (codes "/slash~1key") ≡ ok (codes "slash/key" ∷ []))
    ↔ (print_pointer (codes "slash/key" ∷ []) ≡ codes "/slash~1key")
parse_pointer_example = parse_pointer_iff (codes "/slash~1key") (codes "slash/key" ∷ [])

abbrev longer : Value ℕ
longer = object (
    field (codes "items")
      (array (cons (string (codes "a")) (cons (number 7) (cons (string (codes "b")) nil))))
      (field (codes "nested") (object (field (codes "old") (number 1) end))
        (field (codes "slash/key") (boolean true) end)))

add-remove_example :
    (add document second_item (number 7) ≡ ok longer)
    × (value_at longer second_item ≡ ok (number 7))
unfolding text_eq text_compare remove at_parent remove_child child put_child get_member
    insert_member array_index length_items remove_item get_item set_at set_item parse_u64 value_from
    IsSorted
add-remove_example = add-remove longer (document, number 7) second_item (ground arith) refl

abbrev renamed : Value ℕ → Value ℕ
renamed w = object (
    field (codes "items") (array (cons (string (codes "a")) (cons (string (codes "b")) nil))) (
      field (codes "nested") (object (field (codes "old") w end))
        (field (codes "slash/key") (boolean true) end)))

replace_example : (replace document old (number 2) ≡ ok (renamed (number 2))) ↔ (
    (r : Value ℕ × Value ℕ) × (remove document old ≡ ok r)
    × (add r.0 old (number 2) ≡ ok (renamed (number 2))))
replace_example = replace_iff document (number 2) (renamed (number 2)) old document-IsSorted

abbrev moved : Value ℕ
moved = object (
    field (codes "items") (array (cons (string (codes "b")) (cons (string (codes "a")) nil))) (
      field (codes "nested") (object (field (codes "old") (number 1) end))
        (field (codes "slash/key") (boolean true) end)))

move_value_example :
    (x : Value ℕ) × (without : Value ℕ) × (value_at document (codes "items" ∷ codes "0" ∷ [])
      ≡ ok x)
    × (remove document (codes "items" ∷ codes "0" ∷ []) ≡ ok (without, x))
    × (add without (codes "items" ∷ codes "0" ∷ []) x ≡ ok document)
    × (add without second_item x ≡ ok moved)
    × (IsPlace second_item → value_at moved second_item ≡ ok x)
unfolding text_eq text_compare move_value is_prefix add add_child remove at_parent remove_child
    child put_child get_member insert_member array_index length_items insert_item remove_item
    get_item set_at set_item parse_u64 value_from
move_value_example =
    move_value_lem document moved (codes "items" ∷ codes "0" ∷ []) second_item document-IsSorted
      refl

abbrev operation : Text → Text → Value ℕ → Value ℕ
operation name path value = object (
    field (codes "op") (string name)
      (field (codes "path") (string path) (field (codes "value") value end)))

-- A test, an addition at the end of an array and a removal, from the pointers on.
runs :
    apply_json_patch ◌==◌ document (
      operation (codes "test") (codes "/slash~1key") (boolean true)
      ∷ operation (codes "add") (codes "/items/-") (string (codes "c"))
      ∷ operation (codes "remove") (codes "/nested/old") null
      ∷ [])
    ≡ ok (
        object (
          field
            (codes "items")
            (array (
              cons
                (string (codes "a"))
                (cons (string (codes "b")) (cons (string (codes "c")) nil))))
            (field (codes "nested") (object end) (field (codes "slash/key") (boolean true) end))))
unfolding apply_json_patch apply_from apply_operation apply_named string_member value_member
    parse_pointer decode_tokens decode_pointer_token split cons_first test_value value_eq value_at
    text_eq text_compare add add_child remove at_parent remove_child child put_child get_member
    insert_member remove_member array_index length_items insert_item parse_u64 value_from
runs = refl

-- The failing operation is named by its index.
fails :
    apply_json_patch ◌==◌ document (operation (codes "replace") (codes "/missing") (number 2) ∷ [])
    ≡ err (0, no_member (codes "missing"))
unfolding apply_json_patch apply_from apply_operation apply_named string_member value_member
    parse_pointer decode_tokens decode_pointer_token split cons_first text_eq text_compare replace
    at_parent replace_child get_member
fails = refl

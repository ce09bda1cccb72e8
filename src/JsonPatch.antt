-- ===== src/JsonPatch.antt =====
-- JSON patches (crates/linyaps-core/src/json_patch.rs): pointers, and the six operations on a value.
-- A function that changes the document in place returns the changed document, and an error the error
-- alone: `apply_json_patch` works on a copy, which it drops where an operation fails.
pub mod Json
pub mod Containers
pub mod Pointer
pub mod Locate
pub mod Laws
pub mod Tests
use linyaps_rust.Common.{
  ℕ, zero, suc, ◌≡◌, ◌+◌, refl, ◌==◌, ltb, leb, Text, codes, text_eq, is_empty, split, Option, none,
  some, List, [], ◌∷◌, ◌++◌, Bool, true, false, not, ◌&&◌, ◌||◌, length, if◌then◌else◌, Result, ok,
  err, ensure, ok_or, map_err, ◌>>=◌, ◌>>◌,
}
use linyaps_rust.Version.{is_malformed, parse_u64}
use linyaps_rust.JsonPatch.Json.{
  Value, null, boolean, number, string, array, object, Items, Fields, length_items, get_item,
  set_item, insert_item, remove_item, get_member, insert_member, remove_member, value_eq,
}

-- The kinds of message.
pub data PatchError : Type 0 where
  not_an_object : PatchError
  lacks_string : Text → PatchError
  lacks_value : Text → PatchError
  into_child : PatchError
  test_failed : PatchError
  unsupported : Text → PatchError
  bad_pointer : PatchError
  invalid_escape : ℕ → PatchError
  incomplete_escape : PatchError
  no_member : Text → PatchError
  no_index : Text → PatchError
  out_of_bounds : ℕ → PatchError
  cannot_traverse : Text → PatchError
  not_a_container : Text → PatchError

abbrev pub decoded_cons : ℕ → Result PatchError Text → Result PatchError Text
decoded_cons c (ok s) = ok (c ∷ s)
decoded_cons c (err e) = err e

unfoldable pub decode_pointer_token : Text → Result PatchError Text
decode_pointer_token [] = ok []
decode_pointer_token (c ∷ []) = if c == b'~' then err incomplete_escape else ok (c ∷ [])
decode_pointer_token (c ∷ d ∷ s) =
    let escaped = decode_pointer_token s in
    let plain = decoded_cons c (decode_pointer_token (d ∷ s)) in
    if not (c == b'~')
    then plain
    else (if d == b'0'
        then decoded_cons b'~' escaped
        else (if d == b'1' then decoded_cons b'/' escaped else err (invalid_escape d)))

unfoldable pub decode_tokens : List Text → Result PatchError (List Text)
unfolding decode_pointer_token
decode_tokens [] = ok []
decode_tokens (t ∷ ts) = do s ← decode_pointer_token t; ss ← decode_tokens ts; ok (s ∷ ss)

unfoldable pub parse_pointer : Text → Result PatchError (List Text)
unfolding decode_tokens split
parse_pointer [] = ok []
parse_pointer (c ∷ s) = if c == b'/' then decode_tokens (split b'/' s) else err bad_pointer

abbrev pub checked_index : Bool → ℕ → ℕ → Result PatchError ℕ
checked_index allow_end n i =
    if ltb n i || (not allow_end && i == n) then err (out_of_bounds i) else ok i

abbrev pub index_of : Text → Bool → ℕ → Option ℕ → Result PatchError ℕ
index_of token allow_end n none = err (no_index token)
index_of token allow_end n (some i) = checked_index allow_end n i

unfoldable pub array_index : Text → Bool → ℕ → Result PatchError ℕ
unfolding text_eq parse_u64
array_index token allow_end n =
    if allow_end && text_eq token (codes "-")
    then ok n
    else (if is_malformed token
        then err (no_index token)
        else index_of token allow_end n (parse_u64 token))

-- `path.starts_with(&from)`.
unfoldable pub is_prefix : List Text → List Text → Bool
unfolding text_eq
is_prefix [] path = true
is_prefix (t ∷ from) [] = false
is_prefix (t ∷ from) (u ∷ path) = text_eq t u && is_prefix from path

module _ {N : Type 0} where
  -- One step of `value_at` and of `parent_mut`.
  unfoldable pub child : Value N → Text → Result PatchError (Value N)
  unfolding array_index get_member get_item length_items
  child (object fs) token = ok_or (get_member fs token) (no_member token)
  child (array xs) token = do
    i ← array_index token false (length_items xs)
    ok_or (get_item xs i) (out_of_bounds i)
  child v token = err (cannot_traverse token)

  unfoldable pub value_at : Value N → List Text → Result PatchError (Value N)
  unfolding child
  value_at v [] = ok v
  value_at v (t ∷ path) = child v t >>= λ c. value_at c path

  -- What `parent_mut` points to is replaced in what holds it.
  abbrev pub set_at : Items N → Value N → Result PatchError ℕ → Items N
  unfolding set_item
  set_at xs w (ok i) = set_item xs i w
  set_at xs w (err e) = xs

  unfoldable pub put_child : Value N → Text → Value N → Value N
  unfolding insert_member array_index set_at length_items
  put_child (object fs) token w = object (insert_member fs token w)
  put_child (array xs) token w = array (set_at xs w (array_index token false (length_items xs)))
  put_child v token w = v

  -- A change of the last token's parent: `parent_mut`, and the change of what it points to.
  unfoldable pub at_parent :
      {R : Type 0}
      → (Value N → Text → Result PatchError (Value N × R))
      → Value N
      → Text
      → List Text
      → Result PatchError (Value N × R)
  unfolding child put_child
  at_parent f v t [] = f v t
  at_parent f v t (u ∷ path) =
      child v t >>= λ c. at_parent f c u path >>= λ r. ok (put_child v t r.0, r.1)

  unfoldable pub add_child : Value N → Value N → Text → Result PatchError (Value N × Unit {0})
  unfolding insert_member array_index insert_item length_items
  add_child w (object fs) name = ok (object (insert_member fs name w), tt)
  add_child w (array xs) name =
      array_index name true (length_items xs) >>= λ i. ok (array (insert_item xs i w), tt)
  add_child w v name = err (not_a_container (codes "add"))

  unfoldable pub remove_child : Value N → Text → Result PatchError (Value N × Value N)
  unfolding get_member remove_member array_index get_item remove_item length_items
  remove_child (object fs) name =
      ok_or (get_member fs name) (no_member name) >>= λ v. ok (object (remove_member fs name), v)
  remove_child (array xs) name = array_index name false (length_items xs) >>= λ i.
      ok_or (get_item xs i) (out_of_bounds i) >>= λ v. ok (array (remove_item xs i), v)
  remove_child v name = err (not_a_container (codes "remove"))

  unfoldable pub replace_child : Value N → Value N → Text → Result PatchError (Value N × Unit {0})
  unfolding get_member insert_member array_index get_item set_item length_items
  replace_child w (object fs) name =
      ok_or (get_member fs name) (no_member name) >>= λ v. ok (object (insert_member fs name w), tt)
  replace_child w (array xs) name = array_index name false (length_items xs) >>= λ i.
      ok_or (get_item xs i) (out_of_bounds i) >>= λ v. ok (array (set_item xs i w), tt)
  replace_child w v name = err (not_a_container (codes "replace"))

  unfoldable pub add : Value N → List Text → Value N → Result PatchError (Value N)
  unfolding at_parent add_child
  add v [] w = ok w
  add v (t ∷ path) w = at_parent (add_child w) v t path >>= λ r. ok r.0

  -- The removed value is returned; `take` leaves null in its place at the root.
  unfoldable pub remove : Value N → List Text → Result PatchError (Value N × Value N)
  unfolding at_parent remove_child
  remove v [] = ok (null, v)
  remove v (t ∷ path) = at_parent remove_child v t path

  unfoldable pub replace : Value N → List Text → Value N → Result PatchError (Value N)
  unfolding at_parent replace_child
  replace v [] w = ok w
  replace v (t ∷ path) w = at_parent (replace_child w) v t path >>= λ r. ok r.0

  -- A member of an operation that must be a string.
  abbrev pub as_string : Text → Option (Value N) → Result PatchError Text
  as_string name (some (string s)) = ok s
  as_string name v = err (lacks_string name)

  unfoldable pub string_member : Fields N → Text → Result PatchError Text
  unfolding get_member
  string_member fs name = as_string name (get_member fs name)

  unfoldable pub value_member : Fields N → Text → Result PatchError (Value N)
  unfolding get_member
  value_member fs op = ok_or (get_member fs (codes "value")) (lacks_value op)

  unfoldable pub move_value : Value N → List Text → List Text → Result PatchError (Value N)
  unfolding is_prefix remove add
  move_value v from path =
      if ltb (length from) (length path) && is_prefix from path
      then err into_child
      else remove v from >>= λ r. add r.0 path r.1

  unfoldable pub copy_value : Value N → List Text → List Text → Result PatchError (Value N)
  unfolding value_at add
  copy_value v from path = value_at v from >>= λ w. add v path w

  unfoldable pub test_value :
      (N → N → Bool) → Value N → List Text → Value N → Result PatchError (Value N)
  unfolding value_at value_eq
  test_value same v path expected =
      value_at v path >>= λ w. if value_eq same w expected then ok v else err test_failed

  -- The match on the name of the operation.
  unfoldable pub apply_named :
      (N → N → Bool) → Value N → Fields N → Text → List Text → Result PatchError (Value N)
  unfolding text_eq value_member string_member parse_pointer add remove replace move_value
      copy_value test_value
  apply_named same v fs name path =
      if text_eq name (codes "add")
      then (value_member fs name >>= λ w. add v path w)
      else (if text_eq name (codes "remove")
          then (remove v path >>= λ r. ok r.0)
          else (if text_eq name (codes "replace")
              then (value_member fs name >>= λ w. replace v path w)
              else (if text_eq name (codes "move")
                  then (string_member fs (codes "from") >>= λ s.
                      parse_pointer s >>= λ from. move_value v from path)
                  else (if text_eq name (codes "copy")
                      then (string_member fs (codes "from") >>= λ s.
                          parse_pointer s >>= λ from. copy_value v from path)
                      else (if text_eq name (codes "test")
                          then (value_member fs name >>= λ w. test_value same v path w)
                          else err (unsupported name))))))

  unfoldable pub apply_operation : (N → N → Bool) → Value N → Value N → Result PatchError (Value N)
  unfolding string_member parse_pointer apply_named
  apply_operation same v (object fs) = string_member fs (codes "op") >>= λ name.
      string_member fs (codes "path") >>= λ s.
      parse_pointer s >>= λ path. apply_named same v fs name path
  apply_operation same v operation = err not_an_object

  -- The index of the operation that failed stands with its error.
  unfoldable pub apply_from :
      (N → N → Bool) → ℕ → Value N → List (Value N) → Result (ℕ × PatchError) (Value N)
  unfolding apply_operation
  apply_from same i v [] = ok v
  apply_from same i v (o ∷ os) =
      map_err (λ e. (i, e)) (apply_operation same v o) >>= λ w. apply_from same (i + 1) w os

  unfoldable pub apply_json_patch :
      (N → N → Bool) → Value N → List (Value N) → Result (ℕ × PatchError) (Value N)
  unfolding apply_from
  apply_json_patch same v operations = apply_from same 0 v operations

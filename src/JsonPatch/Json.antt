-- ===== src/JsonPatch/Json.antt =====
-- `serde_json::Value`: an array is a list of values, and an object a list of members in the order of
-- their names, as a `BTreeMap` keeps them. The numbers are a parameter.
use linyaps_rust.Common.{
  ℕ, zero, suc, Text, text_eq, text_compare, Option, none, some, Bool, true, false, ◌&&◌, Ordering,
}

mutual
  pub data Value (N : Type 0) : Type 0 where
    null : Value N
    boolean : Bool → Value N
    number : N → Value N
    string : Text → Value N
    array : Items N → Value N
    object : Fields N → Value N

  pub data Items (N : Type 0) : Type 0 where
    nil : Items N
    cons : Value N → Items N → Items N

  pub data Fields (N : Type 0) : Type 0 where
    end : Fields N
    field : Text → Value N → Fields N → Fields N

module _ {N : Type 0} where
  unfoldable pub length_items : Items N → ℕ
  length_items nil = 0
  length_items (cons x xs) = suc (length_items xs)

  unfoldable pub get_item : Items N → ℕ → Option (Value N)
  get_item nil i = none
  get_item (cons x xs) zero = some x
  get_item (cons x xs) (suc i) = get_item xs i

  unfoldable pub set_item : Items N → ℕ → Value N → Items N
  set_item nil i v = nil
  set_item (cons x xs) zero v = cons v xs
  set_item (cons x xs) (suc i) v = cons x (set_item xs i v)

  -- `Vec::insert`, which the code calls up to the length only.
  unfoldable pub insert_item : Items N → ℕ → Value N → Items N
  insert_item xs zero v = cons v xs
  insert_item nil (suc i) v = cons v nil
  insert_item (cons x xs) (suc i) v = cons x (insert_item xs i v)

  -- `Vec::remove`, which the code calls in bounds only.
  unfoldable pub remove_item : Items N → ℕ → Items N
  remove_item nil i = nil
  remove_item (cons x xs) zero = xs
  remove_item (cons x xs) (suc i) = cons x (remove_item xs i)

  -- The name sought before, at and behind a member's name.
  abbrev pub get_by : Ordering → Value N → Option (Value N) → Option (Value N)
  get_by Ordering.lt v rest = none
  get_by Ordering.eq v rest = some v
  get_by Ordering.gt v rest = rest

  unfoldable pub get_member : Fields N → Text → Option (Value N)
  unfolding text_compare
  get_member end k = none
  get_member (field j v fs) k = get_by (text_compare k j) v (get_member fs k)

  abbrev pub insert_by : Ordering → Text → Value N → Text → Value N → Fields N → Fields N → Fields N
  insert_by Ordering.lt k w j v fs rest = field k w (field j v fs)
  insert_by Ordering.eq k w j v fs rest = field j w fs
  insert_by Ordering.gt k w j v fs rest = field j v rest

  unfoldable pub insert_member : Fields N → Text → Value N → Fields N
  unfolding text_compare
  insert_member end k w = field k w end
  insert_member (field j v fs) k w = insert_by (text_compare k j) k w j v fs (insert_member fs k w)

  abbrev pub remove_by : Ordering → Text → Value N → Fields N → Fields N → Fields N
  remove_by Ordering.lt j v fs rest = field j v fs
  remove_by Ordering.eq j v fs rest = fs
  remove_by Ordering.gt j v fs rest = field j v rest

  unfoldable pub remove_member : Fields N → Text → Fields N
  unfolding text_compare
  remove_member end k = end
  remove_member (field j v fs) k = remove_by (text_compare k j) j v fs (remove_member fs k)

-- `==` on values, from that on numbers.
unfoldable mutual
  unfolding text_eq

  pub value_eq : {N : Type 0} → (N → N → Bool) → Value N → Value N → Bool
  value_eq same null null = true
  value_eq same (boolean true) (boolean b) = b
  value_eq same (boolean false) (boolean true) = false
  value_eq same (boolean false) (boolean false) = true
  value_eq same (number m) (number n) = same m n
  value_eq same (string s) (string t) = text_eq s t
  value_eq same (array xs) (array ys) = items_eq same xs ys
  value_eq same (object fs) (object gs) = fields_eq same fs gs
  value_eq same v w = false

  pub items_eq : {N : Type 0} → (N → N → Bool) → Items N → Items N → Bool
  items_eq same nil nil = true
  items_eq same (cons x xs) (cons y ys) = value_eq same x y && items_eq same xs ys
  items_eq same xs ys = false

  pub fields_eq : {N : Type 0} → (N → N → Bool) → Fields N → Fields N → Bool
  fields_eq same end end = true
  fields_eq same (field j v fs) (field k w gs) =
      text_eq j k && value_eq same v w && fields_eq same fs gs
  fields_eq same fs gs = false

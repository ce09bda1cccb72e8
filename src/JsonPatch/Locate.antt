-- ===== src/JsonPatch/Locate.antt =====
-- One step down a document, and what a change at its end does to the steps above.
use linyaps_rust.Common.{
  ℕ, zero, suc, ◌≡◌, refl, ap, ◌∙◌, Text, text_compare, Ordering, codes, text_eq, Option, none,
  some, true, false, ok, ok_or, bind-succeeds, arith,
}
use linyaps_rust.JsonPatch.{
  PatchError, no_member, out_of_bounds, array_index, child, put_child, add_child, remove_child,
  replace_child,
}
use linyaps_rust.JsonPatch.Json.{
  Value, null, boolean, number, string, array, object, Items, nil, cons, Fields, end, field,
  length_items, get_item, insert_item, remove_item, get_member, insert_member, remove_member,
  get_by,
}
use linyaps_rust.JsonPatch.Containers.{
  get-insert_item, get-set_item, set-set_item, set-get_item, insert-remove_item, get-insert_member,
  insert-insert_member, insert-get_member, insert-remove_member, Rising, array_index-parts,
  array_index-Indexes,
}

ok_or-ok : {A : Type 0} (o : Option A) (e : PatchError) (a : A) → ok_or o e ≡ ok a → o ≡ some a
ok_or-ok none e a h = absurd (ground arith)
ok_or-ok (some b) e a h = ground arith

module _ {N : Type 0} where
  -- The index that a token stands for in an array.
  item_of :
      (xs : Items N) (t : Text) (c : Value N)
      → child (array xs) t ≡ ok c
      → (i : ℕ) × (array_index t false (length_items xs) ≡ ok i) × (get_item xs i ≡ some c)
  unfolding child
  item_of xs t c h =
      let (i, k, e) = bind-succeeds _ (array_index t false (length_items xs)) h in
      (i, e, ok_or-ok (get_item xs i) (out_of_bounds i) c k)

  member_of :
      (fs : Fields N) (t : Text) (c : Value N)
      → child (object fs) t ≡ ok c
      → get_member fs t ≡ some c
  unfolding child
  member_of fs t c h = ok_or-ok (get_member fs t) (no_member t) c h

  -- What replaces a child is the child afterwards.
  pub child-put_child :
      (v : Value N) (t : Text) (c w : Value N) → child v t ≡ ok c → child (put_child v t w) t ≡ ok w
  unfolding put_child
  child-put_child (object fs) t c w h = unfold child in rw (get-insert_member fs t w) refl
  child-put_child (array xs) t c w h =
      let (i, e, g) = item_of xs t c h in
      let (s, l) = get-set_item xs i c w g in rw e (unfold child in rw (l, e, s) refl)
  child-put_child null t c w h = absurd (unfold child in ground arith)
  child-put_child (boolean b) t c w h = absurd (unfold child in ground arith)
  child-put_child (number n) t c w h = absurd (unfold child in ground arith)
  child-put_child (string s) t c w h = absurd (unfold child in ground arith)

  pub put_child-put_child :
      (v : Value N) (t : Text) (c a b : Value N)
      → child v t ≡ ok c
      → put_child (put_child v t a) t b ≡ put_child v t b
  unfolding put_child
  put_child-put_child (object fs) t c a b h = ap object (insert-insert_member fs t a b)
  put_child-put_child (array xs) t c a b h =
      let (i, e, g) = item_of xs t c h in
      let (s, l) = get-set_item xs i c a g in rw e (rw (l, e) (ap array (set-set_item xs i a b)))
  put_child-put_child null t c a b h = refl
  put_child-put_child (boolean x) t c a b h = refl
  put_child-put_child (number n) t c a b h = refl
  put_child-put_child (string s) t c a b h = refl

  pub put_child_same :
      (v : Value N) (t : Text) (c : Value N) → child v t ≡ ok c → put_child v t c ≡ v
  unfolding put_child
  put_child_same (object fs) t c h = ap object (insert-get_member fs t c (member_of fs t c h))
  put_child_same (array xs) t c h =
      let (i, e, g) = item_of xs t c h in rw e (ap array (set-get_item xs i c g))
  put_child_same null t c h = refl
  put_child_same (boolean b) t c h = refl
  put_child_same (number n) t c h = refl
  put_child_same (string s) t c h = refl

  -- The changes at the end of a path.
  pub child-add_child :
      (w v : Value N) (t : Text) (r : Value N × Unit {0})
      → text_eq t (codes "-") ≡ false
      → add_child w v t ≡ ok r
      → child r.0 t ≡ ok w
  unfolding add_child
  child-add_child w (object fs) t r d h =
      let e : object (insert_member fs t w) ≡ r.0 = ground arith in
      rw (← e) (unfold child in rw (get-insert_member fs t w) refl)
  child-add_child w (array xs) t r d h =
      let (i, k, e) = bind-succeeds _ (array_index t true (length_items xs)) h in
      let (x, b, z) = array_index-parts t true (length_items xs) i d e in
      let (g, l) = get-insert_item xs i w b in
      let q : array (insert_item xs i w) ≡ r.0 = ground arith in
      rw (← q) (
        unfold child in
        rw (l, (array_index-Indexes t (suc (length_items xs)) i x).0 (omega arith), g) refl)
  child-add_child w null t r d h = absurd (ground arith)
  child-add_child w (boolean b) t r d h = absurd (ground arith)
  child-add_child w (number n) t r d h = absurd (ground arith)
  child-add_child w (string s) t r d h = absurd (ground arith)

  pub child-remove_child :
      (v : Value N) (t : Text) (r : Value N × Value N)
      → remove_child v t ≡ ok r
      → child v t ≡ ok r.1
  unfolding remove_child child
  child-remove_child (object fs) t r h =
      let (x, k, e) = bind-succeeds _ (ok_or (get_member fs t) (no_member t)) h in e ∙ ground arith
  child-remove_child (array xs) t r h =
      let (i, k, e) = bind-succeeds _ (array_index t false (length_items xs)) h in
      let (x, k', e') = bind-succeeds _ (ok_or (get_item xs i) (out_of_bounds i)) k in
      rw e (e' ∙ ground arith)
  child-remove_child null t r h = absurd (ground arith)
  child-remove_child (boolean b) t r h = absurd (ground arith)
  child-remove_child (number n) t r h = absurd (ground arith)
  child-remove_child (string s) t r h = absurd (ground arith)

  -- The names of an object rise, as a `BTreeMap` keeps them.
  abbrev pub RisesHere : Value N → Type 0
  RisesHere (object fs) = Rising fs
  RisesHere v = Unit {0}

  -- A removal followed by an addition at the same place is a replacement.
  pub add_child-remove_child :
      (v : Value N) (t : Text) (r : Value N × Value N) (w : Value N)
      → RisesHere v
      → remove_child v t ≡ ok r
      → add_child w r.0 t ≡ replace_child w v t
  unfolding remove_child
  add_child-remove_child (object fs) t r w c h =
      let (x, k, e) = bind-succeeds _ (ok_or (get_member fs t) (no_member t)) h in
      let q : object (remove_member fs t) ≡ r.0 = ground arith in
      rw (← q) (
        unfold add_child replace_child in
        rw (e, insert-remove_member fs t x w c (ok_or-ok (get_member fs t) (no_member t) x e)) refl)
  add_child-remove_child (array xs) t r w c h =
      let (i, k, e) = bind-succeeds _ (array_index t false (length_items xs)) h in
      let (x, k', e') = bind-succeeds _ (ok_or (get_item xs i) (out_of_bounds i)) k in
      let (s, l, b) =
        insert-remove_item xs i x w (ok_or-ok (get_item xs i) (out_of_bounds i) x e') in
      let (f, z, y) = array_index-parts t false (length_items xs) i refl e in
      let q : array (remove_item xs i) ≡ r.0 = ground arith in
      rw (← q) (
        unfold add_child replace_child in
        rw (e, (array_index-Indexes t (length_items (remove_item xs i)) i f).1 (omega arith))
          (rw (e', s) refl))
  add_child-remove_child null t r w c h = absurd (ground arith)
  add_child-remove_child (boolean b) t r w c h = absurd (ground arith)
  add_child-remove_child (number n) t r w c h = absurd (ground arith)
  add_child-remove_child (string s) t r w c h = absurd (ground arith)

  pub replace_child_same :
      (v : Value N) (t : Text) (c : Value N) → child v t ≡ ok c → replace_child c v t ≡ ok (v, tt)
  unfolding replace_child
  replace_child_same (object fs) t c h =
      let g = member_of fs t c h in rw (g, insert-get_member fs t c g) refl
  replace_child_same (array xs) t c h =
      let (i, e, g) = item_of xs t c h in rw (e, g) (rw (set-get_item xs i c g) refl)
  replace_child_same null t c h = absurd (unfold child in ground arith)
  replace_child_same (boolean b) t c h = absurd (unfold child in ground arith)
  replace_child_same (number n) t c h = absurd (unfold child in ground arith)
  replace_child_same (string s) t c h = absurd (unfold child in ground arith)

  -- What can be replaced can be removed.
  pub removable :
      (v : Value N) (t : Text) (w : Value N) (q : Value N × Unit {0})
      → replace_child w v t ≡ ok q
      → (r : Value N × Value N) × (remove_child v t ≡ ok r)
  unfolding remove_child replace_child
  removable (object fs) t w q h =
      let (x, k, e) = bind-succeeds _ (ok_or (get_member fs t) (no_member t)) h in
      ((object (remove_member fs t), x), rw e refl)
  removable (array xs) t w q h =
      let (i, k, e) = bind-succeeds _ (array_index t false (length_items xs)) h in
      let (x, k', e') = bind-succeeds _ (ok_or (get_item xs i) (out_of_bounds i)) k in
      ((array (remove_item xs i), x), rw e (rw e' refl))
  removable null t w q h = absurd (ground arith)
  removable (boolean b) t w q h = absurd (ground arith)
  removable (number n) t w q h = absurd (ground arith)
  removable (string s) t w q h = absurd (ground arith)

-- A document as the parser builds it: the names of every object in it rise.
unfoldable mutual
  pub IsSorted : {N : Type 0} → Value N → Type 0
  IsSorted null = Unit {0}
  IsSorted (boolean b) = Unit {0}
  IsSorted (number n) = Unit {0}
  IsSorted (string s) = Unit {0}
  IsSorted (array xs) = AreSorted xs
  IsSorted (object fs) = Rising fs × MembersAreSorted fs

  pub AreSorted : {N : Type 0} → Items N → Type 0
  AreSorted nil = Unit {0}
  AreSorted (cons x xs) = IsSorted x × AreSorted xs

  pub MembersAreSorted : {N : Type 0} → Fields N → Type 0
  MembersAreSorted end = Unit {0}
  MembersAreSorted (field k v fs) = IsSorted v × MembersAreSorted fs

module _ {N : Type 0} where
  pub IsSorted-RisesHere : (v : Value N) → IsSorted v → RisesHere v
  unfolding IsSorted
  IsSorted-RisesHere null h = tt
  IsSorted-RisesHere (boolean b) h = tt
  IsSorted-RisesHere (number n) h = tt
  IsSorted-RisesHere (string s) h = tt
  IsSorted-RisesHere (array xs) h = tt
  IsSorted-RisesHere (object fs) h = h.0

  get_item-IsSorted :
      (xs : Items N) (i : ℕ) (c : Value N) → AreSorted xs → get_item xs i ≡ some c → IsSorted c
  unfolding IsSorted get_item
  get_item-IsSorted nil i c h g = absurd (ground arith)
  get_item-IsSorted (cons x xs) zero c h g = let e : x ≡ c = ground arith in rw (← e) h.0
  get_item-IsSorted (cons x xs) (suc i) c h g = get_item-IsSorted xs i c h.1 g

  get_member-IsSorted :
      (fs : Fields N) (k : Text) (c : Value N)
      → MembersAreSorted fs
      → get_member fs k ≡ some c
      → IsSorted c
  unfolding IsSorted get_member
  get_member-IsSorted end k c h g = absurd (ground arith)
  get_member-IsSorted (field j v fs) k c h g =
      go (text_compare k j) (get_member-IsSorted fs k c h.1) g
    where
      go :
          (o : Ordering)
          → (get_member fs k ≡ some c → IsSorted c)
          → get_by o v (get_member fs k) ≡ some c
          → IsSorted c
      go Ordering.lt ih e = absurd (ground arith)
      go Ordering.eq ih e = let q : v ≡ c = ground arith in rw (← q) h.0
      go Ordering.gt ih e = ih e

  pub child-IsSorted :
      (v : Value N) (t : Text) (c : Value N) → IsSorted v → child v t ≡ ok c → IsSorted c
  unfolding IsSorted
  child-IsSorted (object fs) t c h e = get_member-IsSorted fs t c h.1 (member_of fs t c e)
  child-IsSorted (array xs) t c h e =
      let (i, a, g) = item_of xs t c e in get_item-IsSorted xs i c h g
  child-IsSorted null t c h e = absurd (unfold child in ground arith)
  child-IsSorted (boolean b) t c h e = absurd (unfold child in ground arith)
  child-IsSorted (number n) t c h e = absurd (unfold child in ground arith)
  child-IsSorted (string s) t c h e = absurd (unfold child in ground arith)

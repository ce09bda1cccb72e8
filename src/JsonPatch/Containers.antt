-- ===== src/JsonPatch/Containers.antt =====
-- Laws of the arrays and objects of JSON values, and of array indices.
use linyaps_rust.Common.{
  ℕ, zero, suc, ◌≡◌, refl, ap, ◌<◌, ◌≤◌, Text, codes, text_eq, text_eq_iff, text_compare,
  text_compare_refl, text_compare_eq, Option, none, some, Bool, true, false, ◌&&◌, Ordering,
  if◌then◌else◌, ok, err, inl, inr, Bool-cases, arith,
}
use linyaps_rust.Version.{is_malformed, parse_u64}
use linyaps_rust.JsonPatch.{no_index, array_index, index_of}
use linyaps_rust.JsonPatch.Json.{
  Value, Items, nil, cons, Fields, end, field, length_items, get_item, set_item, insert_item,
  remove_item, get_member, insert_member, remove_member, get_by, insert_by, remove_by,
}

module _ {N : Type 0} where
  pub get-insert_item :
      (xs : Items N) (i : ℕ) (w : Value N)
      → i ≤ length_items xs
      → (get_item (insert_item xs i w) i ≡ some w)
        × (length_items (insert_item xs i w) ≡ suc (length_items xs))
  unfolding length_items get_item insert_item
  get-insert_item nil zero w h = (refl, refl)
  get-insert_item (cons x xs) zero w h = (refl, refl)
  get-insert_item nil (suc i) w h = absurd (omega arith)
  get-insert_item (cons x xs) (suc i) w h =
      let (g, l) = get-insert_item xs i w (omega arith) in (g, ap suc l)

  pub get-set_item :
      (xs : Items N) (i : ℕ) (v w : Value N)
      → get_item xs i ≡ some v
      → (get_item (set_item xs i w) i ≡ some w) × (length_items (set_item xs i w) ≡ length_items xs)
  unfolding length_items get_item set_item
  get-set_item nil i v w h = absurd (ground arith)
  get-set_item (cons x xs) zero v w h = (refl, refl)
  get-set_item (cons x xs) (suc i) v w h = let (g, l) = get-set_item xs i v w h in (g, ap suc l)

  pub set-set_item :
      (xs : Items N) (i : ℕ) (v w : Value N) → set_item (set_item xs i v) i w ≡ set_item xs i w
  unfolding set_item
  set-set_item nil i v w = refl
  set-set_item (cons x xs) zero v w = refl
  set-set_item (cons x xs) (suc i) v w = ap (cons x) (set-set_item xs i v w)

  pub set-get_item :
      (xs : Items N) (i : ℕ) (v : Value N) → get_item xs i ≡ some v → set_item xs i v ≡ xs
  unfolding get_item set_item
  set-get_item nil i v h = refl
  set-get_item (cons x xs) zero v h = let e : x ≡ v = ground arith in rw e refl
  set-get_item (cons x xs) (suc i) v h = ap (cons x) (set-get_item xs i v h)

  pub insert-remove_item :
      (xs : Items N) (i : ℕ) (v w : Value N)
      → get_item xs i ≡ some v
      → (insert_item (remove_item xs i) i w ≡ set_item xs i w)
        × (suc (length_items (remove_item xs i)) ≡ length_items xs)
        × (i < length_items xs)
  unfolding length_items get_item set_item insert_item remove_item
  insert-remove_item nil i v w h = absurd (ground arith)
  insert-remove_item (cons x nil) zero v w h = (refl, refl, omega arith)
  insert-remove_item (cons x (cons y xs)) zero v w h = (refl, refl, omega arith)
  insert-remove_item (cons x xs) (suc i) v w h =
      let (e, l, b) = insert-remove_item xs i v w h in (ap (cons x) e, ap suc l, omega arith)

  pub get_item-some :
      (xs : Items N) (i : ℕ) → i < length_items xs → (v : Value N) × (get_item xs i ≡ some v)
  unfolding length_items get_item
  get_item-some nil i h = absurd (omega arith)
  get_item-some (cons x xs) zero h = (x, refl)
  get_item-some (cons x xs) (suc i) h = get_item-some xs i (omega arith)

  get_member_head :
      (k j : Text) (v : Value N) (fs : Fields N)
      → get_member (field j v fs) k ≡ get_by (text_compare k j) v (get_member fs k)
  unfolding get_member
  get_member_head k j v fs = refl

  pub get-insert_member :
      (fs : Fields N) (k : Text) (w : Value N) → get_member (insert_member fs k w) k ≡ some w
  unfolding insert_member
  get-insert_member end k w = rw (get_member_head k k w end, text_compare_refl k) refl
  get-insert_member (field j v fs) k w = go (text_compare k j) refl (get-insert_member fs k w)
    where
      go :
          (o : Ordering)
          → text_compare k j ≡ o
          → get_member (insert_member fs k w) k ≡ some w
          → get_member (insert_by o k w j v fs (insert_member fs k w)) k ≡ some w
      go Ordering.lt e ih = rw (get_member_head k k w (field j v fs), text_compare_refl k) refl
      go Ordering.eq e ih = rw (get_member_head k j w fs, e) refl
      go Ordering.gt e ih = rw (get_member_head k j v (insert_member fs k w), e, ih) refl

  pub insert-insert_member :
      (fs : Fields N) (k : Text) (v w : Value N)
      → insert_member (insert_member fs k v) k w ≡ insert_member fs k w
  unfolding insert_member
  insert-insert_member end k v w = rw (text_compare_refl k) refl
  insert-insert_member (field j u fs) k v w =
      go (text_compare k j) refl (insert-insert_member fs k v w)
    where
      go :
          (o : Ordering)
          → text_compare k j ≡ o
          → insert_member (insert_member fs k v) k w ≡ insert_member fs k w
          → insert_member (insert_by o k v j u fs (insert_member fs k v)) k w
            ≡ insert_by o k w j u fs (insert_member fs k w)
      go Ordering.lt e ih = rw (text_compare_refl k) refl
      go Ordering.eq e ih = rw e refl
      go Ordering.gt e ih = rw e (ap (field j u) ih)

  pub insert-get_member :
      (fs : Fields N) (k : Text) (v : Value N)
      → get_member fs k ≡ some v
      → insert_member fs k v ≡ fs
  unfolding insert_member get_member
  insert-get_member end k v h = absurd (ground arith)
  insert-get_member (field j u fs) k v h = go (text_compare k j) (insert-get_member fs k v) h
    where
      go :
          (o : Ordering)
          → (get_member fs k ≡ some v → insert_member fs k v ≡ fs)
          → get_by o u (get_member fs k) ≡ some v
          → insert_by o k v j u fs (insert_member fs k v) ≡ field j u fs
      go Ordering.lt ih g = absurd (ground arith)
      go Ordering.eq ih g = let e : u ≡ v = ground arith in rw e refl
      go Ordering.gt ih g = ap (field j u) (ih g)

-- Every name of the object is behind a given name, and the names rise.
abbrev pub AllBehind : {N : Type 0} → Text → Fields N → Type 0
AllBehind k end = Unit {0}
AllBehind k (field j v fs) = (text_compare k j ≡ Ordering.lt) × AllBehind k fs

abbrev pub Rising : {N : Type 0} → Fields N → Type 0
Rising end = Unit {0}
Rising (field j v fs) = AllBehind j fs × Rising fs

module _ {N : Type 0} where
  insert-first :
      (fs : Fields N) (k : Text) (w : Value N)
      → AllBehind k fs
      → insert_member fs k w ≡ field k w fs
  unfolding insert_member
  insert-first end k w h = refl
  insert-first (field j v fs) k w h = rw (h.0) refl

  pub insert-remove_member :
      (fs : Fields N) (k : Text) (v w : Value N)
      → Rising fs
      → get_member fs k ≡ some v
      → insert_member (remove_member fs k) k w ≡ insert_member fs k w
  unfolding insert_member get_member remove_member
  insert-remove_member end k v w r h = absurd (ground arith)
  insert-remove_member (field j u fs) k v w r h =
      go (text_compare k j) refl (insert-remove_member fs k v w r.1) h
    where
      go :
          (o : Ordering)
          → text_compare k j ≡ o
          → (get_member fs k ≡ some v
              → insert_member (remove_member fs k) k w ≡ insert_member fs k w)
          → get_by o u (get_member fs k) ≡ some v
          → insert_member (remove_by o j u fs (remove_member fs k)) k w
            ≡ insert_by o k w j u fs (insert_member fs k w)
      go Ordering.lt e ih g = absurd (ground arith)
      go Ordering.eq e ih g = rw (text_compare_eq k j e) (insert-first fs j w r.0)
      go Ordering.gt e ih g = rw e (ap (field j u) (ih g))

-- A text that stands for an index.
pub record Indexes (token : Text) (i : ℕ) : Type 0 where
  pub well_formed : is_malformed token ≡ false
  pub parsed : parse_u64 token ≡ some i

Indexes-dash : (token : Text) (i : ℕ) → Indexes token i → text_eq token (codes "-") ≡ false
Indexes-dash token i h = elim (Bool-cases (text_eq token (codes "-"))) [
  | inr other ↦ other
  | inl dash ↦ absurd (
      let e = (text_eq_iff token (codes "-")).0 dash in
      let m = rw e at h.well_formed in ground arith)
]

pub array_index-parts :
    (token : Text) (allow_end : Bool) (n i : ℕ)
    → (allow_end && text_eq token (codes "-")) ≡ false
    → array_index token allow_end n ≡ ok i
    → Indexes token i × (i ≤ n) × (allow_end ≡ false → i < n)
unfolding array_index
array_index-parts token allow_end n i d h =
    go (is_malformed token) (parse_u64 token) allow_end refl refl (ground arith)
  where
    go :
        (m : Bool) (o : Option ℕ) (a : Bool)
        → is_malformed token ≡ m
        → parse_u64 token ≡ o
        → (if m then err (no_index token) else index_of token a n o) ≡ ok i
        → Indexes token i × (i ≤ n) × (a ≡ false → i < n)
    go true o a f p k = absurd (ground arith)
    go false none a f p k = absurd (ground arith)
    go false (some j) a f p k =
        let e : j ≡ i = ground arith in
        (record { well_formed = f; parsed = rw e at p }, ground arith, λ z. ground arith)

-- An index in bounds, and an index up to the end.
pub array_index-Indexes :
    (token : Text) (n i : ℕ)
    → Indexes token i
    → (i < n → array_index token false n ≡ ok i) × (i ≤ n → array_index token true n ≡ ok i)
unfolding array_index
array_index-Indexes token n i h =
    let d = Indexes-dash token i h in
    (
      λ l. rw (h.well_formed, h.parsed) (ground arith),
      λ l. rw (d, h.well_formed, h.parsed) (ground arith),
    )

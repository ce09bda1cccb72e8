-- ===== src/JsonPatch/Laws.antt =====
-- What the operations of a patch do, at any depth.
use linyaps_rust.Common.{
  ◌≡◌, refl, ap, sym, ◌∙◌, Text, codes, text_eq, false, ◌&&◌, Result, ok, ◌>>=◌, bind-succeeds,
  arith, List, [], ◌∷◌, ltb, length, ◌↔◌,
}
use mathlib.Core.Path.{fun_ext}
use linyaps_rust.JsonPatch.{
  PatchError, child, value_at, put_child, at_parent, add_child, remove_child, replace_child, add,
  remove, replace, move_value, copy_value, is_prefix,
}
use linyaps_rust.JsonPatch.Json.{Value, null}
use linyaps_rust.JsonPatch.Locate.{
  child-put_child, put_child-put_child, put_child_same, child-add_child, child-remove_child,
  add_child-remove_child, replace_child_same, removable, IsSorted, IsSorted-RisesHere,
  child-IsSorted,
}

abbrev pub last_token : Text → List Text → Text
last_token t [] = t
last_token t (u ∷ path) = last_token u path

-- The path does not end in `-`, which stands for the end of an array.
abbrev pub IsPlace : List Text → Type 0
IsPlace [] = Unit {0}
IsPlace (t ∷ path) = text_eq (last_token t path) (codes "-") ≡ false

module _ {N : Type 0} where
  -- The step of a change below the first token.
  at_parent-below :
      {R : Type 0} (f : Value N → Text → Result PatchError (Value N × R)) (v : Value N) (t u : Text)
      (path : List Text) (r : Value N × R)
      → at_parent f v t (u ∷ path) ≡ ok r
      → (c : Value N) × (q : Value N × R) × (child v t ≡ ok c)
        × (at_parent f c u path ≡ ok q)
        × ((put_child v t q.0, q.1) ≡ r)
  unfolding at_parent
  at_parent-below f v t u path r h =
      let (c, k, e) = bind-succeeds _ (child v t) h in
      let (q, k', e') = bind-succeeds _ (at_parent f c u path) k in (c, q, e, e', ground arith)

  value_at-below :
      (v c : Value N) (t u : Text) (path : List Text)
      → child v t ≡ ok c
      → value_at v (t ∷ u ∷ path) ≡ value_at c (u ∷ path)
  unfolding value_at
  value_at-below v c t u path h = rw h refl

  added :
      (w v : Value N) (t : Text) (path : List Text) (r : Value N × Unit {0})
      → text_eq (last_token t path) (codes "-") ≡ false
      → at_parent (add_child w) v t path ≡ ok r
      → value_at r.0 (t ∷ path) ≡ ok w
  unfolding at_parent
  added w v t [] r d h = unfold value_at in rw (child-add_child w v t r d h) refl
  added w v t (u ∷ path) r d h =
      let (c, q, e, a, s) = at_parent-below (add_child w) v t u path r h in
      let deeper = added w c u path q d a in
      let here = child-put_child v t c q.0 e in
      rw (← s) (value_at-below (put_child v t q.0) q.0 t u path here ∙ deeper)

  removed :
      (v : Value N) (t : Text) (path : List Text) (r : Value N × Value N)
      → at_parent remove_child v t path ≡ ok r
      → value_at v (t ∷ path) ≡ ok r.1
  removed v t [] r h = unfold value_at in rw (child-remove_child v t r (unfold at_parent in h)) refl
  removed v t (u ∷ path) r h =
      let (c, q, e, a, s) = at_parent-below remove_child v t u path r h in
      let deeper = removed c u path q a in rw (← s) (value_at-below v c t u path e ∙ deeper)

  at_parent-step :
      {R : Type 0} (f : Value N → Text → Result PatchError (Value N × R)) (v c : Value N)
      (t u : Text) (path : List Text)
      → child v t ≡ ok c
      → at_parent f v t (u ∷ path) ≡ (at_parent f c u path >>= λ r. ok (put_child v t r.0, r.1))
  unfolding at_parent
  at_parent-step f v c t u path h = rw h refl

  replaced :
      (v w : Value N) (t : Text) (path : List Text) (r : Value N × Value N)
      → IsSorted v
      → at_parent remove_child v t path ≡ ok r
      → at_parent (add_child w) r.0 t path ≡ at_parent (replace_child w) v t path
  replaced v w t [] r c h =
      unfold at_parent in
      add_child-remove_child v t r w (IsSorted-RisesHere v c) (unfold at_parent in h)
  replaced v w t (u ∷ path) r m h =
      let (c, q, e, a, s) = at_parent-below remove_child v t u path r h in
      let deeper = replaced c w u path q (child-IsSorted v t c m e) a in
      let here = child-put_child v t c q.0 e in
      rw (← s) (
        at_parent-step (add_child w) (put_child v t q.0) q.0 t u path here
        ∙ (rw deeper (
              ap (λ k. at_parent (replace_child w) c u path >>= k)
                (fun_ext (λ r. ap (λ x. ok (x, r.1)) (put_child-put_child v t c q.0 r.0 e))))
            ∙ sym (at_parent-step (replace_child w) v c t u path e)))

  value_at-one : (v x : Value N) (t : Text) → value_at v (t ∷ []) ≡ ok x → child v t ≡ ok x
  unfolding value_at
  value_at-one v x t h = let (c, k, e) = bind-succeeds _ (child v t) h in e ∙ k

  value_at-first :
      (v x : Value N) (t u : Text) (path : List Text)
      → value_at v (t ∷ u ∷ path) ≡ ok x
      → (c : Value N) × (value_at c (u ∷ path) ≡ ok x) × (child v t ≡ ok c)
  unfolding value_at
  value_at-first v x t u path h = bind-succeeds _ (child v t) h

  replaced_same :
      (v x : Value N) (t : Text) (path : List Text)
      → value_at v (t ∷ path) ≡ ok x
      → at_parent (replace_child x) v t path ≡ ok (v, tt)
  replaced_same v x t [] h = unfold at_parent in replace_child_same v t x (value_at-one v x t h)
  replaced_same v x t (u ∷ path) h =
      let (c, k, e) = value_at-first v x t u path h in
      at_parent-step (replace_child x) v c t u path e
      ∙ rw (replaced_same c x u path k) (ap (λ y. ok (y, tt)) (put_child_same v t c e))

  -- After an addition its place holds the value that was added.
  pub value_at-add :
      (v w v' : Value N) (path : List Text)
      → IsPlace path
      → add v path w ≡ ok v'
      → value_at v' path ≡ ok w
  unfolding add
  value_at-add v w v' [] d h = let e : w ≡ v' = ground arith in rw (← e) (unfold value_at in refl)
  value_at-add v w v' (t ∷ path) d h =
      let (r, k, e) = bind-succeeds _ (at_parent (add_child w) v t path) h in
      let q : r.0 ≡ v' = ground arith in rw (← q) (added w v t path r d e)

  -- A removal returns what its place held.
  value_at-remove :
      (v : Value N) (r : Value N × Value N) (path : List Text)
      → remove v path ≡ ok r
      → value_at v path ≡ ok r.1
  unfolding remove
  value_at-remove v r [] h = unfold value_at in ground arith
  value_at-remove v r (t ∷ path) h = removed v t path r h

  -- What a removal took out is put back by an addition at the same place, and the document is as it
  -- was; the removal returned what stood there.
  pub add-remove :
      (v : Value N) (r : Value N × Value N) (path : List Text)
      → IsSorted v
      → remove v path ≡ ok r
      → (add r.0 path r.1 ≡ ok v) × (value_at v path ≡ ok r.1)
  unfolding remove add
  add-remove v r [] m h = (ground arith, value_at-remove v r [] (unfold remove in h))
  add-remove v r (t ∷ path) m h =
      let there = removed v t path r h in
      (rw (replaced v r.1 t path r m h) (rw (replaced_same v r.1 t path there) refl), there)

  replaced-removable :
      (v w : Value N) (t : Text) (path : List Text) (q : Value N × Unit {0})
      → at_parent (replace_child w) v t path ≡ ok q
      → (r : Value N × Value N) × (at_parent remove_child v t path ≡ ok r)
  replaced-removable v w t [] q h = unfold at_parent in removable v t w q (unfold at_parent in h)
  replaced-removable v w t (u ∷ path) q h =
      let (c, p, e, a, s) = at_parent-below (replace_child w) v t u path q h in
      let (r, k) = replaced-removable c w u path p a in
      ((put_child v t r.0, r.1), at_parent-step remove_child v c t u path e ∙ rw k refl)

  -- A replacement succeeds exactly where a removal and then an addition at the same place do, with the
  -- same document, as RFC 6902 defines it.
  pub replace_iff :
      (v w v' : Value N) (path : List Text)
      → IsSorted v
      → (replace v path w ≡ ok v')
        ↔ ((r : Value N × Value N) × (remove v path ≡ ok r) × (add r.0 path w ≡ ok v'))
  unfolding replace remove add
  replace_iff v w v' [] m = (λ h. ((null, v), refl, h), λ (r, a, b). b)
  replace_iff v w v' (t ∷ path) m = (
    λ h.
        let (q, k, e) = bind-succeeds _ (at_parent (replace_child w) v t path) h in
        let (r, a) = replaced-removable v w t path q e in (r, a, rw (replaced v w t path r m a) h),
    λ (r, a, b). rw (← replaced v w t path r m a) b,
  )

  -- A move takes what stands at its source out of the document, so that an addition there would put it
  -- back, and adds it at its destination; where the destination does not end in `-`, it holds what stood
  -- at the source.
  pub move_value_lem :
      (v v' : Value N) (from path : List Text)
      → IsSorted v
      → move_value v from path ≡ ok v'
      → (x : Value N) × (without : Value N) × (value_at v from ≡ ok x)
        × (remove v from ≡ ok (without, x))
        × (add without from x ≡ ok v)
        × (add without path x ≡ ok v')
        × (IsPlace path → value_at v' path ≡ ok x)
  unfolding move_value
  move_value_lem v v' from path m h =
      let guard : (ltb (length from) (length path) && is_prefix from path) ≡ false = ground arith in
      let (r, k, e) = bind-succeeds _ (remove v from) (rw guard at h) in
      let (back, there) = add-remove v r from m e in
      (r.1, r.0, there, e, back, k, λ d. value_at-add r.0 r.1 v' path d k)

  -- After a copy its destination holds what its source held.
  pub copy_value_lem :
      (v v' : Value N) (from path : List Text)
      → IsPlace path
      → copy_value v from path ≡ ok v'
      → value_at v' path ≡ value_at v from
  unfolding copy_value
  copy_value_lem v v' from path d h =
      let (x, k, e) = bind-succeeds _ (value_at v from) h in value_at-add v x v' path d k ∙ sym e

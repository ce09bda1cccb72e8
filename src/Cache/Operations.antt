-- ===== src/Cache/Operations.antt =====
-- What every operation on the cache keeps, on success and on failure.
use linyaps_rust.Common.{
  ℕ, ◌≡◌, refl, ap, Option, none, some, [], ◌∷◌, ◌++◌, Bool, true, false, any, retain, position,
  get_elem?, set, insert_at, if◌then◌else◌, ok, err, inl, inr, Bool-cases, Option-cases, arith,
  position-some,
}
use linyaps_rust.Cache.{
  RepositoryCacheLayersItem, RepositoryCache, RepositoryCacheStore, CacheError, not_found, Fault,
  failed, panic, Write, written, not_written, Outcome, same_layer, same_layer_identity, with_layers,
  with_merged, write_to_disk, undo, replace_merged, add_layer, stays, upsert_layer, delete_at, mark,
  mark_at, at_position, delete_layer, set_layer_deleted, CacheOperation, merge, add, upsert, delete,
  set_deleted, apply_cache,
}
use linyaps_rust.Cache.Distinct.{
  Distinct, Distinct-push, Distinct-retain, Distinct-remove_at, Distinct-set, any-none_retained,
  insert_at-remove_at, set-set,
}

module _ {R : Type 0} where
  -- What a failed operation leaves and what a successful one writes, for an operation that writes `t`
  -- and undoes it by `f`.
  undo-written :
      (P : RepositoryCache R → Type 0) (w : Write R) (t : RepositoryCacheStore R)
      (f : RepositoryCacheStore R → RepositoryCacheStore R)
      → P t.data_now
      → ((file : Option (RepositoryCache R)) → P (f (record t { file = file })).data_now)
      → P (undo f (write_to_disk w t)).0.data_now
  unfolding write_to_disk
  undo-written P written t f h k = h
  undo-written P (not_written e file) t f h k = k file

  -- The layers that an operation starts from, found by `position`.
  found_layer :
      (P : Outcome R → Type 0) (item : RepositoryCacheLayersItem R) (s : RepositoryCacheStore R)
      (f : ℕ → Option (RepositoryCacheLayersItem R) → Outcome R)
      → P (s, err (failed not_found))
      → ((i : ℕ) (x : RepositoryCacheLayersItem R)
          → get_elem? s.data_now.layers i ≡ some x
          → P (f i (some x)))
      → P (at_position s f (position (λ current. same_layer current item) s.data_now.layers))
  found_layer P item s f h k =
      elim (Option-cases (position (λ current. same_layer current item) s.data_now.layers)) [
        | inl missing ↦ rw missing h
        | inr (i, found) ↦
            let (x, g, same) =
              position-some (λ current. same_layer current item) s.data_now.layers i found in
            rw (found, g) (k i x g)
      ]

  stays-same_layer :
      (item current : RepositoryCacheLayersItem R)
      → stays item current ≡ true
      → same_layer current item ≡ false
  unfolding stays same_layer same_layer_identity
  stays-same_layer item current h = ground arith

  write-layers :
      (w : Write R) (s : RepositoryCacheStore R) → (write_to_disk w s).0.data_now ≡ s.data_now
  unfolding write_to_disk
  write-layers written s = refl
  write-layers (not_written e f) s = refl

  same_right :
      (x : RepositoryCacheLayersItem R) (m : Option Bool) (y : RepositoryCacheLayersItem R)
      → same_layer y (mark x m) ≡ same_layer y x
  unfolding same_layer
  same_right x m y = refl

  same_left :
      (x : RepositoryCacheLayersItem R) (m : Option Bool) (y : RepositoryCacheLayersItem R)
      → same_layer (mark x m) y ≡ same_layer x y
  unfolding same_layer
  same_left x m y = refl

  -- No two layers of the cache are the same.
  abbrev pub AreDistinct : RepositoryCache R → Type 0
  AreDistinct d = Distinct same_layer d.layers

  -- No operation makes two layers of the cache the same, whether its write succeeds or fails.
  pub apply_cache-AreDistinct :
      (w : Write R) (o : CacheOperation R) (s : RepositoryCacheStore R)
      → AreDistinct s.data_now
      → AreDistinct (apply_cache w o s).0.data_now
  unfolding apply_cache replace_merged add_layer upsert_layer delete_layer set_layer_deleted
      delete_at mark_at
  apply_cache-AreDistinct w (merge merged) s d =
      undo-written AreDistinct w _ (λ t. with_merged t s.data_now.merged) d (λ f. d)
  apply_cache-AreDistinct w (add item) s d =
      elim (Bool-cases (any (λ current. same_layer current item) s.data_now.layers)) [
        | inl there ↦ rw there d
        | inr fresh ↦
            rw (fresh, write-layers w (with_layers s (s.data_now.layers ++ item ∷ [])))
              (Distinct-push same_layer s.data_now.layers item d fresh)
      ]
  apply_cache-AreDistinct w (upsert item) s d =
      undo-written AreDistinct w _ (λ t. with_layers t s.data_now.layers)
        (Distinct-push same_layer (retain (stays item) s.data_now.layers) item
          (Distinct-retain same_layer (stays item) s.data_now.layers d)
          (any-none_retained (λ y. same_layer y item) (stays item) s.data_now.layers
            (stays-same_layer item)))
        (λ f. d)
  apply_cache-AreDistinct w (delete item) s d =
      found_layer (λ r. AreDistinct r.0.data_now) item s (delete_at w s) d
        (λ i x g.
          undo-written AreDistinct w _ (λ t. with_layers t (insert_at t.data_now.layers i x))
            (Distinct-remove_at same_layer s.data_now.layers i d)
            (λ f. rw (insert_at-remove_at s.data_now.layers i x g) d))
  apply_cache-AreDistinct w (set_deleted item deleted) s d =
      let m : Option Bool = if deleted then some true else none in
      found_layer (λ r. AreDistinct r.0.data_now) item s (mark_at w m s) d
        (λ i x g.
          undo-written AreDistinct w _
            (λ t. with_layers t (set t.data_now.layers i (mark (mark x m) x.deleted)))
            (Distinct-set same_layer s.data_now.layers i x (mark x m) g (same_right x m)
              (same_left x m) d)
            (λ f. rw (set-set s.data_now.layers i x (mark x m) g) d))

  abbrev pub is_add : CacheOperation R → Bool
  is_add (add item) = true
  is_add o = false

  undo-outcome :
      (P : Outcome R → Type 0) (w : Write R) (t : RepositoryCacheStore R)
      (f : RepositoryCacheStore R → RepositoryCacheStore R)
      → P (record t { file = some t.data_now }, ok tt)
      → ((e : CacheError) (file : Option (RepositoryCache R))
          → P (f (record t { file = file }), err (failed e)))
      → P (undo f (write_to_disk w t))
  unfolding write_to_disk
  undo-outcome P written t f h k = h
  undo-outcome P (not_written e file) t f h k = k e file

  -- The result of an operation that leaves `before` on an error, without a panic, and writes the cache
  -- in memory on success.
  abbrev Undone : RepositoryCache R → Outcome R → Type 0
  Undone before (s, ok u) = s.file ≡ some s.data_now
  Undone before (s, err panic) = ⊥
  Undone before (s, err (failed e)) = s.data_now ≡ before

  Undone-apply_cache :
      (w : Write R) (o : CacheOperation R) (s : RepositoryCacheStore R)
      → is_add o ≡ false
      → Undone s.data_now (apply_cache w o s)
  unfolding apply_cache replace_merged upsert_layer delete_layer set_layer_deleted delete_at mark_at
  Undone-apply_cache w (merge merged) s n =
      undo-outcome (Undone s.data_now) w _ (λ t. with_merged t s.data_now.merged) refl (λ e f. refl)
  Undone-apply_cache w (add item) s n = absurd (ground arith)
  Undone-apply_cache w (upsert item) s n =
      undo-outcome (Undone s.data_now) w _ (λ t. with_layers t s.data_now.layers) refl (λ e f. refl)
  Undone-apply_cache w (delete item) s n =
      found_layer (Undone s.data_now) item s (delete_at w s) refl (λ i x g.
        undo-outcome (Undone s.data_now) w _ (λ t. with_layers t (insert_at t.data_now.layers i x))
          refl
          (λ e f.
            ap (λ l. record s.data_now { layers = l })
              (insert_at-remove_at s.data_now.layers i x g)))
  Undone-apply_cache w (set_deleted item deleted) s n =
      let m : Option Bool = if deleted then some true else none in
      found_layer (Undone s.data_now) item s (mark_at w m s) refl (λ i x g.
        undo-outcome (Undone s.data_now) w _
          (λ t. with_layers t (set t.data_now.layers i (mark (mark x m) x.deleted))) refl
          (λ e f.
            ap (λ l. record s.data_now { layers = l })
              (set-set s.data_now.layers i x (mark x m) g)))

  Undone-err :
      (before : RepositoryCache R) (r : Outcome R) (e : Fault)
      → Undone before r
      → r.1 ≡ err e
      → r.0.data_now ≡ before
  Undone-err before (s, ok u) e h k = absurd (ground arith)
  Undone-err before (s, err panic) e h k = absurd h
  Undone-err before (s, err (failed c)) e h k = h

  -- An operation other than `add_layer` that returns an error leaves the cache in memory as it was.
  pub apply_cache-error_unchanged :
      (w : Write R) (o : CacheOperation R) (s : RepositoryCacheStore R) (e : Fault)
      → is_add o ≡ false
      → (apply_cache w o s).1 ≡ err e
      → (apply_cache w o s).0.data_now ≡ s.data_now
  apply_cache-error_unchanged w o s e n h =
      Undone-err s.data_now (apply_cache w o s) e (Undone-apply_cache w o s n) h

  Undone-ok :
      (before : RepositoryCache R) (r : Outcome R)
      → Undone before r
      → r.1 ≡ ok tt
      → r.0.file ≡ some r.0.data_now
  Undone-ok before (s, ok u) h k = h
  Undone-ok before (s, err e) h k = absurd (ground arith)

  write-ok :
      (w : Write R) (t : RepositoryCacheStore R)
      → (write_to_disk w t).1 ≡ ok tt
      → (write_to_disk w t).0.file ≡ some (write_to_disk w t).0.data_now
  unfolding write_to_disk
  write-ok written t h = refl
  write-ok (not_written e f) t h = absurd (ground arith)

  add_layer-ok :
      (w : Write R) (item : RepositoryCacheLayersItem R) (s : RepositoryCacheStore R)
      → (add_layer w item s).1 ≡ ok tt
      → (add_layer w item s).0.file ≡ some (add_layer w item s).0.data_now
  unfolding add_layer
  add_layer-ok w item s =
      elim (Bool-cases (any (λ current. same_layer current item) s.data_now.layers)) [
        | inl there ↦ rw there (λ h. absurd (ground arith))
        | inr fresh ↦ rw fresh (write-ok w _)
      ]

  -- After an operation that succeeds the file holds the cache in memory.
  pub apply_cache-file :
      (w : Write R) (o : CacheOperation R) (s : RepositoryCacheStore R)
      → (apply_cache w o s).1 ≡ ok tt
      → (apply_cache w o s).0.file ≡ some (apply_cache w o s).0.data_now
  unfolding apply_cache
  apply_cache-file w (add item) s h = add_layer-ok w item s h
  apply_cache-file w (merge m) s h =
      Undone-ok s.data_now _ (Undone-apply_cache w (merge m) s refl) h
  apply_cache-file w (upsert x) s h =
      Undone-ok s.data_now _ (Undone-apply_cache w (upsert x) s refl) h
  apply_cache-file w (delete x) s h =
      Undone-ok s.data_now _ (Undone-apply_cache w (delete x) s refl) h
  apply_cache-file w (set_deleted x b) s h =
      Undone-ok s.data_now _ (Undone-apply_cache w (set_deleted x b) s refl) h

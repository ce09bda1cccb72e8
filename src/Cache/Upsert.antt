-- ===== src/Cache/Upsert.antt =====
-- `upsert_layer` replaces the layer of the same identity.
use linyaps_rust.Common.{
  ◌≡◌, refl, Text, text_eq_refl, List, [], ◌∷◌, ◌++◌, Bool, true, false, not, retain, inl, inr,
  Bool-cases, arith,
}
use linyaps_rust.Cache.{
  RepositoryCacheLayersItem, RepositoryCacheStore, written, same_first, marked_deleted,
  same_layer_identity, write_to_disk, stays, upsert_layer, existing_layers,
}

-- Of a list whose elements all fail `p` or `q`, and a last element that passes both, the last remains.
retain-last :
    {A : Type 0} (p q t : A → Bool) (xs : List A) (x : A)
    → ((y : A) → t y ≡ true → q y ≡ true → p y ≡ false)
    → q x ≡ true
    → p x ≡ true
    → retain p (retain q (retain t xs ++ x ∷ [])) ≡ x ∷ []
retain-last p q t [] x e h k = rw (h, k) refl
retain-last p q t (y ∷ xs) x e h k = elim (Bool-cases (t y)) [
  | inr left_out ↦ rw left_out (retain-last p q t xs x e h k)
  | inl kept ↦ elim (Bool-cases (q y)) [
    | inr hidden ↦ rw (kept, hidden) (retain-last p q t xs x e h k)
    | inl shown ↦ rw (kept, shown, e y kept shown) (retain-last p q t xs x e h k)
  ]
]

same_first_refl : (a : List Text) → same_first a a ≡ true
unfolding same_first
same_first_refl [] = refl
same_first_refl (t ∷ a) = text_eq_refl t

module _ {R : Type 0} where
  same_layer_identity_refl : (x : RepositoryCacheLayersItem R) → same_layer_identity x x ≡ true
  unfolding same_layer_identity
  same_layer_identity_refl x =
      rw
        (
          text_eq_refl x.info.channel,
          text_eq_refl x.info.id,
          text_eq_refl x.info.version,
          same_first_refl x.info.arch,
          text_eq_refl x.info.module_name,
        )
        refl

  stays-deleted :
      (item current : RepositoryCacheLayersItem R)
      → stays item current ≡ true
      → not (marked_deleted current.deleted) ≡ true
      → same_layer_identity current item ≡ false
  unfolding stays
  stays-deleted item current h k = ground arith

  -- After a successful `upsert_layer` of a layer that is not marked as deleted, it is the only existing
  -- layer of its identity, whatever the cache held before.
  pub upsert_layer-existing :
      (item : RepositoryCacheLayersItem R) (s : RepositoryCacheStore R)
      → marked_deleted item.deleted ≡ false
      → retain (λ x. same_layer_identity x item) (existing_layers (upsert_layer written item s).0)
        ≡ item ∷ []
  unfolding upsert_layer write_to_disk
  upsert_layer-existing item s h =
      retain-last (λ x. same_layer_identity x item) (λ x. not (marked_deleted x.deleted))
        (stays item) s.data_now.layers item (stays-deleted item) (rw h refl)
        (same_layer_identity_refl item)

-- ===== src/Local/Found.antt =====
-- A reference that `resolve_local` returns has a layer.
use linyaps_rust.Common.{
  ◌≡◌, refl, ap, sym, ◌∙◌, Text, codes, text_eq, text_eq_refl, text_eq_iff, Option, none, some,
  List, [], ◌∷◌, Bool, true, false, not, any, find, ok, ok_or, map_err, bind-succeeds, Every,
  Every-retain, Every-and, Option-cases, Every-Member, Member, find-any, inl, inr, Bool-cases,
  arith,
}
use linyaps_rust.Architecture.{
  Architecture, show_architecture, architecture_from, architecture_from_iff,
}
use linyaps_rust.Version.V2.{Semver}
use linyaps_rust.Version.Parse.{Version, parse_version, show_version}
use linyaps_rust.Reference.{Reference, FuzzyReference, new_reference}
use linyaps_rust.Cache.{
  PackageInfoV2, RepositoryCacheLayersItem, RepositoryCacheStore, marked_deleted,
}
use linyaps_rust.Local.{
  missing_architecture, architecture_error, version_error, first_of, first_is, is_main,
  is_candidate, deleted_is, is_layer_of, find_layer, layer_item, layer_item_with_deleted,
  module_or_binary, resolve_local, reference_from_info,
}
use linyaps_rust.Local.Resolve.{resolve_local-ok, Chosen-Every, ok_or-ok, map_err-ok}

-- The fields of a reference that a description gives.
pub record Describes {R : Type 0} (semver : Semver) (info : PackageInfoV2 R) (r : Reference)
    : Type 0 where
  pub same_channel : info.channel ≡ r.channel
  pub same_id : info.id ≡ r.id
  pub same_version : parse_version semver info.version ≡ ok r.version
  pub same_architecture : first_is info.arch r.architecture ≡ true

-- A layer that is stored in the form in which it is looked up: its mark is absent where it is not deleted,
-- and the text of its version is the print of the version that it parses to. An import stores the text of
-- the description as it is, so that not every layer is of this form.
pub record IsCanonical {R : Type 0} (semver : Semver) (x : RepositoryCacheLayersItem R)
    : Type 0 where
  pub mark_none : marked_deleted x.deleted ≡ false → x.deleted ≡ none
  pub version_printed :
      (v : Version) → parse_version semver x.info.version ≡ ok v → show_version v ≡ x.info.version

new_reference-fields :
    (channel id : Text) (version : Version) (architecture : Architecture) (r : Reference)
    → new_reference channel id version architecture ≡ ok r
    → (channel ≡ r.channel) × (id ≡ r.id) × (version ≡ r.version) × (architecture ≡ r.architecture)
new_reference-fields channel id version architecture r h = ground arith

first_shown :
    (arch : List Text) (a : Text) (architecture : Architecture)
    → first_of arch ≡ some a
    → architecture_from a ≡ ok architecture
    → first_is arch architecture ≡ true
unfolding first_is
first_shown [] a architecture f g = absurd (ground arith)
first_shown (b ∷ rest) a architecture f g =
    let e : b ≡ a = ground arith in
    (text_eq_iff b (show_architecture architecture)).1
      (e ∙ sym ((architecture_from_iff a architecture).0 g).1)

with_fields :
    {R : Type 0} (semver : Semver) (info : PackageInfoV2 R) (r : Reference) (v : Version)
    (a : Architecture)
    → (info.channel ≡ r.channel) × (info.id ≡ r.id) × (v ≡ r.version) × (a ≡ r.architecture)
    → parse_version semver info.version ≡ ok v
    → first_is info.arch a ≡ true
    → Describes semver info r
with_fields semver info r v a (c, i, e, f) p q = record {
  same_channel = c;
  same_id = i;
  same_version = p ∙ ap ok e;
  same_architecture = rw f at q;
}

unmarked : (d : Option Bool) → d ≡ none → deleted_is d false ≡ true
unmarked d e = rw e refl

is_candidate-main :
    {R : Type 0} (fuzzy : FuzzyReference) (x : RepositoryCacheLayersItem R)
    → is_candidate fuzzy x ≡ true
    → is_main x.info.module_name ≡ true
unfolding is_candidate
is_candidate-main fuzzy x h = ground arith

module _ {R : Type 0} (semver : Semver) where
  pub reference_from_info-ok :
      (info : PackageInfoV2 R) (r : Reference)
      → reference_from_info semver info ≡ ok r
      → Describes semver info r
  unfolding reference_from_info
  reference_from_info-ok info r h =
      let (a, k, e) = bind-succeeds _ (ok_or (first_of info.arch) missing_architecture) h in
      let (architecture, k1, e1) =
        bind-succeeds _ (map_err architecture_error (architecture_from a)) k in
      let (version, k2, e2) =
        bind-succeeds _ (map_err version_error (parse_version semver info.version)) k1 in
      with_fields semver info r version architecture
        (new_reference-fields info.channel info.id version architecture r (map_err-ok _ _ _ k2))
        (map_err-ok _ _ _ e2)
        (first_shown info.arch a architecture (ok_or-ok _ _ _ e) (map_err-ok _ _ _ e1))

  is_layer_of-chosen :
      (r : Reference) (x : RepositoryCacheLayersItem R)
      → IsCanonical semver x
      → marked_deleted x.deleted ≡ false
      → Describes semver x.info r
      → is_layer_of r false x.info.module_name x ≡ true
  unfolding is_layer_of
  is_layer_of-chosen r x c m d =
      rw
        (
          unmarked x.deleted (c.mark_none m),
          (text_eq_iff x.info.id r.id).1 d.same_id,
          (text_eq_iff x.info.channel r.channel).1 d.same_channel,
          (text_eq_iff x.info.version (show_version r.version)).1
              (sym (c.version_printed r.version d.same_version)),
          d.same_architecture,
          text_eq_refl x.info.module_name,
        )
        refl

  found-main :
      (s : RepositoryCacheStore R) (r : Reference) (name : Text)
      → is_main name ≡ true
      → any (is_layer_of r false name) s.data_now.layers ≡ true
      → (item : RepositoryCacheLayersItem R) × (layer_item s r (codes "binary") ≡ ok item)
  unfolding layer_item layer_item_with_deleted find_layer module_or_binary text_eq is_main
  found-main s r name m h =
      elim (Option-cases (find (is_layer_of r false (codes "binary")) s.data_now.layers)) [
        | inr (x, found) ↦ (x, rw found refl)
        | inl missing ↦ elim (Bool-cases (text_eq name (codes "binary"))) [
          | inl binary ↦
              let e = (text_eq_iff name (codes "binary")).0 binary in
              let (x, found) = find-any _ s.data_now.layers (rw e at h) in absurd (ground arith)
          | inr other ↦
              let e = (text_eq_iff name (codes "runtime")).0 (ground arith) in
              let (x, found) = find-any _ s.data_now.layers (rw e at h) in
              (x, rw (missing, found) refl)
        ]
      ]

  -- `layer_item` finds a layer of the reference that `resolve_local` returns, where in every layer the
  -- mark of deletion is absent unless it is set, and the text of the version is the print of the version
  -- that it parses to.
  pub layer_item-resolve_local :
      (s : RepositoryCacheStore R) (fuzzy : FuzzyReference) (semantic : Bool) (r : Reference)
      → Every (IsCanonical semver) s.data_now.layers
      → resolve_local semver s fuzzy semantic ≡ ok r
      → (item : RepositoryCacheLayersItem R) × (layer_item s r (codes "binary") ≡ ok item)
  layer_item-resolve_local s fuzzy semantic r all h =
      let c = resolve_local-ok semver s fuzzy semantic r h in
      let P : RepositoryCacheLayersItem R → Type 0 =
        λ x. IsCanonical semver x × Member s.data_now.layers x in
      let ((p, kept), candidate, parsed) =
        Chosen-Every semver (λ x. P x × (not (marked_deleted x.deleted) ≡ true)) s fuzzy semantic r
          c
          (Every-retain P (λ x. not (marked_deleted x.deleted)) s.data_now.layers
            (Every-and (IsCanonical semver) (Member s.data_now.layers) s.data_now.layers all
              (Every-Member s.data_now.layers))) in
      let x = c.best.1 in
      let here =
        is_layer_of-chosen r x p.0 (ground arith) (reference_from_info-ok x.info r c.gives) in
      found-main s r x.info.module_name (is_candidate-main fuzzy x candidate)
        (p.1 (is_layer_of r false x.info.module_name) here)

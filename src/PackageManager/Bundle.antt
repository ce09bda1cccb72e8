-- ===== src/PackageManager/Bundle.antt =====
-- The checks of the layers of a bundle before its import (apps/ll-package-manager/src/operations.rs,
-- `validate_uab_group` to `validate_uab_layout`).
use linyaps_rust.Common.{
  ◌==◌, ◌≡◌, refl, ap, sym, ◌∙◌, Text, codes, text_eq, text_eq_iff, Option, none, some, List, [],
  ◌∷◌, Bool, true, false, not, ◌&&◌, ◌||◌, any, retain, if◌then◌else◌, Result, ok, err, ok_or,
  map_err, ensure, ◌>>=◌, ◌>>◌, bind-succeeds, Every, Every-map, inl, inr, Bool-cases, arith,
}
use linyaps_rust.Architecture.{Architecture, architecture_from}
use linyaps_rust.Version.V2.{Semver}
use linyaps_rust.Reference.{tag}
use linyaps_rust.Reference.Fuzzy.{tag_iff}
use linyaps_rust.Local.Resolve.{map_err-ok}
use linyaps_rust.Cache.{PackageInfoV2, RepositoryCacheStore}
use linyaps_rust.Local.{first_of, is_main, layer_item, reference_from_info}
use linyaps_rust.PackageManager.{
  OperationError, operation_error, text, of_architecture, of_repository, install_failed,
  install_arch_mismatch, install_module_requires_app,
}

pub record UabLayer (R : Type 0) : Type 0 where
  pub info : PackageInfoV2 R
  pub minified : Bool

abbrev pub install_error : Text → OperationError
install_error s = operation_error install_failed (text s)

abbrev pub with_text : Result Text Architecture → Result OperationError Architecture
with_text r = map_err (λ s. operation_error install_failed (of_architecture s)) r

abbrev pub all_empty : {A : Type 0} → List A → Bool
all_empty [] = true
all_empty (x ∷ xs) = false

abbrev pub is_found : {E A : Type 0} → Result E A → Bool
is_found (ok a) = true
is_found (err e) = false

module _ {R : Type 0} where
  unfoldable pub validate_layer :
      Architecture → UabLayer R → UabLayer R → Result OperationError (Unit {0})
  unfolding architecture_from text_eq
  validate_layer host first layer = do
    s ← ok_or (first_of layer.info.arch) (install_error (codes "UAB layer has no architecture"))
    architecture ← with_text (architecture_from s)
    ensure (tag architecture == tag host)
        (operation_error install_arch_mismatch (of_architecture s))
    ensure (text_eq layer.info.id first.info.id)
        (install_error (codes "more than one layers with different id"))
    ensure (text_eq layer.info.version first.info.version)
        (install_error (codes "modules have different version"))

  unfoldable pub validate_layers :
      Architecture → UabLayer R → List (UabLayer R) → Result OperationError (Unit {0})
  unfolding validate_layer
  validate_layers host first [] = ok tt
  validate_layers host first (x ∷ xs) = validate_layer host first x >> validate_layers host first xs

  unfoldable pub validate_uab_group :
      Result Text Architecture → List (UabLayer R) → Result OperationError (Unit {0})
  unfolding validate_layers
  validate_uab_group host [] = ok tt
  validate_uab_group host (first ∷ rest) = do
    a ← with_text host
    validate_layers a first (first ∷ rest)

  unfoldable pub is_app_layer : UabLayer R → Bool
  unfolding text_eq
  is_app_layer x = text_eq x.info.kind (codes "app")

  unfoldable pub validate_uab_layout :
      Result Text Architecture
      → List (UabLayer R)
      → Result OperationError (List (UabLayer R) × List (UabLayer R))
  unfolding validate_uab_group is_app_layer
  validate_uab_layout host layers = do
    let apps = retain is_app_layer layers
    let others = retain (λ x. not (is_app_layer x)) layers
    ensure (not (all_empty apps && all_empty others)) (install_error (codes "no layers found"))
    ensure (not (not (all_empty apps) && not (all_empty others)))
        (install_error (codes "layers from multiple packages found"))
    validate_uab_group host apps
    validate_uab_group host others
    ok (apps, others)

  unfoldable pub validate_uab_extra_modules :
      Semver → RepositoryCacheStore R → List (UabLayer R) → Result OperationError (Unit {0})
  unfolding is_main layer_item reference_from_info
  validate_uab_extra_modules semver s [] = ok tt
  validate_uab_extra_modules semver s (first ∷ rest) =
      if any (λ (x : UabLayer R). is_main x.info.module_name) (first ∷ rest) then ok tt else (do
        r ←
            map_err (λ e. operation_error install_failed (of_repository e))
              (reference_from_info semver first.info)
        ensure
            (is_found (layer_item s r (codes "binary"))
              || is_found (layer_item s r (codes "runtime")))
            (operation_error install_module_requires_app
              (text (codes "no matched binary module found"))))

  -- A layer that can be imported on the host beside the first one of the bundle.
  pub record FitsBundle (host : Architecture) (first x : UabLayer R) : Type 0 where
    pub runs_here : (s : Text) × (first_of x.info.arch ≡ some s) × (architecture_from s ≡ ok host)
    pub same_id : x.info.id ≡ first.info.id
    pub same_version : x.info.version ≡ first.info.version
    pub same_kind : is_app_layer x ≡ is_app_layer first

ensured :
    {E A : Type 0} (b : Bool) (e : E) (m : Result E A) (a : A)
    → (ensure b e >> m) ≡ ok a
    → (b ≡ true) × (m ≡ ok a)
ensured true e m a h = (refl, h)
ensured false e m a h = absurd (ground arith)

ensured_last : {E : Type 0} (b : Bool) (e : E) → ensure b e ≡ ok tt → b ≡ true
ensured_last true e h = refl
ensured_last false e h = absurd (ground arith)

then_ok :
    {E A : Type 0} (u : Result E (Unit {0})) (m : Result E A) (a : A)
    → (u >> m) ≡ ok a
    → (u ≡ ok tt) × (m ≡ ok a)
then_ok (ok tt) m a h = (refl, h)
then_ok (err e) m a h = absurd (ground arith)

retain-all :
    {A : Type 0} (p q : A → Bool) (xs : List A)
    → ((x : A) → q x ≡ not (p x))
    → all_empty (retain q xs) ≡ true
    → (retain p xs ≡ xs) × Every (λ x. p x ≡ true) xs
retain-all p q [] f h = (refl, tt)
retain-all p q (x ∷ xs) f h = elim (Bool-cases (p x)) [
  | inl e ↦
      let n : q x ≡ false = rw (f x, e) refl in
      let (same, every) = retain-all p q xs f (rw n at h) in
      (rw e (ap (λ l. x ∷ l) same), (e, every))
  | inr e ↦ let n : q x ≡ true = rw (f x, e) refl in absurd (let k = rw n at h in ground arith)
]

some_first : (o : Option Text) (e : OperationError) (s : Text) → ok_or o e ≡ ok s → o ≡ some s
some_first none e s h = absurd (ground arith)
some_first (some t) e s h = ground arith

twice : (b : Bool) → b ≡ not (not b)
twice b = ground arith

not-true : (b : Bool) → not b ≡ true → b ≡ false
not-true b h = ground arith

module _ {R : Type 0} where
  validate_layer-ok :
      (host : Architecture) (first x : UabLayer R)
      → validate_layer host first x ≡ ok tt
      → is_app_layer x ≡ is_app_layer first
      → FitsBundle host first x
  unfolding validate_layer
  validate_layer-ok host first x h kind =
      let (s, k, e) = bind-succeeds _ (ok_or (first_of x.info.arch) _) h in
      let (a, l, f) = bind-succeeds _ (with_text (architecture_from s)) k in
      let (t, m) = ensured (tag a == tag host) _ _ tt l in
      let (i, n) = ensured (text_eq x.info.id first.info.id) _ _ tt m in
      let v = ensured_last (text_eq x.info.version first.info.version) _ n in
      record {
        runs_here = (s, some_first _ _ s e, map_err-ok _ _ _ f ∙ ap ok ((tag_iff a host).0 t));
        same_id = (text_eq_iff x.info.id first.info.id).0 i;
        same_version = (text_eq_iff x.info.version first.info.version).0 v;
        same_kind = kind;
      }

  validate_layers-ok :
      (host : Architecture) (first : UabLayer R) (xs : List (UabLayer R))
      → validate_layers host first xs ≡ ok tt
      → Every (λ x. is_app_layer x ≡ is_app_layer first) xs
      → Every (FitsBundle host first) xs
  unfolding validate_layers
  validate_layers-ok host first [] h k = tt
  validate_layers-ok host first (x ∷ xs) h k =
      let (a, b) = then_ok (validate_layer host first x) _ tt h in
      (validate_layer-ok host first x a k.0, validate_layers-ok host first xs b k.1)

  validate_uab_group-ok :
      (host : Result Text Architecture) (first : UabLayer R) (rest : List (UabLayer R))
      → validate_uab_group host (first ∷ rest) ≡ ok tt
      → Every (λ x. is_app_layer x ≡ is_app_layer first) (first ∷ rest)
      → (a : Architecture) × (host ≡ ok a) × Every (FitsBundle a first) (first ∷ rest)
  unfolding validate_uab_group
  validate_uab_group-ok host first rest h k =
      let (a, l, e) = bind-succeeds _ (with_text host) h in
      (a, map_err-ok _ _ _ e, validate_layers-ok a first (first ∷ rest) l k)

  -- A bundle with a layer that passes the check has layers of one package only: each is of the host's
  -- architecture, has the identifier and the version of the first one, and is an application exactly where
  -- the first one is.
  pub validate_uab_layout-FitsBundle :
      (host : Result Text Architecture) (first : UabLayer R) (rest apps others : List (UabLayer R))
      → validate_uab_layout host (first ∷ rest) ≡ ok (apps, others)
      → (a : Architecture) × (host ≡ ok a) × Every (FitsBundle a first) (first ∷ rest)
  unfolding validate_uab_layout
  validate_uab_layout-FitsBundle host first rest apps others h =
      let all = first ∷ rest in
      let is_other : UabLayer R → Bool = λ x. not (is_app_layer x) in
      let no_app : Bool = all_empty (retain is_app_layer all) in
      let no_other : Bool = all_empty (retain is_other all) in
      let (some_layer, h1) = ensured (not (no_app && no_other)) _ _ (apps, others) h in
      let (one_kind, h2) = ensured (not (not no_app && not no_other)) _ _ (apps, others) h1 in
      let (g1, h3) = then_ok (validate_uab_group host (retain is_app_layer all)) _ _ h2 in
      let (g2, h4) = then_ok (validate_uab_group host (retain is_other all)) _ _ h3 in
      elim (Bool-cases (is_app_layer first)) [
        | inl e ↦
            let none_other : all_empty (retain is_other all) ≡ true =
              (let k = rw e at one_kind in rw e (ground arith)) in
            let (same, every) = retain-all is_app_layer is_other all (λ x. refl) none_other in
            validate_uab_group-ok host first rest (rw same at g1)
              (Every-map _ _ all (λ x o. o ∙ sym e) every)
        | inr e ↦
            let none_app : all_empty (retain is_app_layer all) ≡ true =
              (let k = rw e at one_kind in rw e (ground arith)) in
            let (same, every) =
              retain-all is_other is_app_layer all (λ x. twice (is_app_layer x)) none_app in
            validate_uab_group-ok host first rest (rw same at g2)
              (Every-map _ _ all (λ x o. not-true (is_app_layer x) o ∙ sym e) every)
      ]

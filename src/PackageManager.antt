-- ===== src/PackageManager.antt =====
-- What the package manager decides (apps/ll-package-manager/src/operations.rs): its errors, the checks of
-- the layers of a bundle, the modules that an install or an update takes, and the pruning of packages
-- that nothing uses.
pub mod Bundle
pub mod Prune
pub mod Count
pub mod Kept
pub mod Pruned
pub mod Needed
pub mod Removal
pub mod Entries
pub mod Safe
pub mod Tests
use linyaps_rust.Common.{
  ℕ, Text, codes, text_eq, Option, none, some, List, [], ◌∷◌, ◌++◌, Bool, true, false, not, ◌&&◌,
  ◌||◌, any, if◌then◌else◌, Result, ok, err, map_err, ◌>>=◌, is_empty, ℤ, pos,
}
use linyaps_rust.Architecture.{Architecture}
use linyaps_rust.Reference.{FuzzyReference, ReferenceError, fuzzy_from}
use linyaps_rust.Local.{RepositoryError}

-- What a message is made of: a text of the code's own, or another error.
pub data Reason : Type 0 where
  text : Text → Reason
  of_repository : RepositoryError → Reason
  of_reference : ReferenceError → Reason
  of_architecture : Text → Reason

pub record OperationError : Type 0 where
  pub code : ℤ
  pub message : Reason

abbrev pub operation_error : ℤ → Reason → OperationError
operation_error code message = record { code = code; message = message }

abbrev pub install_failed : ℤ
install_failed = pos 2001

abbrev pub install_module_requires_app : ℤ
install_module_requires_app = pos 2006

abbrev pub install_arch_mismatch : ℤ
install_arch_mismatch = pos 2008

-- `Result::ok`.
abbrev pub to_option {ℓ κ} : {E : Type ℓ} {A : Type κ} → Result E A → Option A
to_option (ok a) = some a
to_option (err e) = none

-- `(!s.is_empty()).then(|| s)`.
abbrev pub non_empty : Text → Option Text
non_empty s = if is_empty s then none else some s

-- The channel of a request that names none.
abbrev pub or_channel : Option Text → Text → Option Text
or_channel none channel = non_empty channel
or_channel (some c) channel = some c

abbrev pub with_host :
    ℤ
    → FuzzyReference
    → Result Text Architecture
    → Option Architecture
    → Result OperationError FuzzyReference
with_host code fuzzy host (some a) = ok fuzzy
with_host code fuzzy (ok a) none = ok (record fuzzy { architecture = some a })
with_host code fuzzy (err e) none = err (operation_error code (of_architecture e))

-- `dependency_fuzzy`; `host` is what `Architecture::current` gives.
unfoldable pub dependency_fuzzy :
    Result Text Architecture → Text → Text → ℤ → Result OperationError FuzzyReference
unfolding fuzzy_from
dependency_fuzzy host raw channel code = do
  parsed ← map_err (λ e. operation_error code (of_reference e)) (fuzzy_from raw)
  with_host code (record parsed { channel = or_channel parsed.channel channel }) host
      parsed.architecture

unfoldable pub contains : List Text → Text → Bool
unfolding text_eq
contains xs s = any (λ x. text_eq x s) xs

-- The module that is taken for a wanted one: itself, or the other name of the main module.
unfoldable pub taken_for : Text → Text → List Text → Text → Option Text
unfolding contains
taken_for main other remote name =
    if contains remote name
    then some name
    else (if text_eq name main && contains remote other then some other else none)

unfoldable pub push_new : List Text → Option Text → List Text
unfolding contains
push_new modules none = modules
push_new modules (some name) = if contains modules name then modules else modules ++ name ∷ []

unfoldable pub take_modules : Text → Text → List Text → List Text → List Text → List Text
unfolding taken_for push_new
take_modules main other remote modules [] = modules
take_modules main other remote modules (name ∷ names) =
    take_modules main other remote (push_new modules (taken_for main other remote name)) names

unfoldable pub available_install_modules : List Text → List Text → List Text
unfolding take_modules
available_install_modules requested remote =
    take_modules (codes "binary") (codes "runtime") remote [] requested

unfoldable pub available_update_modules : List Text → List Text → List Text
unfolding take_modules
available_update_modules installed remote =
    take_modules (codes "runtime") (codes "binary") remote [] installed

-- ===== src/Reference.antt =====
-- References (crates/linyaps-core/src/reference.rs), exact and fuzzy.
pub mod RoundTrip
pub mod Fuzzy
pub mod Tests
use linyaps_rust.Common.{
  ℕ, ◌≡◌, refl, ◌==◌, leb, Text, codes, text_eq, is_empty, split, split_once, Option, none, some,
  List, [], ◌∷◌, ◌++◌, Bool, true, false, not, ◌&&◌, ◌||◌, any, length, if◌then◌else◌, Result, ok,
  err, ensure, ◌>>=◌, ◌>>◌, map_err, get_elem?,
}
use linyaps_rust.Architecture.{
  Architecture, unknown_architecture, x86_64, arm64, loong_arch64, loong64, sw64, risc_v64, mips64,
  show_architecture, architecture_from,
}
use linyaps_rust.Version.{VersionError}
use linyaps_rust.Version.V2.{Semver}
use linyaps_rust.Version.Parse.{Version, parse_version, show_version, semantic_match}

pub record Reference : Type 0 where
  pub channel : Text
  pub id : Text
  pub version : Version
  pub architecture : Architecture

pub record FuzzyReference : Type 0 where
  pub channel : Option Text
  pub id : Text
  pub version : Option Text
  pub architecture : Option Architecture

pub data ReferenceError : Type 0 where
  invalid_reference : Text → ReferenceError
  version_error : VersionError → ReferenceError
  architecture_error : Text → ReferenceError

-- `Reference::new`.
abbrev pub new_reference : Text → Text → Version → Architecture → Result ReferenceError Reference
new_reference channel id version architecture =
    if is_empty channel || is_empty id
    then err (invalid_reference (channel ++ (b':' ∷ id)))
    else ok (record { channel = channel; id = id; version = version; architecture = architecture })

-- The derived equality of architectures compares their constructors.
abbrev pub tag : Architecture → ℕ
tag unknown_architecture = 0
tag x86_64 = 1
tag arm64 = 2
tag loong_arch64 = 3
tag loong64 = 4
tag sw64 = 5
tag risc_v64 = 6
tag mips64 = 7

-- `is_none_or`.
abbrev pub is_none_or {ℓ} : {A : Type ℓ} → Option A → (A → Bool) → Bool
is_none_or none p = true
is_none_or (some a) p = p a

-- `FuzzyReference::new`.
abbrev pub new_fuzzy :
    Option Text → Text → Option Text → Option Architecture → Result ReferenceError FuzzyReference
new_fuzzy channel id version architecture =
    if is_empty id || not (is_none_or channel (λ c. not (is_empty c)))
    then err (invalid_reference id)
    else ok (record { channel = channel; id = id; version = version; architecture = architecture })

-- A text that is neither empty nor "unknown".
unfoldable pub given : Text → Option Text
unfolding text_eq
given s = if not (text_eq s (codes "unknown")) && not (is_empty s) then some s else none

unfoldable pub given_part : Option Text → Option Text
unfolding given
given_part none = none
given_part (some s) = given s

-- The optional channel and the rest of a fuzzy reference.
unfoldable pub channel_and_rest : Text → Option (Text × Text) → Option Text × Text
unfolding given
channel_and_rest raw none = (none, raw)
channel_and_rest raw (some (channel, rest)) = (given channel, rest)

abbrev pub given_architecture :
    Result Text Architecture → Result ReferenceError (Option Architecture)
given_architecture (ok a) = ok (some a)
given_architecture (err e) = err (architecture_error e)

unfoldable pub optional_architecture : Option Text → Result ReferenceError (Option Architecture)
unfolding architecture_from
optional_architecture none = ok none
optional_architecture (some s) = given_architecture (architecture_from s)

abbrev pub fuzzy_from_parts : Text → Option Text → List Text → Result ReferenceError FuzzyReference
fuzzy_from_parts raw channel [] = err (invalid_reference raw)
fuzzy_from_parts raw channel (id ∷ parts) =
    if not (leb (length parts) 2) || is_empty id then err (invalid_reference raw) else (do
      architecture ← optional_architecture (given_part (get_elem? parts 1))
      new_fuzzy channel id (given_part (get_elem? parts 0)) architecture)

unfoldable pub fuzzy_from : Text → Result ReferenceError FuzzyReference
unfolding split split_once
fuzzy_from raw =
    let (channel, rest) = channel_and_rest raw (split_once b':' raw) in
    fuzzy_from_parts raw channel (split b'/' rest)

abbrev pub or_unknown : Option Text → Text
or_unknown none = codes "unknown"
or_unknown (some s) = s

abbrev pub shown_architecture : Option Architecture → Text
shown_architecture none = codes "unknown"
shown_architecture (some a) = show_architecture a

unfoldable pub show_fuzzy : FuzzyReference → Text
show_fuzzy f =
    or_unknown f.channel
    ++ (b':'
        ∷ (f.id ++ (b'/' ∷ (or_unknown f.version ++ (b'/' ∷ shown_architecture f.architecture)))))

unfoldable pub show_reference : Reference → Text
unfolding show_version
show_reference r =
    r.channel
    ++ (b':'
        ∷ (r.id ++ (b'/' ∷ (show_version r.version ++ (b'/' ∷ show_architecture r.architecture)))))

module _ (semver : Semver) where
  unfoldable pub reference_matches : Reference → FuzzyReference → Bool
  unfolding semantic_match text_eq
  reference_matches r fuzzy =
      text_eq r.id fuzzy.id
      && is_none_or fuzzy.channel (λ c. text_eq c r.channel)
      && is_none_or fuzzy.architecture (λ a. tag a == tag r.architecture)
      && is_none_or fuzzy.version (λ v. semantic_match semver r.version v)

  -- The three parts behind the channel; the arguments of `new` are computed in order.
  abbrev pub reference_from_parts : Text → Text → List Text → Result ReferenceError Reference
  unfolding parse_version architecture_from
  reference_from_parts raw channel (id ∷ v ∷ a ∷ []) =
      if is_empty id || is_empty v || is_empty a then err (invalid_reference raw) else (do
        version ← map_err version_error (parse_version semver v)
        architecture ← map_err architecture_error (architecture_from a)
        new_reference channel id version architecture)
  reference_from_parts raw channel _ = err (invalid_reference raw)

  abbrev pub reference_from_split : Text → Option (Text × Text) → Result ReferenceError Reference
  unfolding split reference_from_parts
  reference_from_split raw none = err (invalid_reference raw)
  reference_from_split raw (some (channel, rest)) =
      reference_from_parts raw channel (split b'/' rest)

  unfoldable pub reference_from : Text → Result ReferenceError Reference
  unfolding split_once reference_from_split
  reference_from raw = reference_from_split raw (split_once b':' raw)

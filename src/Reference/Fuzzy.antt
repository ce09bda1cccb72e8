-- ===== src/Reference/Fuzzy.antt =====
-- Fuzzy references: printing and parsing, and what they match.
use linyaps_rust.Common.{
  ℕ, ◌≡◌, refl, ◌==◌, Text, codes, text_eq, text_eq_iff, is_empty, split_once-append, Lacks, Option,
  none, some, Bool, true, false, not, ◌&&◌, ok, arith, ◌↔◌,
}
use linyaps_rust.Architecture.{
  Architecture, unknown_architecture, x86_64, arm64, loong_arch64, loong64, sw64, risc_v64, mips64,
  show_architecture, architecture_from_iff, is_known,
}
use linyaps_rust.Version.V2.{Semver}
use linyaps_rust.Version.Parse.{semantic_match}
use linyaps_rust.Reference.{
  Reference, FuzzyReference, given, given_part, or_unknown, shown_architecture,
  optional_architecture, channel_and_rest, fuzzy_from, show_fuzzy, reference_matches, tag,
  is_none_or,
}
use linyaps_rust.Reference.RoundTrip.{architecture-Lacks, split_parts}

-- A field that can stand in a text: where it is given, it is neither empty nor "unknown", and lacks
-- the separator behind it.
abbrev pub CanStand : ℕ → Option Text → Type 0
CanStand sep none = Unit {0}
CanStand sep (some s) = Lacks sep s × (is_empty s ≡ false) × (text_eq s (codes "unknown") ≡ false)

abbrev pub KnownIfGiven : Option Architecture → Type 0
KnownIfGiven none = Unit {0}
KnownIfGiven (some a) = is_known a ≡ true

given-or_unknown : (sep : ℕ) (o : Option Text) → CanStand sep o → given (or_unknown o) ≡ o
unfolding given text_eq
given-or_unknown sep none h = refl
given-or_unknown sep (some s) h = rw (h.1, h.2) refl

or_unknown-Lacks :
    (sep : ℕ) (o : Option Text)
    → Lacks sep (codes "unknown")
    → CanStand sep o
    → Lacks sep (or_unknown o)
or_unknown-Lacks sep none u h = u
or_unknown-Lacks sep (some s) u h = h.0

shown_architecture-Lacks : (o : Option Architecture) → Lacks b'/' (shown_architecture o)
shown_architecture-Lacks none = ground arith
shown_architecture-Lacks (some a) = architecture-Lacks a

given-show_architecture :
    (a : Architecture)
    → is_known a ≡ true
    → given (show_architecture a) ≡ some (show_architecture a)
unfolding given text_eq
given-show_architecture unknown_architecture k = absurd (ground arith)
given-show_architecture x86_64 k = refl
given-show_architecture arm64 k = refl
given-show_architecture loong_arch64 k = refl
given-show_architecture loong64 k = refl
given-show_architecture sw64 k = refl
given-show_architecture risc_v64 k = refl
given-show_architecture mips64 k = refl

optional_architecture-show :
    (o : Option Architecture)
    → KnownIfGiven o
    → optional_architecture (given (shown_architecture o)) ≡ ok o
unfolding optional_architecture given text_eq
optional_architecture-show none k = refl
optional_architecture-show (some a) k =
    rw (given-show_architecture a k, (architecture_from_iff (show_architecture a) a).1 (k, refl))
      refl

channel_passes : (o : Option Text) → CanStand b':' o → is_none_or o (λ c. not (is_empty c)) ≡ true
channel_passes none h = refl
channel_passes (some s) h = rw (h.1) refl

pub record IsPrintableFuzzy (f : FuzzyReference) : Type 0 where
  pub channel_stands : CanStand b':' f.channel
  pub id_lacks : Lacks b'/' f.id
  pub id_nonempty : is_empty f.id ≡ false
  pub version_stands : CanStand b'/' f.version
  pub architecture_known : KnownIfGiven f.architecture

-- A fuzzy reference is parsed from its print, where its given fields can stand in a text; a field that
-- is not given prints as "unknown" and is not given again.
pub fuzzy_from-show_fuzzy :
    (f : FuzzyReference) → IsPrintableFuzzy f → fuzzy_from (show_fuzzy f) ≡ ok f
unfolding fuzzy_from show_fuzzy channel_and_rest given_part
fuzzy_from-show_fuzzy f p =
    rw
      (split_once-append b':' (or_unknown f.channel) _
        (or_unknown-Lacks b':' f.channel (ground arith) p.channel_stands))
      (rw
        (split_parts f.id (or_unknown f.version) (shown_architecture f.architecture) p.id_lacks
          (or_unknown-Lacks b'/' f.version (ground arith) p.version_stands)
          (shown_architecture-Lacks f.architecture))
        (rw
          (
            given-or_unknown b':' f.channel p.channel_stands,
            given-or_unknown b'/' f.version p.version_stands,
            p.id_nonempty,
            optional_architecture-show f.architecture p.architecture_known,
            channel_passes f.channel p.channel_stands,
          )
          refl))

pub tag_iff : (a b : Architecture) → (tag a == tag b ≡ true) ↔ (a ≡ b)
tag_iff a b = (λ h. ground arith, λ h. ground arith)

abbrev pub IfGiven {ℓ} : {A : Type ℓ} → Option A → (A → Type 0) → Type 0
IfGiven none P = Unit {0}
IfGiven (some a) P = P a

is_none_or_iff {ℓ} :
    {A : Type ℓ} {P : A → Type 0} (o : Option A) (p : A → Bool)
    → ((a : A) → (p a ≡ true) ↔ P a)
    → (is_none_or o p ≡ true) ↔ IfGiven o P
is_none_or_iff none p e = (λ h. tt, λ h. refl)
is_none_or_iff (some a) p e = e a

and_iff : {P Q : Type 0} (a b : Bool) → (a ≡ true) ↔ P → (b ≡ true) ↔ Q → (a && b ≡ true) ↔ (P × Q)
and_iff true b f g = (λ h. (f.0 refl, g.0 h), λ (x, y). g.1 y)
and_iff false b f g = (λ h. absurd (ground arith), λ (x, y). f.1 x)

-- A reference matches a fuzzy one exactly when the identifiers are the same, the given channel and the
-- given architecture are those of the reference, and its version matches the given version.
pub reference_matches_iff :
    (semver : Semver) (r : Reference) (fuzzy : FuzzyReference)
    → (reference_matches semver r fuzzy ≡ true) ↔ (
        (r.id ≡ fuzzy.id)
        × IfGiven fuzzy.channel (λ c. c ≡ r.channel)
        × IfGiven fuzzy.architecture (λ a. a ≡ r.architecture)
        × IfGiven fuzzy.version (λ v. semantic_match semver r.version v ≡ true))
unfolding reference_matches
reference_matches_iff semver r fuzzy =
    let all =
      and_iff _ _
        (and_iff _ _
          (and_iff _ _ (text_eq_iff r.id fuzzy.id)
            (is_none_or_iff fuzzy.channel _ (λ c. text_eq_iff c r.channel)))
          (is_none_or_iff fuzzy.architecture _ (λ a. tag_iff a r.architecture)))
        (is_none_or_iff fuzzy.version (semantic_match semver r.version) (λ v. (λ h. h, λ h. h))) in
    (
      λ h. let (abc, d) = all.0 h in let (ab, c) = abc in (ab.0, ab.1, c, d),
      λ (a, b, c, d). all.1 (((a, b), c), d),
    )

-- ===== src/Reference/RoundTrip.antt =====
-- Printing and parsing of references.
use linyaps_rust.Common.{
  ◌≡◌, refl, ap, ◌∙◌, Text, is_empty, split, split_once, split-join, join, join-split,
  split_once-append, split_once-some, Lacks, List, [], ◌∷◌, ◌++◌, true, false, ◌||◌, Result, ok,
  err, map_err, inl, inr, Option-cases, arith, bind-succeeds,
}
use linyaps_rust.Architecture.{
  Architecture, unknown_architecture, x86_64, arm64, loong_arch64, loong64, sw64, risc_v64, mips64,
  show_architecture, architecture_from, architecture_from_iff, is_known,
}
use linyaps_rust.Version.V2.{Semver}
use linyaps_rust.Version.Parse.{Version, parse_version, show_version}
use linyaps_rust.Reference.{
  Reference, version_error, architecture_error, new_reference, show_reference, reference_from,
  reference_from_split, reference_from_parts,
}

pub architecture-Lacks : (a : Architecture) → Lacks b'/' (show_architecture a)
architecture-Lacks unknown_architecture = ground arith
architecture-Lacks x86_64 = ground arith
architecture-Lacks arm64 = ground arith
architecture-Lacks loong_arch64 = ground arith
architecture-Lacks loong64 = ground arith
architecture-Lacks sw64 = ground arith
architecture-Lacks risc_v64 = ground arith
architecture-Lacks mips64 = ground arith

architecture_nonempty : (a : Architecture) → is_empty (show_architecture a) ≡ false
architecture_nonempty a = ground arith

-- The three parts between slashes.
pub split_parts :
    (id v a : Text)
    → Lacks b'/' id
    → Lacks b'/' v
    → Lacks b'/' a
    → split b'/' (id ++ (b'/' ∷ (v ++ (b'/' ∷ a)))) ≡ id ∷ v ∷ a ∷ []
unfolding join
split_parts id v a h k l = split-join b'/' id (v ∷ a ∷ []) (h, (k, (l, tt)))

-- A reference whose parts can stand in a text: the channel without a colon, the id and the version
-- without a slash, none of them empty, the architecture known and the version parsed from its print.
pub record IsPrintable (semver : Semver) (r : Reference) : Type 0 where
  pub channel_lacks : Lacks b':' r.channel
  pub channel_nonempty : is_empty r.channel ≡ false
  pub id_lacks : Lacks b'/' r.id
  pub id_nonempty : is_empty r.id ≡ false
  pub version_lacks : Lacks b'/' (show_version r.version)
  pub version_nonempty : is_empty (show_version r.version) ≡ false
  pub version_parses : parse_version semver (show_version r.version) ≡ ok r.version
  pub known : is_known r.architecture ≡ true

-- A reference is parsed from its print where the channel has no colon, the identifier and the print of
-- the version have no slash, none of them is empty, the architecture is known and the version is
-- parsed from its own print.
pub reference_from-show_reference :
    (semver : Semver) (r : Reference)
    → IsPrintable semver r
    → reference_from semver (show_reference r) ≡ ok r
unfolding reference_from reference_from_split reference_from_parts show_reference
reference_from-show_reference semver r p = rw (split_once-append b':' r.channel _ p.channel_lacks) (
    rw
      (split_parts r.id (show_version r.version) (show_architecture r.architecture) p.id_lacks
        p.version_lacks (architecture-Lacks r.architecture))
      (rw
        (
          p.id_nonempty,
          p.version_nonempty,
          architecture_nonempty r.architecture,
          p.version_parses,
          (architecture_from_iff _ r.architecture).1 (p.known, refl),
          p.channel_nonempty,
        )
        refl))

map_err-ok : {E F A : Type 0} (f : E → F) (m : Result E A) (a : A) → map_err f m ≡ ok a → m ≡ ok a
map_err-ok f (ok b) a h = ground arith
map_err-ok f (err e) a h = absurd (ground arith)

new_reference-ok :
    (channel id : Text) (version : Version) (architecture : Architecture) (r : Reference)
    → new_reference channel id version architecture ≡ ok r
    → (is_empty channel ≡ false)
      × (is_empty id ≡ false)
      × (record { channel = channel; id = id; version = version; architecture = architecture } ≡ r)
new_reference-ok channel id version architecture r h = (ground arith, ground arith, ground arith)

-- What an accepted text consists of: the version is the part that parses to it, and all else is the
-- print of the field.
pub record Parses (semver : Semver) (raw : Text) (r : Reference) : Type 0 where
  pub version_text : Text
  pub version_parses : parse_version semver version_text ≡ ok r.version
  pub written :
      r.channel
        ++ (b':' ∷ (r.id ++ (b'/' ∷ (version_text ++ (b'/' ∷ show_architecture r.architecture)))))
      ≡ raw
  pub channel_nonempty : is_empty r.channel ≡ false
  pub id_nonempty : is_empty r.id ≡ false
  pub known : is_known r.architecture ≡ true

reference_from_parts-ok :
    (semver : Semver) (raw channel rest : Text) (parts : List Text) (r : Reference)
    → channel ++ b':' ∷ rest ≡ raw
    → join (b'/' ∷ []) parts ≡ rest
    → reference_from_parts semver raw channel parts ≡ ok r
    → Parses semver raw r
unfolding reference_from_parts join
reference_from_parts-ok semver raw channel rest (id ∷ v ∷ a ∷ []) r w j h =
    let guard : (is_empty id || is_empty v || is_empty a) ≡ false = ground arith in
    let (version, h1, e1) =
      bind-succeeds _ (map_err version_error (parse_version semver v)) (rw guard at h) in
    let (architecture, h2, e2) =
      bind-succeeds _ (map_err architecture_error (architecture_from a)) h1 in
    let (c, i, e) = new_reference-ok channel id version architecture r h2 in
    let (k, shown) = (architecture_from_iff a architecture).0 (map_err-ok _ _ _ e2) in
    rw (← e) (record {
      version_text = v;
      version_parses = map_err-ok _ _ _ e1;
      written = rw shown (ap (λ t. channel ++ b':' ∷ t) j ∙ w);
      channel_nonempty = c;
      id_nonempty = i;
      known = k;
    })
reference_from_parts-ok semver raw channel rest parts r w j h = absurd (ground arith)

-- A text that is accepted consists of the channel, the identifier, a text of the version and the
-- architecture, with the separators between them.
pub reference_from-ok :
    (semver : Semver) (raw : Text) (r : Reference)
    → reference_from semver raw ≡ ok r
    → Parses semver raw r
unfolding reference_from reference_from_split
reference_from-ok semver raw r h = elim (Option-cases (split_once b':' raw)) [
  | inl missing ↦ absurd (let k = rw missing at h in ground arith)
  | inr ((channel, rest), found) ↦
      reference_from_parts-ok semver raw channel rest (split b'/' rest) r
        (split_once-some b':' raw channel rest found) (join-split b'/' rest) (rw found at h)
]

-- ===== src/Reference/Tests.antt =====
-- Tests of references, and instances of the theorems on them and on architectures.
use linyaps_rust.Common.{◌≡◌, refl, codes, text_eq, none, some, [], ◌∷◌, ok, arith}
use linyaps_rust.Architecture.{
  x86_64, loong64, loong_arch64, is_new_world_loongarch, header_with, current,
}
use linyaps_rust.Version.{show_u64, show_fuel}
use linyaps_rust.Version.V1.{show_v1}
use linyaps_rust.Version.Parse.{v1, show_version, parse-show_version_v1}
use linyaps_rust.Version.Tests.{numbers_only, four, four-Fits}
use linyaps_rust.Reference.{
  Reference, FuzzyReference, reference_from, show_reference, fuzzy_from, show_fuzzy,
}
use linyaps_rust.Reference.RoundTrip.{
  IsPrintable, Parses, reference_from-show_reference, reference_from-ok,
}
use linyaps_rust.Reference.Fuzzy.{IsPrintableFuzzy, fuzzy_from-show_fuzzy}

loongarch_worlds :
    (current (codes "loongarch64") (some (header_with 1 (67 ∷ 0 ∷ 0 ∷ 0 ∷ []))) ≡ ok loong64)
    × (current (codes "loongarch64") (some (header_with 1 (3 ∷ 0 ∷ 0 ∷ 0 ∷ []))) ≡ ok loong_arch64)
    × (current (codes "loong64") none ≡ ok loong_arch64)
unfolding current is_new_world_loongarch text_eq
loongarch_worlds = (refl, refl, refl)

abbrev demo : Reference
demo = record {
  channel = codes "main";
  id = codes "org.demo";
  version = v1 four;
  architecture = x86_64;
}

demo-IsPrintable : IsPrintable numbers_only demo
unfolding show_version show_v1 show_u64 show_fuel
demo-IsPrintable = record {
  channel_lacks = ground arith;
  channel_nonempty = refl;
  id_lacks = ground arith;
  id_nonempty = refl;
  version_lacks = ground arith;
  version_nonempty = refl;
  version_parses = parse-show_version_v1 numbers_only 1 20 3 4 four-Fits;
  known = refl;
}

reference_from-show_reference_example : reference_from numbers_only (show_reference demo) ≡ ok demo
reference_from-show_reference_example =
    reference_from-show_reference numbers_only demo demo-IsPrintable

reference_from-ok_example : Parses numbers_only (show_reference demo) demo
reference_from-ok_example =
    reference_from-ok numbers_only (show_reference demo) demo
      (reference_from-show_reference numbers_only demo demo-IsPrintable)

abbrev any_channel : FuzzyReference
any_channel = record {
  channel = none;
  id = codes "org.demo";
  version = some (codes "1.20");
  architecture = some x86_64;
}

any_channel-IsPrintableFuzzy : IsPrintableFuzzy any_channel
unfolding text_eq
any_channel-IsPrintableFuzzy = record {
  channel_stands = tt;
  id_lacks = ground arith;
  id_nonempty = refl;
  version_stands = (ground arith, refl, refl);
  architecture_known = refl;
}

fuzzy_from-show_fuzzy_example : fuzzy_from (show_fuzzy any_channel) ≡ ok any_channel
fuzzy_from-show_fuzzy_example = fuzzy_from-show_fuzzy any_channel any_channel-IsPrintableFuzzy

-- ===== src/Local/Tests.antt =====
-- Tests of the layers and of the rewriting of exported files, and instances of the theorems.
use linyaps_rust.Common.{
  ℕ, ◌≡◌, refl, sym, ◌∙◌, Text, codes, text_eq, text_eq_refl, if◌then◌else◌, join, Option, none,
  some, List, [], ◌∷◌, ◌++◌, true, false, ok, pos, arith, any, retain, is_gt, map, ◌&&◌,
}
use linyaps_rust.Architecture.{x86_64}
use linyaps_rust.Version.{parse_numeric, show_u64, show_fuel}
use linyaps_rust.Version.Compare.{partial_cmp}
use linyaps_rust.Version.Parse.{parse_with_options, Version, parse_version, show_version, v2}
use linyaps_rust.Version.Tests.{numbers_only, parse_three}
use linyaps_rust.Version.V2.{VersionV2, parse_v2, show_v2}
use linyaps_rust.Reference.{Reference, FuzzyReference}
use linyaps_rust.Cache.{
  RepositoryCacheLayersItem, RepositoryCacheStore, empty_store, existing_layers, read, failed,
  not_written,
}
use linyaps_rust.Local.{
  resolve_local, parse_candidates, is_candidate, layer_item, satisfies, requested,
  reference_from_info, or_equal, cache_fault,
}
use linyaps_rust.Local.Resolve.{resolve_local_newest, IsCandidate}
use linyaps_rust.Local.Found.{layer_item-resolve_local, IsCanonical}
use linyaps_rust.Local.Ini.{
  IniGroup, parse_ini, serialize_ini, lines, rewrite_groups, rewrite_desktop, rewrite_exec, desktop,
}
use linyaps_rust.Local.IniLaws.{serialize-parse}
use linyaps_rust.Local.Remove.{
  Ostree, IsOstree, LocalRepository, Unchanged, repository, remove_layer_item,
  remove_layer_item-Unchanged,
}

abbrev layer : Text → RepositoryCacheLayersItem (Unit {0})
layer version = record {
  commit = codes "c1";
  deleted = none;
  info = record {
    arch = codes "x86_64" ∷ [];
    base = [];
    channel = codes "main";
    extensions = none;
    id = codes "org.demo";
    kind = codes "app";
    module_name = codes "binary";
    runtime = none;
    version = version;
    others = tt;
  };
  repo = codes "stable";
}

abbrev store : RepositoryCacheStore (Unit {0})
store =
    let empty : RepositoryCacheStore (Unit {0}) =
      empty_store (record { default_repo = codes "stable"; repos = []; version = pos 2 })
        (codes "1") in
    record empty {
      data_now = record empty.data_now {
        layers = layer (codes "1.0.0") ∷ layer (codes "1.2.0") ∷ [];
      };
    }

abbrev fuzzy : FuzzyReference
fuzzy = record { channel = none; id = codes "org.demo"; version = none; architecture = some x86_64 }

abbrev number : ℕ → VersionV2
number minor = record {
  major = 1;
  minor = minor;
  patch = 0;
  prerelease = [];
  build_metadata = [];
  security = 0;
  has_patch = true;
}

abbrev newest : Reference
newest = record {
  channel = codes "main";
  id = codes "org.demo";
  version = v2 (number 2);
  architecture = x86_64;
}

unparsed : retain (is_candidate fuzzy) (existing_layers store) ≡ store.data_now.layers
unfolding is_candidate
unparsed = refl

resolved : resolve_local numbers_only store fuzzy true ≡ ok newest
unfolding resolve_local is_candidate parse_candidates parse_version parse_with_options parse_v2
    numbers_only parse_three parse_numeric
resolved = refl

abbrev candidates : List (Version × RepositoryCacheLayersItem (Unit {0}))
candidates = (v2 (number 0), layer (codes "1.0.0")) ∷ (v2 (number 2), layer (codes "1.2.0")) ∷ []

parsed :
    parse_candidates numbers_only (retain (is_candidate fuzzy) (existing_layers store))
    ≡ ok candidates
unfolding is_candidate parse_candidates parse_version parse_with_options parse_v2 numbers_only
    parse_three parse_numeric
parsed = refl

resolve_local_newest_example :
    (wanted : Option Version) × (best : Version × RepositoryCacheLayersItem (Unit {0})) × (requested
        fuzzy.version
        (parse_version numbers_only)
      ≡ ok wanted)
    × IsCandidate numbers_only store fuzzy best
    × (satisfies numbers_only true wanted best.0 ≡ true)
    × (reference_from_info numbers_only best.1.info ≡ ok newest)
    × (any
          (λ c.
            satisfies numbers_only true wanted c.0
            && is_gt (or_equal (partial_cmp numbers_only c.0 best.0)))
          candidates
        ≡ false)
resolve_local_newest_example =
    resolve_local_newest numbers_only store fuzzy true newest candidates parsed (tt, (tt, tt))
      resolved

-- Both layers are stored in the form in which they are looked up.
canonical :
    (minor : ℕ) (version : Text)
    → parse_version numbers_only version ≡ ok (v2 (number minor))
    → show_version (v2 (number minor)) ≡ version
    → IsCanonical numbers_only (layer version)
canonical minor version p q = record {
  mark_none = λ h. refl;
  version_printed =
      λ v e. let f : v2 (number minor) ≡ v = (let g = sym p ∙ e in ground arith) in rw (← f) q;
}

layer_item-resolve_local_example :
    (item : RepositoryCacheLayersItem (Unit {0})) × (layer_item store newest (codes "binary")
      ≡ ok item)
unfolding show_version show_v2 show_u64 show_fuel parse_version parse_with_options parse_v2
    numbers_only parse_three parse_numeric
layer_item-resolve_local_example =
    layer_item-resolve_local numbers_only store fuzzy true newest
      (canonical 0 (codes "1.0.0") refl refl, (canonical 2 (codes "1.2.0") refl refl, tt)) resolved

-- A desktop file with two groups: an entry and an action without a command.
abbrev entry : IniGroup
entry = record {
  header = codes "[Desktop Entry]";
  name = codes "Desktop Entry";
  lines = codes "Exec=demo %U" ∷ codes "Name=Demo" ∷ [];
}

abbrev action : IniGroup
action = record {
  header = codes "[Desktop Action new]";
  name = codes "Desktop Action new";
  lines = codes "Name=New" ∷ [];
}

serialize-parse_example :
    serialize_ini
      (parse_ini (codes "# c\n[a]\r\nb=c")).preamble
      (parse_ini (codes "# c\n[a]\r\nb=c")).groups
    ≡ join (10 ∷ []) (lines (codes "# c\n[a]\r\nb=c")) ++ 10 ∷ []
serialize-parse_example = serialize-parse (codes "# c\n[a]\r\nb=c")

-- The command of the entry, and a second rewriting of it.
entry_rewritten :
    map
      (λ (g : IniGroup). g.lines)
      (rewrite_groups desktop (codes "org.demo") (entry ∷ action ∷ []))
    ≡ (codes "Exec=/usr/bin/ll-cli run org.demo --url %U -- -- demo %%U"
        ∷ codes "Name=Demo"
        ∷ codes "TryExec=/usr/bin/ll-cli"
        ∷ codes "X-linglong=org.demo"
        ∷ [])
      ∷ (codes "Name=New" ∷ codes "Exec=/usr/bin/ll-cli run org.demo" ∷ [])
      ∷ []
unfolding rewrite_groups rewrite_desktop rewrite_exec
entry_rewritten = refl

-- A repository of refs that are commits of one name, in which every change succeeds.
abbrev pub one_ref : Ostree (Text → Option Text)
one_ref = record {
  resolve_rev = λ o name. ok (o name);
  set_ref_immediate =
      λ o name commit. ((λ other. if text_eq other name then commit else o other), ok tt);
}

one_ref-IsOstree : IsOstree one_ref
one_ref-IsOstree = record {
  changes = λ o name commit h. rw (text_eq_refl name) refl;
  keeps = λ o name other commit h e. rw e refl;
}

abbrev before : LocalRepository (Unit {0}) (Text → Option Text)
before = record { cache = store; repo = λ name. some (codes "c1") }

remove_layer_item_example :
    Unchanged one_ref before
      (remove_layer_item numbers_only one_ref
        (not_written read none)
        before
        (layer (codes "1.0.0"))).0
unfolding remove_layer_item parse_version parse_with_options parse_v2 numbers_only parse_three
    parse_numeric
remove_layer_item_example =
    remove_layer_item-Unchanged numbers_only one_ref (not_written read none) one_ref-IsOstree
      (λ o name commit. refl) before (layer (codes "1.0.0"))
      (repository (cache_fault (failed read))) refl

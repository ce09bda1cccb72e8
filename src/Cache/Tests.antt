-- ===== src/Cache/Tests.antt =====
-- Tests of the cache, and instances of the theorems.
use linyaps_rust.Common.{◌≡◌, refl, codes, text_eq, none, [], ◌∷◌, true, pos}
use linyaps_rust.Cache.{
  RepositoryCacheLayersItem, RepositoryCacheStore, read, failed, written, not_written, empty_store,
  same_layer, write_to_disk, add_layer, delete_layer, delete_at, delete, set_deleted, apply_cache,
  same_first,
}
use linyaps_rust.Cache.Operations.{
  AreDistinct, apply_cache-AreDistinct, apply_cache-error_unchanged,
}
use linyaps_rust.Common.{retain}
use linyaps_rust.Cache.{same_layer_identity, existing_layers, upsert_layer}
use linyaps_rust.Cache.Upsert.{upsert_layer-existing}

abbrev layer : RepositoryCacheLayersItem (Unit {0})
layer = record {
  commit = codes "c1";
  deleted = none;
  info = record {
    arch = codes "x86_64" ∷ [];
    base = codes "org.base/1.0.0";
    channel = codes "main";
    extensions = none;
    id = codes "org.demo";
    kind = codes "app";
    module_name = codes "binary";
    runtime = none;
    version = codes "1.0.0";
    others = tt;
  };
  repo = codes "stable";
}

abbrev fresh : RepositoryCacheStore (Unit {0})
fresh =
    empty_store (record { default_repo = codes "stable"; repos = []; version = pos 2 }) (codes "1")

abbrev one_layer : RepositoryCacheStore (Unit {0})
one_layer = record fresh { data_now = record fresh.data_now { layers = layer ∷ [] } }

apply_cache-AreDistinct_example :
    AreDistinct (apply_cache (not_written read none) (set_deleted layer true) one_layer).0.data_now
apply_cache-AreDistinct_example =
    apply_cache-AreDistinct (not_written read none) (set_deleted layer true) one_layer (refl, tt)

apply_cache-error_unchanged_example :
    (apply_cache (not_written read none) (delete layer) one_layer).0.data_now ≡ one_layer.data_now
unfolding apply_cache delete_layer delete_at write_to_disk same_layer text_eq same_first
apply_cache-error_unchanged_example =
    apply_cache-error_unchanged (not_written read none) (delete layer) one_layer (failed read) refl
      refl

abbrev newer : RepositoryCacheLayersItem (Unit {0})
newer = record layer { commit = codes "c2" }

upsert_layer-existing_example :
    retain
      (λ x. same_layer_identity x newer)
      (existing_layers (upsert_layer written newer one_layer).0)
    ≡ newer ∷ []
upsert_layer-existing_example = upsert_layer-existing newer one_layer refl

-- A failed write in `add_layer` leaves the new layer in memory.
add_layer_stays : (add_layer (not_written read none) layer fresh).0.data_now.layers ≡ layer ∷ []
unfolding add_layer write_to_disk
add_layer_stays = refl

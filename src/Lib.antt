-- ===== src/Lib.antt =====
-- A verification library of linyaps, the package manager for Linglong applications. It covers the
-- parts whose behaviour is decided by pure code or by a small shared state:
--
-- * RepoConfig (crates/linyaps-core/src/repository.rs and repo_command.rs): the list of repositories,
--   its queries, sorting, grouping and conversion from version 1, and the sub-commands of `repo` in
--   RepoConfig.Command. `apply_repo_operation` returns the configuration with the result, since an
--   error leaves by `?` with whatever was changed before; `panic` stands for `unreachable!`, `expect`
--   and an index out of bounds. RepoConfig.Priority and RepoConfig.Convert hold the proofs on sorting
--   and conversion.
-- * Task (crates/linyaps-dbus/src/task.rs): the D-Bus object of a task and the queue that runs tasks.
--   Task.Thread cuts every handler into atomic steps (a load, store or swap of a flag, a section under
--   a lock, a signal), Task.System interleaves the threads of one task in any order, and Task.Queue
--   does so for the queue and its workers. What the job returns, whether a signal can be sent and when
--   the wait for a reply runs out are choices of the environment. A job is one step, at which it
--   returns, and the calls it makes on its context are threads beside it, so no theorem says that a
--   job comes to an end. A signal is logged when it is issued, whether or not the bus took it.
--   Task.Once, Task.Progress, Task.Owner and Task.Queue prove what holds in every interleaving,
--   Task.Liveness that calls come to an end when the environment lets them, and Task.Sequential
--   what a handler does on its own.
-- * Version (crates/linyaps-core/src/version.rs): the three forms of a version. Version.V1 has three or
--   four numbers, Version.V2 is a semantic version with a security number, Version.Fallback any text
--   of parts; Version.Parse chooses between them, Version.Compare holds `eq` and `partial_cmp`. The
--   `semver` crate is the parameter `Semver` with the laws of its documentation.
-- * Architecture and Reference (crates/linyaps-core/src/architecture.rs and reference.rs): names of
--   architectures, and exact and fuzzy references, which use the versions.
-- * Cache (crates/linyaps-repository/src/cache.rs): the list of installed layers in memory and in its
--   file. Whether a write succeeds, and what a failed one leaves in the file, is a choice of the
--   environment. The cache holds the configuration of RepoConfig.
-- * JsonPatch (crates/linyaps-core/src/json_patch.rs): pointers, and the six operations on a document
--   with their errors. JsonPatch.Json holds the values: an object is the list of its fields in the order
--   of their names, as serde_json's default map is; numbers and their equality are a parameter.
-- * Local (crates/linyaps-repository/src/local.rs): which layer a reference stands for, on the cache of
--   layers, the marks of deletion, the removal of a layer in Local.Remove, where the OSTree library is
--   the parameter `Ostree` with the laws `IsOstree`, and the rewriting of exported desktop and service
--   files in Local.Ini. Local.Resolve, Local.Found and Local.IniLaws hold the proofs.
-- * LayerFile (crates/linyaps-repository/src/layer_file.rs and writer.rs): the header of a layer file, as
--   it is written and read, and the device that shows a section of a file. `serde_json::from_slice` is a
--   parameter.
-- * PackageManager (apps/ll-package-manager/src/operations.rs): the modules that an install or an update
--   takes, the checks of a bundle (PackageManager.Bundle), and the counts on which a pruning decides
--   (PackageManager.Prune), which ask Local for the layers that applications use, with the removal that
--   follows (PackageManager.Removal). PackageManager.Count, Kept, Pruned and Needed compare the counts
--   with the list of everything that applications use, Entries has the invariant of the map of targets,
--   and Safe follows the layers through the removal.
--
-- Common holds the lists, texts, results and orders that the parts share. A Rust string is the list of
-- its bytes; an `i64` sum wraps or panics as RepoConfig.Command says; a `u64` is a natural number, whose
-- bound the parsers and LayerFile test. Fuel occurs once, in `show_fuel` of Version: a number n is
-- printed with fuel n + 1, more than it has digits. `steps_left` of Task.Liveness bounds the steps of a call, and
-- a history of interleaved steps is a finite list of any length. Local.Ini reads a text by its code
-- points. The counts of PackageManager.Prune count entries of lists in memory and have no bound of their
-- own.
--
-- Not modelled: file and network I/O, serde, D-Bus itself, the object store of OSTree, the export tree,
-- the programs under apps/ but for the parts above, and the translations. Runtime configurations, device
-- patches and the D-Bus parameters of the package manager are pure code that is not covered yet.
pub mod Architecture
pub mod Cache
pub mod Common
pub mod JsonPatch
pub mod LayerFile
pub mod Local
pub mod PackageManager
pub mod Reference
pub mod RepoConfig
pub mod Task
pub mod Version

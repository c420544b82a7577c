-- ===== src/Lib.antt =====
-- Zwirn keeps fragments of the source in an Audulus document and files beside it synchronized.
-- Fragments are marked by comments in the source of a node; a closing marker may record the
-- hash of the text that was last synchronized, its baseline.
--
-- The program's parts. `src/fragment.rs` reads the markers of one node's source and rewrites
-- fragments in place. `src/reconcile.rs` classifies a fragment by its embedded copy, its
-- baseline and its file, and plans what a command does with a selected batch. Around these,
-- `src/adls.rs` reads and rewrites the document, `src/inventory.rs` finds the fragments of all
-- nodes and their files, `src/engine.rs` runs a command, `src/commit.rs` puts files in place,
-- and `src/live.rs` repeats that while files change.
--
-- Which file models what:
--   Prelude, Text, TreeMap       Booleans, lists, results, texts as lists of UTF-8 bytes, `BTreeMap`
--   Adls/Kind, Adls/Error        src/adls.rs: `NodeKind`, `NodeHandle`, `Error`
--   Adls/Parser, Adls/Table      src/adls.rs: `Parser`, `Table`
--   Adls/Layout                  src/adls.rs: `Layout`
--   Adls/Document                src/adls.rs: `Document::parse`
--   Adls/Rewrite                 src/adls.rs: `Document::rewrite`, `plan_rewrite_size`
--   Fragment/Path                `FragmentPath`, `validate_fragment_path`
--   Fragment/Hash                `BaselineHash`: `from_source`, `Display`, `from_str`
--   Fragment/Canonical           `CanonicalSource`: `try_from`, `canonicalize_source`
--   Fragment/Lines               `PhysicalLines`
--   Fragment/Marker              `parse_marker`, `skip_horizontal`, `token_end`
--   Fragment/Source              `ParsedSource::parse`, `ParsedSource::fragments`
--   Fragment/Rewrite             `ParsedSource::rewrite`
--   Access                       src/access.rs: `AccessPolicy`, `DirectAccess`, `flatten`
--   Commit                       src/commit.rs: `validate_order`, `commit_using`
--   Engine                       src/engine.rs: `status_report`, `map_plan_error`, and the loop over
--                                the decisions in `mutate_with_access`, with its outputs
--   Engine/Materialize           src/engine.rs: `materialize_document`, `validate_prepared_document`
--   Engine/Run                   src/engine.rs: `mutate_with_access`
--   Engine/Mutate                src/engine.rs: the end of `mutate_with_access`
--   Inventory                    src/inventory.rs: `InventoryEntry`, the sort in `discover_inner`,
--                                `validate_uniqueness`, `validate_path_prefixes`,
--                                `Inventory::select`
--   Inventory/Discover           src/inventory.rs: `discover_inner`, up to the targets
--   Live                         src/live.rs: `Driver`, `boundary_next`, the signal thread, and
--                                `CallbackState::invalidate` of src/live/macos.rs
--   Live/Diagnostics             src/live.rs: `Diagnostics`, `blocker_transition`
--   Reconcile                    src/reconcile.rs: `classify`, `plan`, `plan_one`
-- Child modules of these hold their theorems; the modules Tests run them.
--
-- Correspondence. A function keeps its name. A body that is long is cut into helpers, one for a
-- loop or for the part behind an early return; a comment names the part. An error is `err`, and a
-- panic of the code (a slice out of range, `unreachable!`) is `panic`, so that its absence is a
-- theorem. Mutable variables of a loop are arguments or a record. Positions are natural numbers:
-- they are at most the length of a text, which fits a `usize`; the one sum that may not fit is
-- checked against 2 ^ 64 as the code checks it.
--
-- Bounds and fuel. `physical_lines` runs the iterator on fuel, one more than the length of the
-- source; every line takes a byte, so this is enough. The binary search has the number of its
-- items as fuel; each step leaves fewer. All else is structural. `run_driver` counts
-- actions of the driver in theorems.
--
-- Threads. The driver, the signal thread and the monitor's callback are steps on the latch, the
-- channel of one place and the point where each thread stands; they take turns in any order. One
-- step is one load, `swap`, `try_send`, `try_recv` or `recv`, or a whole run.
--
-- The number of a parsed document, which the code takes from an atomic counter, is an argument of
-- `parse`, `rewrite` and what calls them. A `usize` has 64 bits, so that every `u32` is one; an
-- `i32` is its bit pattern. `str::from_utf8` is a test on bytes, in Text/Utf8.
--
-- Parameters. `digest` is SHA-256 of the crate `sha2`, as a function from a text to its bytes;
-- nothing is assumed of it, so collisions are allowed for. `can_reserve` is the allocator's answer
-- to `try_reserve_exact`. An access policy is its state and its answer before the body runs; the
-- file system of a commit is a record of its four operations on a state, of which nothing is
-- assumed. `parent` is `Path::parent` of the standard library. Its stable `sort_by` is an
-- insertion sort here, its `binary_search_by` a search by halves that gives the item in place of
-- its index, in Text/Search, and `BTreeMap` and `BTreeSet` are lists in the order of their keys.
--
-- Not modelled: that a slice of a `&str` ends at UTF-8 boundaries (only its range is checked),
-- `debug_assert!`, the texts of errors, the paths of a request and what `src/engine.rs` does
-- to open its inventory, the reading and the checks of targets in `src/inventory.rs`,
-- `src/source_root.rs`, the command line (`src/main.rs`), the build script, and the bindings to
-- the operating system under `src/access` and `src/live`.
pub mod Prelude
pub mod Text
pub mod TreeMap
pub mod Adls
pub mod Fragment
pub mod Reconcile
pub mod Access
pub mod Commit
pub mod Live
pub mod Engine
pub mod Inventory

-- ===== src/Lib.antt =====
-- sqlsink: Parquet tables are staged into a database and published there, all of a batch or none,
-- by renaming them into place under a lock. Marker tables record what is staged and what is live,
-- and a Snakemake storage plugin reads them. Joins between published tables are chosen on a graph of
-- declared references.
--
-- - Graph: workflow/scripts/sqlsink/relations.py. `Graph/Check` and `Graph/Acyclic` hold what
--   `JoinGraph.__post_init__` checks, `Graph/Search` holds `_paths`, `Graph/Choice` holds `path`,
--   `reachable` and `ambiguous`. `Path` of the source is `Route`. The recursion of
--   `_check_acyclic.visit` runs on fuel, one more than the number of entities, since the nodes of a
--   chain in progress differ; `_paths` recurses on the number of hops that are left.
-- - Ident: workflow/scripts/sqlsink/sqlident.py, the quoting of identifiers and literals; `Ident/Lexer`
--   is how SQL reads a quoted text.
-- - Manifest: workflow/scripts/sqlsink/manifest.py, the manifests, and the joins of a v2 dataset. The
--   model of `_check_joins` returns the state and the graph that the source builds and drops.
--   `Manifest/Checks` holds the checks of a component, of a v1 dataset and across manifests.
-- - Sql: the database. The server is a parameter (`Server`), a state with a catalog and marker rows,
--   statements that succeed or are refused, and a rollback; `IsServer` is what its documentation says
--   of them. `Sql/Exec` is the code around it: an action returns a value or raises, `begin` is
--   `engine.begin()`, which rolls back when its block raises. `Sql/Keeps` and `Sql/Undoes` are the
--   rules for what an action leaves alone.
-- - Meta: workflow/scripts/sqlsink/metadata.py, names, creation and reads of the marker tables.
-- - Engine: workflow/scripts/sqlsink/engine.py, the settings of a publish and `upsert_by_pk`.
-- - KeepOld: workflow/scripts/sqlsink/keep_old.py, `park`; `KeepOld/Rollback` holds `rollback_kept_old`
--   and `cleanup_kept_old`. JSON and `str.upper` are a parameter (`Codec`), the catalog query that
--   finds the kept relations is another (`found`). The functions return the kept relations, whose
--   names the source formats.
-- - Publish: workflow/scripts/sqlsink/publish.py, what publishes share. `Publish/Tables` holds
--   `publish_tables`, in the source's order: demotion of receipts that are live, conflict check, the
--   live table aside, the staged one into place, the marker row; then, after the commit, statistics
--   and the removal of replaced tables, whose failures are logged only. `Publish/Receipts`, `Swap`,
--   `Steps` and `Datasets` hold `publish_datasets`: the receipts and the rows written from them, the
--   replacement of one relation, the guards, and the transaction. What is to be dropped and to be
--   analyzed after the commit (`old_physical`, `fresh`) is the value `Pending` that each step returns.
--   A receipt's `kind` and the keys that depend on it are the data type `Contents`. `Publish/Merge`
--   holds `merge_component_receipts`.
-- - Stage: workflow/scripts/sqlsink/stage.py, `is_current` and `stage_table`. What a Parquet file gives,
--   its hash and its rows, is a parameter (`File`).
-- - Planning: workflow/scripts/sqlsink/planning.py, the snapshot that replaces many reads. What its
--   queries give, with rows as JSON, and `fromisoformat` are a parameter (`Queries`); `Planning/Reads`
--   says what is documented of them (`IsReading`).
-- - Reconcile: workflow/scripts/sqlsink/reconcile.py. `Reconcile` holds the desired objects and the
--   inventory, `Reconcile/Prune` the report and its deletions. Sets are lists without repetition, and
--   the kind `plain` is `plain_table`. The marker keys, the names in a schema and the schemas that
--   SELECT and the inspector list are a parameter (`Listing`).
-- - Credentials: workflow/scripts/sqlsink/credentials.py, `_build` with `_merge_path` and
--   `PgCredentials.from_mapping`. `int`, `parse_qsl` and the private file that holds a certificate are
--   a parameter (`Outside`). A dictionary is a list of its items. `Credentials/Reference` holds
--   `_split_reference`, on the codes of the characters.
-- - Verify: workflow/scripts/sqlsink/verify.py, `compare_batched`. A relation that DuckDB scans is the
--   list of its rows, each with its key and its hash, the keys that the first query gives are a
--   parameter, and so is the peak memory (`rss`). `batch_size` is an integer. The slices of the keys are
--   made on as much fuel as there are keys, since each takes one at least; a negative step gives none.
-- - Plugin: workflow/sql_storage_plugin/snakemake_storage_plugin_sqlsink/__init__.py, `exists` and
--   `mtime` of staged and published tables, with and without a snapshot.
-- - Base: lists, texts and results over the native numbers.
--
-- The default schema of a connection is public: a reference without a schema is to it, and a reference
-- with a schema is to another. The time stamp in the names of replaced tables is a parameter (`ts`).
-- An environment is the function `os.environ.get`. The reads of the SQLAlchemy inspector see the
-- state at the moment of the read.
-- A relation's `grants` are those on the whole relation that its owner granted, to everyone or to a
-- role. In the rows of `_grants` a role named PUBLIC and everyone look the same, as in the source.
-- Not modelled: the bulk loaders, DuckDB and Parquet, the command lines, the file lock of DuckDB (no
-- statement shows it), the creation of engines, and the locking of concurrent publishers as such:
-- the block under the advisory lock runs without interleaved writers.
pub mod Base
pub mod Ident
pub mod Graph
pub mod Manifest
pub mod Sql
pub mod Meta
pub mod Engine
pub mod KeepOld
pub mod Publish
pub mod Stage
pub mod Planning
pub mod Reconcile
pub mod Credentials
pub mod Verify
pub mod Plugin

-- ===== src/Meta.antt =====
-- workflow/scripts/sqlsink/metadata.py: the names of the marker tables, staging and compact names,
-- the physical place of a component, and the read of one marker row.
pub mod Create
use snakemake_storage_plugin.Base.{String, Option, none, some, Bool, if◌then◌else◌, is_some, ◌<>◌}
use snakemake_storage_plugin.Sql.{
  Ref, plain, MarkerTable, table_updates, staged_updates, dataset_updates, contour_updates,
  component_updates, Row, create_markers, xact_lock,
}
use snakemake_storage_plugin.Sql.Server.{Server}
use snakemake_storage_plugin.Sql.Exec.{Exec, execute, begin, ◌>>◌, when}

abbrev pub staging_prefix : String
staging_prefix = "stg__"

abbrev pub staging_name : String → String
staging_name table_name = staging_prefix <> table_name

abbrev pub compact_table_name : String → String
compact_table_name dataset_name = "compact__" <> dataset_name

abbrev pub marker_table_name : MarkerTable → String
marker_table_name table_updates = "_pipeline_meta_table_updates"
marker_table_name staged_updates = "_pipeline_meta_staged_updates"
marker_table_name dataset_updates = "_pipeline_meta_dataset_updates"
marker_table_name contour_updates = "_pipeline_meta_contour_updates"
marker_table_name component_updates = "_pipeline_meta_component_updates"

-- Both dialects have schemas: the name and the schema as they are declared.
abbrev pub physical_name_and_schema : String → String → Ref
physical_name_and_schema bare_name schema = record { schema = some schema; name = bare_name }

abbrev pub bootstrap_lock_key : String
bootstrap_lock_key = "snakemake_sql:create_marker_tables"

module _ (S : Server) where
  -- `insp.has_table(name, schema=schema)`
  abbrev pub has_table : Ref → S.State → Bool
  has_table r s = is_some (S.relation s r)

  unfoldable pub table_exists : MarkerTable → S.State → Bool
  table_exists t s = has_table (plain (marker_table_name t)) s

  unfoldable pub fetch_one : MarkerTable → String → S.State → Option Row
  unfolding table_exists
  fetch_one t key s = if table_exists t s then S.marker s t key else none

  -- `advisory_lock(conn, key, transactional=True)` and the block under it. On DuckDB it is a lock on
  -- a file beside the database, which no statement shows.
  unfoldable pub advisory_lock : {A : Type 0} → String → Exec S.State A → Exec S.State A
  advisory_lock key block = when S.is_postgresql (execute S (xact_lock key)) >> block

  unfoldable pub create_all : Exec S.State Unit
  unfolding advisory_lock
  create_all = begin S (advisory_lock bootstrap_lock_key (execute S create_markers))

-- ===== src/Plugin.antt =====
-- workflow/sql_storage_plugin/snakemake_storage_plugin_sqlsink/__init__.py: `exists` and `mtime` of a
-- storage object, for the kinds that a table has, `staged` and `published`. Each reads a planning
-- snapshot on PostgreSQL and the database itself elsewhere.
pub mod Agrees
mod Tests
use snakemake_storage_plugin.Base.{
  String, Bool, true, false, not, ◌&&◌, ◌||◌, Option, none, some, ℕ, is_some, if◌then◌else◌,
}
use snakemake_storage_plugin.Sql.{plain, table_updates, staged_updates, Row}
use snakemake_storage_plugin.Sql.Effect.{text_in, same_option, moment_in}
use snakemake_storage_plugin.Sql.Server.{Server}
use snakemake_storage_plugin.Meta.{has_table, fetch_one}
use snakemake_storage_plugin.Stage.{File, is_current}
use snakemake_storage_plugin.Planning.{PlanningState, table_current, published_table_current}

pub data ObjectKind : Type 0 where
  staged_object published_object : ObjectKind

-- The marker's time, else, for a table that was staged, the staged marker's.
abbrev time_of : ObjectKind → Option Row → Option Row → ℕ
time_of kind (some marker) staged = moment_in "published_at" (some marker)
time_of published_object none staged = 0
time_of staged_object none staged = moment_in "staged_at" staged

-- `file` is what the Parquet file gives, None where it does not exist.
abbrev with_file : Option File → (File → Bool) → Bool
with_file none f = false
with_file (some file) f = f file

module _ (S : Server) where
  unfoldable pub published_current : String → S.State → Bool
  published_current name s =
      let marker = fetch_one S table_updates name s in
      let staged = fetch_one S staged_updates name s in
      if not (is_some marker) || not (has_table S (plain name) s)
      then false
      else not (is_some staged)
        || same_option (text_in "update_id" staged) (text_in "update_id" marker)

  unfoldable pub exists_with_state :
      Option PlanningState → ObjectKind → String → Option File → S.State → Bool
  unfolding published_current table_current published_table_current is_current
  exists_with_state (some st) published_object name file s = published_table_current st name
  exists_with_state (some st) staged_object name file s =
      with_file file (λ f. table_current st name f.update_id)
  exists_with_state none published_object name file s = published_current name s
  exists_with_state none staged_object name file s = with_file file (λ f. is_current S name f s)

  unfoldable pub mtime_with_state : Option PlanningState → ObjectKind → String → S.State → ℕ
  mtime_with_state (some st) kind name s =
      time_of kind (st.markers table_updates name) (st.markers staged_updates name)
  mtime_with_state none kind name s =
      time_of kind (fetch_one S table_updates name s) (fetch_one S staged_updates name s)

-- ===== src/Stage.antt =====
-- workflow/scripts/sqlsink/stage.py: the freshness check of a table and its staging.
-- What is read from the Parquet file is a parameter (`File`): DuckDB reads it, and
-- `compute_update_id_for_file` hashes it.
pub mod Private
pub mod Fresh
mod Tests
use snakemake_storage_plugin.Base.{
  String, Bool, true, false, ◌&&◌, ◌||◌, Option, none, some, List, [], ◌∷◌, ℕ, if◌then◌else◌,
}
use snakemake_storage_plugin.Sql.{
  Ref, plain, table, table_updates, staged_updates, MarkerTable, Row, text, number, drop_if_exists,
  drop, create_empty, load_rows,
}
use snakemake_storage_plugin.Sql.Effect.{text_in, number_in, same_option}
use snakemake_storage_plugin.Sql.Server.{Server}
use snakemake_storage_plugin.Sql.Exec.{Exec, execute, begin, ◌>>=◌, ◌>>◌, gets, when, pure}
use snakemake_storage_plugin.Meta.{staging_name, has_table, fetch_one, create_all}
use snakemake_storage_plugin.Engine.{upsert_by_pk}

pub record File : Type 0 where
  pub update_id : String
  pub parquet_sha256 : String
  pub row_count : ℕ

-- `staged` is `status == "staged"`, else it is "current". The fields that only report (null counts,
-- the time of the staging, versions) are left out.
pub record StageReceipt : Type 0 where
  pub table : String
  pub staged : Bool
  pub update_id : String
  pub parquet_sha256 : String
  pub row_count : ℕ
  pub staging_table : Option String
  pub marker_update_id_at_stage_time : Option String

abbrev pub stage_values : String → File → Row
stage_values name file =
    ("table_name", text name)
    ∷ ("update_id", text file.update_id)
    ∷ ("parquet_sha256", text file.parquet_sha256)
    ∷ ("row_count", number file.row_count)
    ∷ []

abbrev pub receipt_of : String → File → Option Row → ℕ → Bool → StageReceipt
receipt_of name file marker rows staged = record {
  table = name;
  staged = staged;
  update_id = file.update_id;
  parquet_sha256 = file.parquet_sha256;
  row_count = rows;
  staging_table = if staged then some (staging_name name) else none;
  marker_update_id_at_stage_time = text_in "update_id" marker;
}

module _ (S : Server) where
  -- The marker's version is the file's, and the relation is there.
  abbrev pub at_version : MarkerTable → String → String → File → S.State → Bool
  at_version m name relation file s =
      same_option (text_in "update_id" (fetch_one S m name s)) (some file.update_id)
      && has_table S (plain relation) s

  abbrev pub published_now : String → File → S.State → Bool
  published_now name = at_version table_updates name name

  abbrev pub staged_now : String → File → S.State → Bool
  staged_now name = at_version staged_updates name (staging_name name)

  unfoldable pub is_current : String → File → S.State → Bool
  is_current name file s = published_now name file s || staged_now name file s

  -- The transaction that replaces the staging table.
  unfoldable pub load_staging : String → File → Exec S.State Unit
  load_staging name file = begin S (do
    exists ← gets (has_table S (plain (staging_name name)))
    when exists (execute S (drop table (plain (staging_name name))))
    execute S (create_empty (plain (staging_name name)))
    execute S (load_rows (plain (staging_name name)) file.row_count)
    upsert_by_pk S staged_updates name (stage_values name file) (some "staged_at"))

  -- With the live marker at hand: nothing is left to do, or the file is loaded.
  unfoldable pub stage_unless : String → File → Option Row → Exec S.State StageReceipt
  unfolding load_staging
  stage_unless name file marker = do
    live ← gets (published_now name file)
    staged ← gets (staged_now name file)
    kept ← gets (fetch_one S staged_updates name)
    if live
        then pure (receipt_of name file marker (number_in "row_count" marker) false)
        else if staged
        then pure (receipt_of name file marker (number_in "row_count" kept) true)
        else (do load_staging name file; pure (receipt_of name file marker file.row_count true))

  unfoldable pub stage_table : String → File → Exec S.State StageReceipt
  unfolding stage_unless
  stage_table name file = do
    create_all S
    marker ← gets (fetch_one S table_updates name)
    stage_unless name file marker

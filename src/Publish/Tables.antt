-- ===== src/Publish/Tables.antt =====
-- `publish_tables`: staged tables are renamed into place, all or none.
pub mod Atomic
pub mod Installs
pub mod Each
pub mod Staged
pub mod Around
pub mod Published
use snakemake_storage_plugin.Base.{
  String, Bool, true, false, not, ◌&&◌, Option, none, some, List, [], ◌∷◌, ◌++◌, ◌==◌, ◌<>◌,
  if◌then◌else◌, is_some, keep, any, ℕ, map, get_or,
}
use snakemake_storage_plugin.Sql.{
  Ref, plain, Kind, table, MarkerTable, table_updates, Row, Value, text, number, rename,
  drop_if_exists, touch_rows, analyze,
}
use snakemake_storage_plugin.Sql.Server.{Server}
use snakemake_storage_plugin.Sql.Exec.{
  Exec, SinkError, publish_conflict, execute, begin, ◌>>=◌, ◌>>◌, when, gets, raise_if, lift, pure,
  best_effort, for_each,
}
use snakemake_storage_plugin.Meta.{has_table, staging_name, create_all, advisory_lock}
use snakemake_storage_plugin.Engine.{
  Environ, apply_lock_timeout, resolve_keep_old, resolve_lock_timeout, resolve_analyze,
  upsert_by_pk,
}
use snakemake_storage_plugin.KeepOld.{Codec, park}
use snakemake_storage_plugin.Publish.{
  publish_lock_key, assert_marker_unchanged, refresh_markers, demote_published, drop_old_tables,
  analyze_relations,
}

-- The receipt of a staged table; `staged` is `status == "staged"`.
pub record Receipt : Type 0 where
  pub table : String
  pub staged : Bool
  pub update_id : String
  pub parquet_sha256 : String
  pub loader_version : Option ℕ
  pub type_map_version : Option ℕ
  pub row_count : ℕ
  pub published_by : Option String
  pub marker_update_id_at_stage_time : Option String

-- The values that `_upsert_marker` writes.
abbrev pub marker_values : Receipt → Row
marker_values r =
    ("table_name", text r.table)
    ∷ ("update_id", text r.update_id)
    ∷ ("parquet_sha256", text r.parquet_sha256)
    ∷ ("loader_version", number (get_or 1 r.loader_version))
    ∷ ("type_map_version", number (get_or 1 r.type_map_version))
    ∷ ("row_count", number r.row_count)
    ∷ ("published_by", text (get_or "pipeline" r.published_by))
    ∷ []

abbrev pub demote : Receipt → Receipt
demote r = record r { staged = false }

-- The keyword arguments of `publish_tables`.
pub record Options : Type 0 where
  pub refresh : Bool
  pub keep_old : Option Bool
  pub lock_timeout : Option String
  pub analyze : Option Bool

-- `ts` is the timestamp of the publish.
abbrev pub aside_name : String → String → String
aside_name ts table_name = table_name <> "__old__" <> ts

module _ (S : Server) (C : Codec) (ts : String) where
  -- What becomes of the live table: parked, renamed out of the way, or there is none. Returns the
  -- names to drop later.
  unfoldable pub move_aside : Bool → String → Exec S.State (List String)
  move_aside true table_name = do park S C (plain table_name) none; pure []
  move_aside false table_name = do
    exists ← gets (has_table S (plain table_name))
    if exists
        then (do
          execute S (rename table (plain table_name) (aside_name ts table_name))
          pure (aside_name ts table_name ∷ []))
        else pure []

  -- The body of the loop over the staged receipts.
  unfoldable pub publish_one : Bool → Receipt → Exec S.State (List String)
  unfolding move_aside
  publish_one keep_aside r = do
    assert_marker_unchanged S table_updates r.table r.marker_update_id_at_stage_time
    old ← move_aside keep_aside r.table
    execute S (rename table (plain (staging_name r.table)) r.table)
    upsert_by_pk S table_updates r.table (marker_values r) (some "published_at")
    pure old

  -- The loop: the published names and the names to drop.
  unfoldable pub publish_each : Bool → List Receipt → Exec S.State (List String × List String)
  unfolding publish_one
  publish_each keep_aside [] = pure ([], [])
  publish_each keep_aside (r ∷ rs) = do
    old ← publish_one keep_aside r
    (published, olds) ← publish_each keep_aside rs
    pure (r.table ∷ published, old ++ olds)

  abbrev pub demoted : List Receipt → S.State → List Receipt
  demoted =
      demote_published S (λ (r : Receipt). r.staged) demote (λ r. r.table) (λ r. r.update_id)
        table_updates "update_id" (λ r. has_table S (plain r.table))

  -- The block under the lock.
  unfoldable pub publish_block :
      Bool → Bool → List Receipt → Exec S.State (List String × List String)
  unfolding publish_each
  publish_block refresh keep_aside receipts = do
    receipts' ← gets (demoted receipts)
    done ← publish_each keep_aside (keep (λ r. r.staged) receipts')
    when refresh (refresh_markers S table_updates (map (λ r. r.table) receipts'))
    pure done

  unfoldable pub publish_transaction :
      Environ
      → Bool
      → Bool
      → Option (List ℕ)
      → List Receipt
      → Exec S.State (List String × List String)
  unfolding publish_block
  publish_transaction environ refresh keep_aside lock_timeout receipts = begin S (do
    apply_lock_timeout S environ lock_timeout
    advisory_lock S publish_lock_key (publish_block refresh keep_aside receipts))

  -- After the early return.
  unfoldable pub publish_now : Environ → Options → List Receipt → Exec S.State (List String)
  unfolding publish_transaction
  publish_now environ o receipts = do
    let keep_aside = resolve_keep_old o.keep_old environ
    lock_timeout ← lift (resolve_lock_timeout o.lock_timeout environ)
    do_analyze ← lift (resolve_analyze o.analyze environ)
    create_all S
    (published, old_names) ← publish_transaction environ o.refresh keep_aside lock_timeout receipts
    when do_analyze (analyze_relations S environ lock_timeout (map plain published))
    drop_old_tables S environ lock_timeout (map plain old_names)
    pure published

  unfoldable pub publish_tables : Environ → Options → List Receipt → Exec S.State (List String)
  unfolding publish_now any
  publish_tables environ o receipts =
      if not (any (λ r. r.staged) receipts) && not o.refresh
      then pure []
      else publish_now environ o receipts

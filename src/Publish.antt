-- ===== src/Publish.antt =====
-- workflow/scripts/sqlsink/publish.py: what the publication of tables and of datasets share.
pub mod Receipts
pub mod Swap
pub mod Tables
pub mod Steps
pub mod Datasets
pub mod Merge
mod Tests
use snakemake_storage_plugin.Base.{
  String, Bool, true, false, not, ◌&&◌, ◌||◌, Option, none, some, List, [], ◌∷◌, ◌==◌, ◌<>◌,
  if◌then◌else◌, is_some, keep, ℕ, map,
}
use snakemake_storage_plugin.Sql.{
  Ref, ref_in, Kind, table, MarkerTable, Row, Value, text, Statement, rename, drop_if_exists,
  touch_rows, analyze,
}
use snakemake_storage_plugin.Sql.Server.{Server}
use snakemake_storage_plugin.Sql.Effect.{text_in, same_option, column, Catalog, Markers}
use snakemake_storage_plugin.Sql.Exec.{
  Exec, SinkError, publish_conflict, execute, begin, ◌>>=◌, ◌>>◌, when, gets, raise_if, pure,
  best_effort, for_each,
}
use snakemake_storage_plugin.Meta.{has_table}
use snakemake_storage_plugin.Engine.{Environ, apply_lock_timeout}

abbrev pub publish_lock_key : String
publish_lock_key = "snakemake_sql:publish_tables"

-- The test of `_assert_…_marker_unchanged_since_staging`: `current is not None and current != staged_from`.
abbrev pub changed_since : Option String → Option String → Bool
changed_since none staged_from = false
changed_since (some current) staged_from = not (same_option (some current) staged_from)

-- The set `seen` of `_analyze_relations`: the first of equal references stays.
unfoldable pub distinct_refs : List Ref → List Ref → List Ref
distinct_refs seen [] = []
distinct_refs seen (r ∷ rs) =
    let rest = distinct_refs seen rs in
    let after = distinct_refs (r ∷ seen) rs in if ref_in r seen then rest else r ∷ after

module _ (S : Server) where
  -- The `update_id` (or another column) of a marker row.
  abbrev pub version_of : MarkerTable → String → String → S.State → Option String
  version_of t col key s = text_in col (S.marker s t key)

  unfoldable pub assert_marker_unchanged : MarkerTable → String → Option String → Exec S.State Unit
  assert_marker_unchanged t key staged_from = do
    current ← gets (version_of t "update_id" key)
    raise_if (changed_since current staged_from) (publish_conflict key)

  unfoldable pub refresh_markers : MarkerTable → List String → Exec S.State Unit
  refresh_markers t [] = pure tt
  refresh_markers t (n ∷ names) = execute S (touch_rows t (n ∷ names))

  -- `_demote_published` for receipts of type `R`: `staged` is `status == "staged"`, `demote` is
  -- `dict(r, status="current")`. The versions are read once, before the receipts are rewritten.
  module _ {R : Type 0} (staged : R → Bool) (demote : R → R) (key version : R → String)
      (t : MarkerTable) (version_col : String) (live_exists : R → S.State → Bool) where
    abbrev pub is_published : S.State → R → Bool
    is_published s r =
        staged r
        && (same_option (version_of t version_col (key r) s) (some (version r)) && live_exists r s)

    unfoldable pub demote_published : List R → S.State → List R
    demote_published receipts s = map (λ r. if is_published s r then demote r else r) receipts

  -- A statement in its own transaction, with the lock timeout, its failure logged.
  unfoldable pub attempt : Environ → Option (List ℕ) → Statement → Exec S.State Unit
  unfolding apply_lock_timeout best_effort
  attempt environ lock_timeout q =
      best_effort (begin S (do apply_lock_timeout S environ lock_timeout; execute S q))

  -- `_drop_old_tables` and `_drop_old_tables_qualified` on their list of leftovers.
  unfoldable pub drop_old_tables : Environ → Option (List ℕ) → List Ref → Exec S.State Unit
  unfolding attempt for_each
  drop_old_tables environ lock_timeout =
      for_each (λ r. attempt environ lock_timeout (drop_if_exists table r))

  -- `_analyze_relations` on PostgreSQL. A relation that stands twice in the list is analyzed once.
  unfoldable pub analyze_relations : Environ → Option (List ℕ) → List Ref → Exec S.State Unit
  unfolding attempt for_each
  analyze_relations environ lock_timeout refs =
      when S.is_postgresql
        (for_each (λ r. attempt environ lock_timeout (analyze r)) (distinct_refs [] refs))

-- ===== src/Publish/Datasets.antt =====
-- `publish_datasets`: staged components, contours and datasets are put into place, all or none.
pub mod Atomic
pub mod Inside
pub mod Dependents
pub mod Components
pub mod Vouches
mod Tests
use mathlib.Core.List.{reverse}
use snakemake_storage_plugin.Base.{
  String, Bool, true, false, not, ◌&&◌, ◌||◌, Option, none, some, List, [], ◌∷◌, is_some, keep, any,
  if◌then◌else◌, ℕ, map, ◌++◌,
}
use snakemake_storage_plugin.Base.Dict.{lookup, dict_of, keys, values}
use snakemake_storage_plugin.Sql.{Ref, plain, dataset_updates, contour_updates, component_updates}
use snakemake_storage_plugin.Sql.Server.{Server}
use snakemake_storage_plugin.Sql.Exec.{
  Exec, SinkError, key_error, execute, begin, ◌>>=◌, ◌>>◌, when, gets, raise, lift, pure,
}
use snakemake_storage_plugin.Meta.{
  has_table, staging_name, compact_table_name, physical_name_and_schema, create_all, advisory_lock,
}
use snakemake_storage_plugin.Engine.{
  Environ, apply_lock_timeout, resolve_keep_old, resolve_lock_timeout, resolve_analyze,
  upsert_by_pk,
}
use snakemake_storage_plugin.KeepOld.{Codec}
use snakemake_storage_plugin.Manifest.{Manifest}
use snakemake_storage_plugin.Publish.{
  publish_lock_key, assert_marker_unchanged, refresh_markers, demote_published, drop_old_tables,
  analyze_relations,
}
use snakemake_storage_plugin.Publish.Receipts.{
  ContourReceipt, ComponentReceipt, Contents, compact, over, DatasetReceipt, is_view,
  demote_contour, demote_component, demote_dataset, place, compact_dataset_values,
  view_dataset_values,
}
use snakemake_storage_plugin.Publish.Swap.{
  Pending, no_pending, both, collect_each, rename_swap_physical, replace_public_relation,
  replace_compatibility_view,
}
use snakemake_storage_plugin.Publish.Steps.{
  flat_of, manifest_by_name, v2_by_name, contour_schema, get_item, Request,
  assert_keyed_dependents_restaged, assert_view_dependents_restaged, assert_components_live,
  write_links, swap_component, swap_contour,
}
use snakemake_storage_plugin.Publish.Tables.{Options}

abbrev pub staged_contours : Request → List (String × ContourReceipt)
staged_contours q = dict_of (λ r. r.contour_table) (λ r. r) (keep (λ r. r.staged) q.contours)

abbrev pub staged_components : Request → List (String × ComponentReceipt)
staged_components q = dict_of (λ r. r.component) (λ r. r) (keep (λ r. r.staged) q.components)

abbrev pub staged_datasets : Request → List DatasetReceipt
staged_datasets q = keep (λ r. r.staged && not (is_view r)) q.datasets

abbrev pub staged_views : Request → List DatasetReceipt
staged_views q = keep (λ r. r.staged && is_view r) q.datasets

-- The names in `published`.
abbrev pub published_names : Request → List String
published_names q =
    map (λ r. r.dataset) (staged_datasets q) ++ map (λ r. r.dataset) (staged_views q)

abbrev pub any_staged : Request → Bool
any_staged q =
    any (λ r. r.staged) q.contours
    || (any (λ r. r.staged) q.components || any (λ r. r.staged) q.datasets)

module _ (S : Server) (C : Codec) (ts : String) where
  -- The loops over `staged_datasets` and `staged_views`.
  unfoldable pub publish_compact :
      List Manifest → Bool → DatasetReceipt → String → String → Exec S.State Pending
  publish_compact manifests aside r fact_sha256 contour_sha256 = do
    manifest ← get_item (lookup r.dataset (manifest_by_name manifests))
    assert_marker_unchanged S dataset_updates r.dataset r.marker_update_id_at_stage_time
    let bare = compact_table_name r.dataset
    facts ← rename_swap_physical S C ts aside bare manifest.compact_schema (staging_name bare)
    view ← replace_compatibility_view S C ts aside r.dataset r.view_sql
    upsert_by_pk S dataset_updates r.dataset (compact_dataset_values fact_sha256 contour_sha256 r)
        (some "published_at")
    pure (both facts view)

  unfoldable pub publish_view :
      Bool → DatasetReceipt → List (String × String) → String → String → Exec S.State Pending
  unfolding write_links
  publish_view aside r components components_digest materialize = do
    assert_marker_unchanged S dataset_updates r.dataset r.marker_update_id_at_stage_time
    assert_components_live S C ts r.dataset components
    done ← replace_public_relation S C ts aside r.dataset r.view_sql materialize
    upsert_by_pk S dataset_updates r.dataset (view_dataset_values components_digest r)
        (some "published_at")
    write_links S C ts r.dataset materialize components
    pure done

  unfoldable pub publish_dataset : List Manifest → Bool → DatasetReceipt → Exec S.State Pending
  unfolding publish_compact publish_view
  publish_dataset manifests aside r = elim r.contents [
    | compact fact_sha256 contour_sha256 ↦
        publish_compact manifests aside r fact_sha256 contour_sha256
    | over components digest materialize ↦ publish_view aside r components digest materialize
  ]

  abbrev contour_exists : List Manifest → ContourReceipt → S.State → Bool
  contour_exists manifests r s = elim (lookup r.contour_table (contour_schema manifests)) [
    | none ↦ true
    | some schema ↦ has_table S (physical_name_and_schema r.contour_table schema) s
  ]

  -- The receipts as they are after `_demote_published`.
  unfoldable pub demoted : Request → S.State → Request
  unfolding demote_published
  demoted q s = record q {
    contours =
        demote_published S (λ r. r.staged) demote_contour (λ r. r.contour_table)
          (λ r. r.contour_sha256) contour_updates "contour_sha256" (contour_exists q.manifests)
          q.contours s;
    components =
        demote_published S (λ r. r.staged) demote_component (λ r. r.component) (λ r. r.update_id)
          component_updates "update_id" (λ r. has_table S (place r)) q.components s;
    datasets =
        demote_published S (λ r. r.staged) demote_dataset (λ r. r.dataset) (λ r. r.update_id)
          dataset_updates "update_id" (λ r. has_table S (plain r.dataset)) q.datasets s;
  }

  unfoldable pub assert_dependents : Request → Exec S.State Unit
  assert_dependents q = do
    assert_keyed_dependents_restaged (flat_of q.manifests) (staged_contours q) (staged_datasets q)
    assert_view_dependents_restaged S C ts (v2_by_name q.manifests) (keys (staged_components q))
        (map (λ r. r.dataset) (staged_views q))

  unfoldable pub swap_all : Bool → Request → Exec S.State Pending
  unfolding collect_each
  swap_all aside q = do
    components ← collect_each (swap_component S C ts aside) (values (staged_components q))
    contours ← collect_each (swap_contour S C ts q.manifests aside) (values (staged_contours q))
    flats ← collect_each (publish_dataset q.manifests aside) (staged_datasets q)
    views ← collect_each (publish_dataset q.manifests aside) (staged_views q)
    pure (both (both components contours) (both flats views))

  unfoldable pub refresh_all : Request → Exec S.State Unit
  refresh_all q = do
    refresh_markers S contour_updates (map (λ r. r.contour_table) q.contours)
    refresh_markers S component_updates (map (λ r. r.component) q.components)
    refresh_markers S dataset_updates (map (λ r. r.dataset) q.datasets)

  -- The block under the lock.
  unfoldable pub datasets_block : Bool → Bool → Request → Exec S.State (List String × Pending)
  unfolding swap_all refresh_all assert_dependents
  datasets_block refresh aside q = do
    q' ← gets (demoted q)
    assert_dependents q'
    done ← swap_all aside q'
    when refresh (refresh_all q')
    pure (published_names q', done)

  unfoldable pub datasets_transaction :
      Environ → Bool → Bool → Option (List ℕ) → Request → Exec S.State (List String × Pending)
  unfolding datasets_block
  datasets_transaction environ refresh aside lock_timeout q = begin S (do
    apply_lock_timeout S environ lock_timeout
    advisory_lock S publish_lock_key (datasets_block refresh aside q))

  unfoldable pub publish_datasets_now : Environ → Options → Request → Exec S.State (List String)
  unfolding datasets_transaction
  publish_datasets_now environ o q = do
    let aside = resolve_keep_old o.keep_old environ
    lock_timeout ← lift (resolve_lock_timeout o.lock_timeout environ)
    do_analyze ← lift (resolve_analyze o.analyze environ)
    create_all S
    (published, pending) ← datasets_transaction environ o.refresh aside lock_timeout q
    when do_analyze (analyze_relations S environ lock_timeout pending.fresh)
    drop_old_tables S environ lock_timeout (reverse pending.old_physical)
    pure published

  unfoldable pub publish_datasets : Environ → Options → Request → Exec S.State (List String)
  unfolding publish_datasets_now
  publish_datasets environ o q =
      if not o.refresh && not (any_staged q) then pure [] else publish_datasets_now environ o q

-- ===== src/Publish/Datasets/Tests.antt =====
-- A component is swapped together with the dataset over it.
use snakemake_storage_plugin.Base.{
  Bool, ◌&&◌, arith, ◌≡◌, refl, ◌==◌, String, true, false, none, some, List, [], ◌∷◌, Memᴰ, ℕ, any,
  keep, contains, if◌then◌else◌,
}
use snakemake_storage_plugin.Base.Result.{Result, ok, err}
use snakemake_storage_plugin.Base.Dict.{lookup, insert, insert_all}
use snakemake_storage_plugin.Sql.{
  plain, Ref, same_ref, table, view, loaded, defined, Relation, Link, component_updates, text,
}
use snakemake_storage_plugin.Sql.Effect.{is_marker_name, column, same_option, has_link}
use snakemake_storage_plugin.Sql.Memory.{Memory, memory, memory-IsServer}
use snakemake_storage_plugin.Sql.Exec.{
  SinkError, publish_conflict, execute, begin, best_effort, for_each, ◌>>=◌,
}
use snakemake_storage_plugin.Meta.{create_all, advisory_lock, physical_name_and_schema}
use snakemake_storage_plugin.Engine.{
  Environ, apply_lock_timeout, resolve_keep_old, resolve_lock_timeout, resolve_analyze,
  upsert_by_pk,
}
use snakemake_storage_plugin.KeepOld.{Codec, kind_of}
use snakemake_storage_plugin.Manifest.{v2, Component, DatasetV2}
use snakemake_storage_plugin.Publish.{
  version_of, assert_marker_unchanged, refresh_markers, demote_published, attempt, drop_old_tables,
  analyze_relations,
}
use snakemake_storage_plugin.Publish.Merge.{
  HasStaged, merge_with, merge_into, merge_component_receipts, merge_component_receipts_staged,
}
use snakemake_storage_plugin.Publish.Tables.{Options}
use snakemake_storage_plugin.Publish.Receipts.{ComponentReceipt, DatasetReceipt, over}
use snakemake_storage_plugin.Publish.Swap.{
  collect_each, rename_swap_physical, set_live_aside, replace_public_relation, clear_public,
}
use snakemake_storage_plugin.Publish.Steps.{
  Request, assert_keyed_dependents_restaged, assert_view_dependents_restaged,
  assert_components_live, write_links, swap_component,
}
use snakemake_storage_plugin.Publish.Datasets.{
  demoted, assert_dependents, swap_all, refresh_all, datasets_block, datasets_transaction,
  publish_datasets_now, publish_datasets, publish_dataset, publish_view,
}
use snakemake_storage_plugin.Publish.Datasets.Atomic.{publish_datasets_atomic}
use snakemake_storage_plugin.Publish.Datasets.Dependents.{publish_datasets_restages}
use snakemake_storage_plugin.Publish.Datasets.Vouches.{publish_datasets_vouches}

abbrev silent : Codec
silent = record { dumps = λ k g. "{}"; loads = λ t. []; upper = λ t. t }

abbrev no_environ : Environ
no_environ name = none

abbrev defaults : Options
defaults = record { refresh = true; keep_old = none; lock_timeout = none; analyze = none }

abbrev dim : Component
dim = record {
  name = "dim";
  kind = "dimension";
  primary_key = "id" ∷ [];
  source = none;
  source_table = none;
  priority = none;
  columns = none;
  schema = none;
}

abbrev sales : DatasetV2
sales = record {
  name = "sales";
  components = dim ∷ [];
  base = none;
  joins = [];
  select = [];
  view_sql = ("default", "SELECT 1") ∷ [];
  materialize = "view";
  storage_schema = "analytics_storage";
}

abbrev dim_receipt : ComponentReceipt
dim_receipt = record {
  component = "dim";
  schema = "analytics_storage";
  staged = true;
  update_id = "d2";
  source_sha256 = "ab";
  row_count = 3;
  marker_update_id_at_stage_time = some "d1";
}

abbrev sales_receipt : DatasetReceipt
sales_receipt = record {
  dataset = "sales";
  staged = true;
  contents = over (("dim", "d2") ∷ []) "cd" "view";
  view_sql = "SELECT 1";
  update_id = "s2";
  manifest_hash = "ef";
  loader_version = none;
  type_map_version = none;
  row_count = 3;
  published_by = none;
  marker_update_id_at_stage_time = none;
}

abbrev sales_request : Request
sales_request = record {
  manifests = v2 sales ∷ [];
  datasets = sales_receipt ∷ [];
  contours = [];
  components = dim_receipt ∷ [];
}

abbrev in_storage : String → Ref
in_storage name = physical_name_and_schema name "analytics_storage"

abbrev sales_link : Link
sales_link = record { dataset = "sales"; component = "dim"; update_id = "d1"; materialize = "view" }

abbrev load_of : ℕ → Relation
load_of n = record { kind = table; body = loaded n; comment = none; grants = [] }

-- `dim` is live at the given version under the view `sales`, and its replacement is staged.
abbrev live_at : String → Memory
live_at version = record {
  catalog = λ r.
      if same_ref (in_storage "dim") r
      then some (load_of 2)
      else if same_ref (in_storage "stg__dim") r
      then some (load_of 3)
      else if same_ref (plain "sales") r
      then some (record { kind = view; body = defined "SELECT 0"; comment = none; grants = [] })
      else none;
  rows = λ m k. elim m [
    | component_updates ↦ if k == "dim" then some (("update_id", text version) ∷ []) else none
    | _ ↦ none
  ];
  links = sales_link ∷ [];
}

abbrev publish_from : String → Result SinkError (List String) × Memory
publish_from version =
    publish_datasets memory silent "20260101" no_environ defaults sales_request (live_at version)

published_d2 : publish_from "d1" ≡ (ok ("sales" ∷ []), (publish_from "d1").1)
unfolding publish_datasets publish_datasets_now resolve_lock_timeout resolve_analyze create_all
    begin advisory_lock execute ◌>>=◌ datasets_transaction datasets_block demote_published demoted
    assert_dependents assert_keyed_dependents_restaged assert_view_dependents_restaged swap_all
    collect_each swap_component rename_swap_physical set_live_aside publish_dataset publish_view
    assert_components_live replace_public_relation clear_public kind_of write_links refresh_all
    assert_marker_unchanged column upsert_by_pk refresh_markers analyze_relations drop_old_tables
    for_each attempt best_effort apply_lock_timeout keep any resolve_keep_old insert_all insert
    lookup contains
published_d2 = refl

conflict_d9 : publish_from "d9" ≡ (err (publish_conflict "dim"), (publish_from "d9").1)
unfolding publish_datasets publish_datasets_now resolve_lock_timeout resolve_analyze create_all
    begin advisory_lock execute ◌>>=◌ datasets_transaction datasets_block demote_published demoted
    assert_dependents assert_keyed_dependents_restaged assert_view_dependents_restaged swap_all
    collect_each swap_component rename_swap_physical set_live_aside publish_dataset publish_view
    assert_components_live replace_public_relation clear_public kind_of write_links refresh_all
    assert_marker_unchanged column upsert_by_pk refresh_markers analyze_relations drop_old_tables
    for_each attempt best_effort apply_lock_timeout keep any resolve_keep_old insert_all insert
    lookup contains
conflict_d9 = refl

dim_unmarked : is_marker_name "dim" ≡ false
unfolding contains
dim_unmarked = refl

publish_datasets_atomic_example :
    (memory.relation (publish_from "d9").1 (in_storage "dim")
      ≡ memory.relation (live_at "d9") (in_storage "dim"))
    × (memory.marker (publish_from "d9").1 component_updates "dim"
        ≡ memory.marker (live_at "d9") component_updates "dim")
    × (has_link (memory.link_rows (publish_from "d9").1) sales_link
        ≡ has_link (memory.link_rows (live_at "d9")) sales_link)
publish_datasets_atomic_example =
    publish_datasets_atomic memory memory-IsServer silent "20260101" no_environ defaults
      sales_request (live_at "d9") ((publish_from "d9").1) (publish_conflict "dim") conflict_d9
      (in_storage "dim") dim_unmarked component_updates "dim" sales_link

dim_unlive :
    same_option (version_of memory component_updates "update_id" "dim" (live_at "d1")) (some "d2")
    ≡ false
unfolding column
dim_unlive = refl

not_both : (a b : Bool) → a ≡ false → (a && b) ≡ false
not_both a b h = ground arith

was_linked : has_link (memory.link_rows (live_at "d1")) sales_link ≡ true
unfolding any
was_linked = refl

publish_datasets_restages_example : Memᴰ {A = String} "sales" ("sales" ∷ [])
unfolding contains
publish_datasets_restages_example =
    publish_datasets_restages memory memory-IsServer silent "20260101" no_environ defaults
      sales_request (live_at "d1") ((publish_from "d1").1) ("sales" ∷ []) published_d2 dim_receipt
      (Memᴰ.head refl) refl refl (not_both _ _ dim_unlive) sales_link refl was_linked

publish_datasets_vouches_example :
    version_of memory component_updates "update_id" "dim" (publish_from "d1").1 ≡ some "d2"
unfolding contains
publish_datasets_vouches_example =
    publish_datasets_vouches memory memory-IsServer silent "20260101" no_environ defaults
      sales_request (live_at "d1") ((publish_from "d1").1) ("sales" ∷ []) published_d2 sales_receipt
      (Memᴰ.head refl) refl refl refl (("dim", "d2") ∷ []) "cd" "view" refl "dim" "d2"
      (Memᴰ.head refl)

-- The receipts of two datasets that share `dim`, which only one of them staged.
abbrev shared_receipts : List ComponentReceipt
shared_receipts = record dim_receipt { staged = false; update_id = "d1" } ∷ dim_receipt ∷ []

shared_merged : merge_component_receipts shared_receipts ≡ ok (("dim", dim_receipt) ∷ [])
unfolding merge_component_receipts merge_into merge_with lookup insert
shared_merged = refl

merge_component_receipts_staged_example : HasStaged "dim" "d2" (("dim", dim_receipt) ∷ [])
merge_component_receipts_staged_example =
    merge_component_receipts_staged shared_receipts (("dim", dim_receipt) ∷ []) shared_merged
      dim_receipt (Memᴰ.tail (Memᴰ.head refl)) refl

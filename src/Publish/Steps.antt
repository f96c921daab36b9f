-- ===== src/Publish/Steps.antt =====
-- `publish_datasets`: the dictionaries that it builds, its guards, and the swap of a component or a
-- contour.
use Prim.Native.Nat.{Ordering}
use Prim.Native.String.{compare}
use snakemake_storage_plugin.Base.{
  is_empty, String, Bool, not, ◌&&◌, Option, none, some, List, [], ◌∷◌, ◌++◌, is_some, keep, any,
  map, contains,
}
use snakemake_storage_plugin.Base.Dict.{lookup, dict_of, keys, values}
use snakemake_storage_plugin.Sql.{
  contour_updates, component_updates, Link, delete_links, insert_link,
}
use snakemake_storage_plugin.Sql.Effect.{same_option}
use snakemake_storage_plugin.Sql.Server.{Server}
use snakemake_storage_plugin.Sql.Exec.{
  Exec, publish_conflict, key_error, execute, ◌>>=◌, ◌>>◌, when, gets, raise, raise_if, pure,
  for_each,
}
use snakemake_storage_plugin.Meta.{staging_name}
use snakemake_storage_plugin.Engine.{upsert_by_pk}
use snakemake_storage_plugin.KeepOld.{Codec}
use snakemake_storage_plugin.Manifest.{
  Manifest, v1, v2, DatasetMaterialization, DatasetV2, zone_table, component_names,
}
use snakemake_storage_plugin.Publish.{version_of, assert_marker_unchanged}
use snakemake_storage_plugin.Publish.Receipts.{
  ContourReceipt, ComponentReceipt, DatasetReceipt, contour_values, component_values,
}
use snakemake_storage_plugin.Publish.Swap.{Pending, no_pending, both, rename_swap_physical}

abbrev pub flat_of : List Manifest → List DatasetMaterialization
flat_of [] = []
flat_of (v1 m ∷ ms) = m ∷ flat_of ms
flat_of (v2 m ∷ ms) = flat_of ms

abbrev views_of : List Manifest → List DatasetV2
views_of [] = []
views_of (v1 m ∷ ms) = views_of ms
views_of (v2 m ∷ ms) = m ∷ views_of ms

-- The dictionaries that the function reads the manifests into.
abbrev pub manifest_by_name : List Manifest → List (String × DatasetMaterialization)
manifest_by_name ms = dict_of (λ m. m.name) (λ m. m) (flat_of ms)

abbrev pub v2_by_name : List Manifest → List (String × DatasetV2)
v2_by_name ms = dict_of (λ m. m.name) (λ m. m) (views_of ms)

abbrev pub contour_schema : List Manifest → List (String × String)
contour_schema ms = dict_of (λ m. m.contour_table) (λ m. m.compact_schema) (flat_of ms)

abbrev pub zone_tables : List Manifest → List (String × String)
zone_tables ms = dict_of (λ m. m.contour_table) zone_table (keep (λ m. m.keyed) (flat_of ms))

-- `sorted(names)[0]`, where the first name is `n`.
unfoldable pub least : String → List String → String
least n [] = n
least n (m ∷ ms) = elim (compare m n) [ Ordering.lt ↦ least m ms | _ ↦ least n ms ]

abbrev pub without : List String → List String → List String
without taken names = keep (λ n. not (contains n taken)) names

-- `d[key]`
abbrev pub get_item : {V : Type 0} → Option V → {T : Type 0} → Exec T V
get_item none = raise key_error
get_item (some v) = pure v

-- What one call is given.
pub record Request : Type 0 where
  pub manifests : List Manifest
  pub datasets : List DatasetReceipt
  pub contours : List ContourReceipt
  pub components : List ComponentReceipt

-- `for name in sorted(names): raise PublishConflict(…)`
abbrev pub refuse : {T : Type 0} → List String → Exec T Unit
refuse [] = pure tt
refuse (n ∷ ns) = raise (publish_conflict (least n ns))

abbrev pub is_stranded :
    List (String × ContourReceipt) → List DatasetReceipt → DatasetMaterialization → Bool
is_stranded staged_contours staged_datasets m =
    m.keyed
    && (is_some (lookup m.contour_table staged_contours)
        && not (contains m.name (map (λ r. r.dataset) staged_datasets)))

unfoldable pub assert_keyed_dependents_restaged :
    {T : Type 0}
    → List DatasetMaterialization
    → List (String × ContourReceipt)
    → List DatasetReceipt
    → Exec T Unit
unfolding for_each
assert_keyed_dependents_restaged ms staged_contours staged_datasets =
    for_each
      (λ m. raise_if (is_stranded staged_contours staged_datasets m) (publish_conflict m.name)) ms

-- The declared and the recorded datasets that read one of the swapped components.
abbrev pub declared_over : List String → List DatasetV2 → List String
declared_over swapped ms =
    map (λ m. m.name) (keep (λ m. any (λ c. contains c swapped) (component_names m)) ms)

abbrev pub recorded_over : List String → List Link → List String
recorded_over swapped rows = map (λ l. l.dataset) (keep (λ l. contains l.component swapped) rows)

module _ (S : Server) (C : Codec) (ts : String) where
  unfoldable pub assert_view_dependents_restaged :
      List (String × DatasetV2) → List String → List String → Exec S.State Unit
  assert_view_dependents_restaged by_name swapped restaged = do
    refuse (without (keys by_name) restaged)
    when (not (is_empty swapped)) (do
      rows ← gets S.link_rows
      refuse
          (without restaged (declared_over swapped (values by_name) ++ recorded_over swapped rows)))

  unfoldable pub assert_components_live : String → List (String × String) → Exec S.State Unit
  unfolding for_each
  assert_components_live dataset = for_each λ (name, update_id). do
    live ← gets (version_of S component_updates "update_id" name)
    raise_if (not (same_option live (some update_id))) (publish_conflict dataset)

  unfoldable pub write_links : String → String → List (String × String) → Exec S.State Unit
  unfolding for_each
  write_links dataset materialize components = do
    execute S (delete_links (dataset ∷ []))
    for_each
        (λ (component, update_id). execute S (
          insert_link (record {
            dataset = dataset;
            component = component;
            update_id = update_id;
            materialize = materialize;
          })))
        components

  unfoldable pub swap_component : Bool → ComponentReceipt → Exec S.State Pending
  unfolding rename_swap_physical
  swap_component aside r = do
    assert_marker_unchanged S component_updates r.component r.marker_update_id_at_stage_time
    done ← rename_swap_physical S C ts aside r.component r.schema (staging_name r.component)
    upsert_by_pk S component_updates r.component (component_values r) (some "published_at")
    pure done

  unfoldable pub swap_zone : Bool → String → Option String → Exec S.State Pending
  swap_zone aside schema none = pure no_pending
  swap_zone aside schema (some zone) =
      rename_swap_physical S C ts aside zone schema (staging_name zone)

  unfoldable pub swap_contour : List Manifest → Bool → ContourReceipt → Exec S.State Pending
  unfolding swap_zone
  swap_contour manifests aside r = do
    schema ← get_item (lookup r.contour_table (contour_schema manifests))
    zone ← swap_zone aside schema (lookup r.contour_table (zone_tables manifests))
    done ← rename_swap_physical S C ts aside r.contour_table schema (staging_name r.contour_table)
    upsert_by_pk S contour_updates r.contour_table (contour_values r) (some "published_at")
    pure (both zone done)

-- ===== src/Publish/Datasets/Components.antt =====
-- The rows of the components, which the publish of a dataset leaves alone and refreshes at most.
use snakemake_storage_plugin.Base.{
  ◌≡◌, refl, ap, ◌∙◌, Bool, true, false, ◌&&◌, String, Option, none, some, List, [], ◌∷◌, ℕ,
  contains, if◌then◌else◌,
}
use snakemake_storage_plugin.Sql.{MarkerTable, dataset_updates, component_updates, Row, touch_rows}
use snakemake_storage_plugin.Sql.Effect.{column, text_in, touch_row, same_marker_table}
use snakemake_storage_plugin.Sql.Server.{Server, IsServer}
use snakemake_storage_plugin.Sql.Keeps.{
  Keeps, Keeps-pure, Keeps-gets, Keeps-bind, Keeps-raise_if, Keeps-for_each, Keeps-execute,
  Keeps-marker,
}
use snakemake_storage_plugin.Engine.{upsert_by_pk}
use snakemake_storage_plugin.Publish.Tables.Installs.{assert_marker_unchanged-Keeps}
use snakemake_storage_plugin.Engine.Upsert.{upsert_by_pk-Keeps}
use snakemake_storage_plugin.KeepOld.{Codec}
use snakemake_storage_plugin.Manifest.{Manifest}
use snakemake_storage_plugin.Publish.{version_of, refresh_markers}
use snakemake_storage_plugin.Publish.Receipts.{Contents, compact, over, DatasetReceipt}
use snakemake_storage_plugin.Publish.Swap.Leaves.{
  marker-Uncatalogued, rename_swap_physical-Keeps, replace_public_relation-Keeps,
  replace_compatibility_view-Keeps,
}
use snakemake_storage_plugin.Publish.Steps.{Request, get_item, assert_components_live, write_links}
use snakemake_storage_plugin.Publish.Datasets.{
  publish_compact, publish_view, publish_dataset, refresh_all,
}

module _ (S : Server) (laws : IsServer S) (C : Codec) (ts : String) where
  abbrev pub component_version : String → S.State → Option String
  component_version c = version_of S component_updates "update_id" c

  module _ (c : String) where
    abbrev row : S.State → Option Row
    row s = S.marker s component_updates c

    -- No other marker table's upsert touches a component's row.
    dataset_upsert-Keeps :
        (k : String) (values : Row) (col : Option String)
        → Keeps row (upsert_by_pk S dataset_updates k values col)
    dataset_upsert-Keeps k values col =
        upsert_by_pk-Keeps S laws row dataset_updates k values col
          (λ v. Keeps-marker S laws component_updates c _ (λ now m. refl))
          (λ v. Keeps-marker S laws component_updates c _ (λ now m. refl))
          (λ v. Keeps-marker S laws component_updates c _ (λ now m. refl))

    get_item-Keeps : {V : Type 0} (o : Option V) → Keeps row (get_item o)
    get_item-Keeps none = record { at = λ s. refl }
    get_item-Keeps (some v) = Keeps-pure row v

    publish_compact-Keeps :
        (ms : List Manifest) (b : Bool) (r : DatasetReceipt) (f z : String)
        → Keeps row (publish_compact S C ts ms b r f z)
    unfolding publish_compact
    publish_compact-Keeps ms b r f z =
        let free = marker-Uncatalogued S laws component_updates c in
        Keeps-bind row _ _ (get_item-Keeps _) λ m.
          Keeps-bind row _ _ (assert_marker_unchanged-Keeps S laws row _ _ _) λ _.
            Keeps-bind row _ _ (rename_swap_physical-Keeps S C ts row free b _ _ _) λ p.
              Keeps-bind row _ _ (replace_compatibility_view-Keeps S C ts row free b _ _)
                λ v. Keeps-bind row _ _ (dataset_upsert-Keeps _ _ _) λ _. Keeps-pure row _

    pub assert_components_live-Keeps :
        {V : Type 0} (look : S.State → V) (d : String) (cs : List (String × String))
        → Keeps look (assert_components_live S C ts d cs)
    unfolding assert_components_live
    assert_components_live-Keeps look d cs =
        Keeps-for_each look _ cs
          λ x m. Keeps-bind look _ _ (Keeps-gets look _) λ v. Keeps-raise_if look _ _

    write_links-Keeps :
        (d m : String) (cs : List (String × String)) → Keeps row (write_links S C ts d m cs)
    unfolding write_links
    write_links-Keeps d m cs =
        Keeps-bind row _ _ (Keeps-marker S laws component_updates c _ (λ now r. refl)) λ _.
          Keeps-for_each row _ cs λ x n. Keeps-marker S laws component_updates c _ (λ now r. refl)

    pub publish_view-Keeps :
        (b : Bool) (r : DatasetReceipt) (cs : List (String × String)) (d m : String)
        → Keeps row (publish_view S C ts b r cs d m)
    unfolding publish_view
    publish_view-Keeps b r cs d m =
        let free = marker-Uncatalogued S laws component_updates c in
        Keeps-bind row _ _ (assert_marker_unchanged-Keeps S laws row _ _ _) λ _.
          Keeps-bind row _ _ (assert_components_live-Keeps row _ _) λ _.
            Keeps-bind row _ _ (replace_public_relation-Keeps S C ts row free b _ _ _) λ p.
              Keeps-bind row _ _ (dataset_upsert-Keeps _ _ _)
                λ _. Keeps-bind row _ _ (write_links-Keeps _ _ _) λ _. Keeps-pure row _

    pub publish_dataset-Keeps :
        (ms : List Manifest) (b : Bool) (r : DatasetReceipt)
        → Keeps row (publish_dataset S C ts ms b r)
    unfolding publish_dataset
    publish_dataset-Keeps ms b r = by_contents r.contents
      where
        by_contents :
            (k : Contents)
            → Keeps row (elim k [
              | compact f z ↦ publish_compact S C ts ms b r f z
              | over cs d m ↦ publish_view S C ts b r cs d m
            ])
        by_contents (compact f z) = publish_compact-Keeps ms b r f z
        by_contents (over cs d m) = publish_view-Keeps b r cs d m

    refresh_markers-version :
        (m : MarkerTable) (names : List String)
        → Keeps (component_version c) (refresh_markers S m names)
    unfolding refresh_markers column
    refresh_markers-version m [] = Keeps-pure _ tt
    refresh_markers-version m (n ∷ ns) = Keeps-execute S _ (touch_rows m (n ∷ ns)) λ s t h.
        ap (text_in "update_id") (laws.marker-run (touch_rows m (n ∷ ns)) s t h component_updates c)
        ∙ touched (S.now s) (same_marker_table m component_updates && contains c (n ∷ ns)) (row s)
      where
        touched :
            (now : ℕ) (b : Bool) (o : Option Row)
            → text_in "update_id" (if b then touch_row now o else o) ≡ text_in "update_id" o
        touched now true none = refl
        touched now true (some row) = refl
        touched now false o = refl

    -- A refresh keeps the versions.
    pub refresh_all-version : (q : Request) → Keeps (component_version c) (refresh_all S C ts q)
    unfolding refresh_all
    refresh_all-version q =
        Keeps-bind _ _ _ (refresh_markers-version _ _)
          λ _. Keeps-bind _ _ _ (refresh_markers-version _ _) λ _. refresh_markers-version _ _

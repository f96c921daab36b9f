-- ===== src/Reconcile.antt =====
-- workflow/scripts/sqlsink/reconcile.py: what a complete desired state asks for, what the database
-- has, and the report of the difference. Sets are lists without repetition.
pub mod Prune
pub mod Only
pub mod Spares
mod Tests
use text.Mathlib.Text.{starts_with}
use snakemake_storage_plugin.Base.{
  String, Bool, true, false, not, ◌&&◌, ◌||◌, Option, none, some, List, [], ◌∷◌, ◌++◌, ◌==◌,
  if◌then◌else◌, has_text, contains, has_duplicate, map, any, keep, is_some,
}
use snakemake_storage_plugin.Base.Result.{Result, ok, err, ◌>>=◌, ◌>>◌, raise_if}
use snakemake_storage_plugin.Sql.{
  Ref, reference, Kind, table, view, matview, MarkerTable, table_updates, dataset_updates,
  contour_updates, component_updates, Link,
}
use snakemake_storage_plugin.Sql.Effect.{same_option, text_in}
use snakemake_storage_plugin.Sql.Server.{Server}
use snakemake_storage_plugin.Meta.{compact_table_name, staging_prefix, table_exists, has_table}
use snakemake_storage_plugin.Manifest.{
  Manifest, v1, v2, DatasetMaterialization, DatasetV2, Component, zone_table, ManifestError,
}
use snakemake_storage_plugin.Manifest.Checks.{check_manifests, names_of, schema_of}

pub data ManagedKind : Type 0 where
  plain_table dataset component : ManagedKind
  plain_marker dataset_marker contour_marker component_marker component_link : ManagedKind

abbrev pub same_managed_kind : ManagedKind → ManagedKind → Bool
same_managed_kind plain_table plain_table = true
same_managed_kind dataset dataset = true
same_managed_kind component component = true
same_managed_kind plain_marker plain_marker = true
same_managed_kind dataset_marker dataset_marker = true
same_managed_kind contour_marker contour_marker = true
same_managed_kind component_marker component_marker = true
same_managed_kind component_link component_link = true
same_managed_kind _ _ = false

pub record ManagedObject : Type 0 where
  pub kind : ManagedKind
  pub name : String
  pub schema : Option String
  pub owner : Option String

abbrev pub same_object : ManagedObject → ManagedObject → Bool
same_object a b =
    same_managed_kind a.kind b.kind
    && (a.name == b.name && (same_option a.schema b.schema && same_option a.owner b.owner))

abbrev pub among : ManagedObject → List ManagedObject → Bool
among o os = any (same_object o) os

-- The set of these objects.
unfoldable pub to_set : List ManagedObject → List ManagedObject
unfolding any
to_set [] = []
to_set (o ∷ os) = let rest = to_set os in if among o rest then rest else o ∷ rest

abbrev pub object : ManagedKind → String → Option String → Option String → ManagedObject
object kind name schema owner = record { kind = kind; name = name; schema = schema; owner = owner }

pub record DesiredState : Type 0 where
  pub manifests : List Manifest
  pub tables : List String
  pub storage_schemas : List String

pub data DesiredError : Type 0 where
  bad_manifests : ManifestError → DesiredError
  duplicate_tables table_and_dataset : DesiredError

abbrev lift_manifests : Result ManifestError Unit → Result DesiredError Unit
lift_manifests (err e) = err (bad_manifests e)
lift_manifests (ok u) = ok u

-- `DesiredState.__post_init__`
unfoldable pub check_desired : DesiredState → Result DesiredError Unit
unfolding check_manifests has_duplicate any contains
check_desired d = do
  lift_manifests (check_manifests d.manifests)
  raise_if (has_duplicate d.tables) duplicate_tables
  raise_if (any (λ t. contains t (names_of d.manifests)) d.tables) table_and_dataset
  ok tt

abbrev component_objects : DatasetV2 → Component → List ManagedObject
component_objects d c =
    object component c.name (some (schema_of d c)) none
    ∷ object component_marker c.name none none
    ∷ object component_link c.name none (some d.name)
    ∷ []

abbrev objects_of_each : DatasetV2 → List Component → List ManagedObject
objects_of_each d [] = []
objects_of_each d (c ∷ cs) = component_objects d c ++ objects_of_each d cs

abbrev pub flat_objects : DatasetMaterialization → List ManagedObject
flat_objects m =
    object component (compact_table_name m.name) (some m.compact_schema) (some m.name)
    ∷ object component m.contour_table (some m.compact_schema) none
    ∷ object contour_marker m.contour_table none none
    ∷ (if m.keyed then object component (zone_table m) (some m.compact_schema) none ∷ [] else [])

abbrev public_objects : String → String → List ManagedObject
public_objects view_schema name =
    object dataset name (some view_schema) none ∷ object dataset_marker name none none ∷ []

unfoldable pub manifest_objects : String → List Manifest → List ManagedObject
manifest_objects view_schema [] = []
manifest_objects view_schema (v1 m ∷ ms) =
    public_objects view_schema m.name ++ (flat_objects m ++ manifest_objects view_schema ms)
manifest_objects view_schema (v2 d ∷ ms) =
    public_objects view_schema d.name
    ++ (objects_of_each d d.components ++ manifest_objects view_schema ms)

abbrev table_objects : String → List String → List ManagedObject
table_objects view_schema [] = []
table_objects view_schema (t ∷ ts) =
    object plain_table t (some view_schema) none
    ∷ object plain_marker t none none
    ∷ table_objects view_schema ts

unfoldable pub desired_objects : DesiredState → String → List ManagedObject
unfolding manifest_objects to_set
desired_objects d view_schema =
    to_set (table_objects view_schema d.tables ++ manifest_objects view_schema d.manifests)

abbrev pub is_component_at : String → String → ManagedObject → Bool
is_component_at schema name o =
    same_managed_kind o.kind component && (o.name == name && same_option o.schema (some schema))

abbrev pub owner_of : String → String → List ManagedObject → Option String
owner_of schema name [] = none
owner_of schema name (o ∷ os) =
    if is_component_at schema name o then o.owner else owner_of schema name os

abbrev pub is_private : String → Bool
is_private name = starts_with name staging_prefix || has_text "__old__" name

-- The lists that SELECT and the inspector give: the keys of a marker table, the tables and views of
-- a schema, and the schemas.
pub record Listing (S : Server) : Type 0 where
  pub marker_keys : S.State → MarkerTable → List String
  pub names_in : S.State → String → List String
  pub schema_names : S.State → List String

module _ (S : Server) (listing : Listing S) where
  abbrev pub keys_of : MarkerTable → S.State → List String
  keys_of m s = if table_exists S m s then listing.marker_keys s m else []

  abbrev pub marker_objects : S.State → List ManagedObject
  marker_objects s =
      map (λ k. object plain_marker k none none) (keys_of table_updates s)
      ++ (map (λ k. object dataset_marker k none none) (keys_of dataset_updates s)
          ++ (map (λ k. object contour_marker k none none) (keys_of contour_updates s)
              ++ map (λ k. object component_marker k none none) (keys_of component_updates s)))

  abbrev pub recorded : S.State → List ManagedObject
  recorded s =
      marker_objects s
      ++ map (λ l. object component_link l.component none (some l.dataset)) (S.link_rows s)

  abbrev names_a_relation : ManagedObject → Bool
  names_a_relation o = elim o.kind [
    | plain_marker ↦ true
    | dataset_marker ↦ true
    | plain_table ↦ true
    | dataset ↦ true
    | _ ↦ false
  ]

  -- The kind that a relation of the view schema is given.
  abbrev pub public_kind : List ManagedObject → List ManagedObject → String → String → ManagedKind
  public_kind out wanted view_schema name =
      if among (object plain_table name (some view_schema) none) wanted
        || among (object plain_marker name none none) out
      then plain_table
      else dataset

  unfoldable pub public_inventory :
      List ManagedObject → List ManagedObject → String → S.State → List ManagedObject
  unfolding any keep
  public_inventory out wanted view_schema s =
      map (λ name. object (public_kind out wanted view_schema name) name (some view_schema) none)
        (keep (λ name. has_table S (reference view_schema name) s)
          (map (λ o. o.name) (keep names_a_relation (out ++ wanted))))

  unfoldable pub schema_inventory : List ManagedObject → S.State → List String → List ManagedObject
  unfolding keep has_text contains
  schema_inventory wanted s [] = []
  schema_inventory wanted s (schema ∷ schemas) =
      (if contains schema (listing.schema_names s)
        then map (λ name. object component name (some schema) (owner_of schema name wanted))
            (keep (λ name. not (is_private name)) (listing.names_in s schema))
        else [])
      ++ schema_inventory wanted s schemas

  abbrev to_list : Option String → List String
  to_list none = []
  to_list (some s) = s ∷ []

  abbrev schemas_of_rows : S.State → List String → List String
  schemas_of_rows s [] = []
  schemas_of_rows s (k ∷ ks) =
      to_list (text_in "storage_schema" (S.marker s component_updates k)) ++ schemas_of_rows s ks

  abbrev wanted_schemas : List ManagedObject → List String
  wanted_schemas [] = []
  wanted_schemas (o ∷ os) =
      (if same_managed_kind o.kind component then to_list o.schema else []) ++ wanted_schemas os

  -- `_inventory`
  unfoldable pub inventory :
      List ManagedObject → String → List String → S.State → List ManagedObject
  unfolding public_inventory schema_inventory to_set
  inventory wanted view_schema storage_schemas s = to_set (
      recorded s
      ++ (public_inventory (recorded s) wanted view_schema s
          ++ schema_inventory wanted s (
              schemas_of_rows s (keys_of component_updates s)
              ++ (wanted_schemas wanted ++ storage_schemas))))

-- ===== src/Publish/Receipts.antt =====
-- The receipts of staged datasets, contours and components, and the marker rows written from them.
use snakemake_storage_plugin.Base.{String, Bool, true, false, Option, List, [], ◌∷◌, ℕ, get_or}
use snakemake_storage_plugin.Sql.{Ref, Row, text, number}
use snakemake_storage_plugin.Meta.{physical_name_and_schema}

-- In each receipt `staged` is `status == "staged"`.
pub record ContourReceipt : Type 0 where
  pub contour_table : String
  pub staged : Bool
  pub contour_sha256 : String
  pub row_count : ℕ

pub record ComponentReceipt : Type 0 where
  pub component : String
  pub schema : String
  pub staged : Bool
  pub update_id : String
  pub source_sha256 : String
  pub row_count : ℕ
  pub marker_update_id_at_stage_time : Option String

-- What `kind` tells apart: the hashes of a compact fact table and its contours, or the components
-- (each with its version) of a v2 dataset, their digest and how it is materialized.
pub data Contents : Type 0 where
  compact : String → String → Contents
  over : List (String × String) → String → String → Contents

pub record DatasetReceipt : Type 0 where
  pub dataset : String
  pub staged : Bool
  pub contents : Contents
  pub view_sql : String
  pub update_id : String
  pub manifest_hash : String
  pub loader_version : Option ℕ
  pub type_map_version : Option ℕ
  pub row_count : ℕ
  pub published_by : Option String
  pub marker_update_id_at_stage_time : Option String

abbrev pub is_view : DatasetReceipt → Bool
is_view r = elim r.contents [ compact f c ↦ false | over cs d m ↦ true ]

abbrev pub demote_contour : ContourReceipt → ContourReceipt
demote_contour r = record r { staged = false }

abbrev pub demote_component : ComponentReceipt → ComponentReceipt
demote_component r = record r { staged = false }

abbrev pub demote_dataset : DatasetReceipt → DatasetReceipt
demote_dataset r = record r { staged = false }

abbrev pub place : ComponentReceipt → Ref
place r = physical_name_and_schema r.component r.schema

abbrev pub contour_values : ContourReceipt → Row
contour_values r =
    ("contour_table", text r.contour_table)
    ∷ ("contour_sha256", text r.contour_sha256)
    ∷ ("row_count", number r.row_count)
    ∷ []

abbrev pub component_values : ComponentReceipt → Row
component_values r =
    ("component_name", text r.component)
    ∷ ("update_id", text r.update_id)
    ∷ ("source_sha256", text r.source_sha256)
    ∷ ("storage_schema", text r.schema)
    ∷ ("row_count", number r.row_count)
    ∷ []

-- The values of `_upsert_dataset_marker` and `_upsert_view_dataset_marker`, by the two digests.
abbrev dataset_values : String → String → DatasetReceipt → Row
dataset_values fact_sha256 contour_sha256 r =
    ("dataset_name", text r.dataset)
    ∷ ("update_id", text r.update_id)
    ∷ ("manifest_hash", text r.manifest_hash)
    ∷ ("fact_sha256", text fact_sha256)
    ∷ ("contour_sha256", text contour_sha256)
    ∷ ("loader_version", number (get_or 1 r.loader_version))
    ∷ ("type_map_version", number (get_or 1 r.type_map_version))
    ∷ ("row_count", number r.row_count)
    ∷ ("published_by", text (get_or "pipeline" r.published_by))
    ∷ []

abbrev pub compact_dataset_values : String → String → DatasetReceipt → Row
compact_dataset_values fact contour = dataset_values fact contour

abbrev pub view_dataset_values : String → DatasetReceipt → Row
view_dataset_values components_digest = dataset_values components_digest "components"

-- ===== src/Planning.antt =====
-- workflow/scripts/sqlsink/planning.py: one snapshot of the markers, the relations and the grants, and
-- the checks on it.
pub mod Reads
use snakemake_storage_plugin.Base.{
  String, Bool, true, false, not, ◌&&◌, ◌||◌, Option, none, some, List, [], ◌∷◌, ℕ, contains, ◌==◌,
  is_some, all, any, if◌then◌else◌,
}
use snakemake_storage_plugin.Base.Result.{Result, ok, err}
use snakemake_storage_plugin.Sql.{
  reference, Kind, table, view, matview, MarkerTable, table_updates, staged_updates,
  dataset_updates, component_updates, contour_updates, Row, Relation, Value, text, moment,
}
use snakemake_storage_plugin.Sql.Effect.{text_in, column, same_option}
use snakemake_storage_plugin.Sql.Server.{Server}
use snakemake_storage_plugin.Sql.Exec.{SinkError, not_implemented}
use snakemake_storage_plugin.Meta.{staging_name, marker_table_name}
use snakemake_storage_plugin.Base.Dict.{lookup, insert}

-- A relation by schema and name, and a SELECT grant by role and relation. The kinds `r` and `p` are
-- `table` both, `v` is `view`, `m` is `matview`.
pub record PlanningState : Type 0 where
  pub markers : MarkerTable → String → Option Row
  pub relations : String → String → Option Kind
  pub granted : String → String → String → Bool

abbrev same_kind : Kind → Kind → Bool
same_kind table table = true
same_kind view view = true
same_kind matview matview = true
same_kind _ _ = false

abbrev pub kind_is : Option Kind → Kind → Bool
kind_is none kind = false
kind_is (some actual) kind = same_kind actual kind

module _ (st : PlanningState) where
  unfoldable pub has : String → String → Kind → Bool
  has name schema kind = kind_is (st.relations schema name) kind

  unfoldable pub table_current : String → String → Bool
  unfolding has
  table_current name update_id =
      (same_option (text_in "update_id" (st.markers table_updates name)) (some update_id)
        && has name "public" table)
      || (same_option (text_in "update_id" (st.markers staged_updates name)) (some update_id)
          && has (staging_name name) "public" table)

  unfoldable pub published_table_current : String → Bool
  unfolding has
  published_table_current name =
      is_some (st.markers table_updates name)
      && (has name "public" table
          && (not (is_some (st.markers staged_updates name))
              || same_option (text_in "update_id" (st.markers staged_updates name))
                  (text_in "update_id" (st.markers table_updates name))))

  -- A relation comes as its schema, public where none is written, and its name.
  unfoldable pub role_has_select : String → List (String × String) → Bool
  unfolding all
  role_has_select role relations = all (λ (schema, name). st.granted role schema name) relations

abbrev pub kind_in : Option Relation → Option Kind
kind_in none = none
kind_in (some r) = some r.kind

-- The column of a marker table that `MARKERS` names; contours are not in it.
abbrev pub key_column : MarkerTable → Option String
key_column table_updates = some "table_name"
key_column staged_updates = some "table_name"
key_column dataset_updates = some "dataset_name"
key_column component_updates = some "component_name"
key_column contour_updates = none

-- The columns that metadata.py declares with a time.
abbrev pub is_datetime : String → Bool
is_datetime c = c == "published_at" || c == "staged_at"

-- What the queries give: the marker tables that exist, the rows of one as JSON, in which a time is a
-- text, and the roles that have SELECT on a relation, by `aclexplode` and `acldefault`; and
-- `datetime.fromisoformat`.
pub record Queries (S : Server) : Type 0 where
  pub existing : S.State → List String
  pub json_rows : S.State → MarkerTable → List Row
  pub acl : S.State → String → String → String → Bool
  pub from_iso : String → ℕ

module _ (S : Server) (Q : Queries S) where
  abbrev pub parsed : String → Value → Value
  parsed c (text v) = if is_datetime c then moment (Q.from_iso v) else text v
  parsed c v = v

  -- The times of a JSON row are parsed.
  unfoldable pub decode : Row → Row
  decode [] = []
  decode ((c, v) ∷ row) = (c, parsed c v) ∷ decode row

  -- `marker_rows[kind][row[key]] = row` for each row; a row has its key.
  unfoldable pub read_rows : String → List Row → List (String × Row) → List (String × Row)
  unfolding decode column insert
  read_rows key [] rows = rows
  read_rows key (j ∷ js) rows = elim (text_in key (some j)) [
    | none ↦ read_rows key js rows
    | some k ↦ read_rows key js (insert k (decode j) rows)
  ]

  -- A marker table that does not exist gives no rows.
  abbrev pub read_marker : S.State → MarkerTable → Option String → String → Option Row
  read_marker s m none k = none
  read_marker s m (some key) k =
      if contains (marker_table_name m) (Q.existing s)
      then lookup k (read_rows key (Q.json_rows s m) [])
      else none

  unfoldable pub snapshot : List String → S.State → PlanningState
  unfolding any contains lookup read_rows
  snapshot roles s = record {
    markers = λ m k. read_marker s m (key_column m) k;
    relations = λ schema name. kind_in (S.relation s (reference schema name));
    granted = λ role schema name. any (λ r. r == role) roles && Q.acl s role schema name;
  }

  unfoldable pub read_planning_state : List String → S.State → Result SinkError PlanningState
  unfolding snapshot
  read_planning_state roles s =
      if S.is_postgresql then ok (snapshot roles s) else err not_implemented

-- ===== src/Manifest.antt =====
-- workflow/scripts/sqlsink/manifest.py: the joins of a v2 dataset, `DatasetV2._check_joins`.
pub mod Steps
pub mod Loop
pub mod Joins
pub mod Checks
pub mod Across
mod Tests
use snakemake_storage_plugin.Base.{
  is_empty, String, Bool, true, false, not, ◌&&◌, ◌||◌, Option, none, some, List, [], ◌∷◌, ◌++◌,
  ◌==◌, ◌<>◌, ℕ, suc, zero, if◌then◌else◌, contains, subset, length, map, any,
}
use snakemake_storage_plugin.Base.Result.{Result, ok, err, ◌>>=◌, ◌>>◌, raise_if}
use snakemake_storage_plugin.Graph.{Entity, Edge, JoinGraph, Route, RelationError, many_to_one}
use snakemake_storage_plugin.Graph.Acyclic.{join_graph}
use snakemake_storage_plugin.Graph.Choice.{path}

-- `ManifestError`, with its kinds told apart, `FanOutError`, and the errors of the graph itself.
pub data ManifestError : Type 0 where
  no_base not_yet_joined joined_twice bad_join_type no_columns unjoined_select : ManifestError
  -- of a component, a v1 dataset, and of the manifests together
  not_identifier bad_kind no_primary_key two_sources priority_elsewhere duplicate_key :
      ManifestError
  undeclared_columns column_counts no_geometry no_join_column duplicate_datasets : ManifestError
  two_schemas defined_differently collides : String → ManifestError
  unknown_component : String → ManifestError
  multiplies_rows : String → ManifestError
  bad_graph : RelationError → ManifestError
  bad_route : RelationError → ManifestError

pub record Component : Type 0 where
  pub name : String
  pub kind : String
  pub primary_key : List String
  pub source : Option String
  pub source_table : Option String
  pub priority : Option String
  pub columns : Option (List String)
  pub schema : Option String

-- `on` pairs a left column with one of the component.
pub record Join : Type 0 where
  pub component : String
  pub on : List (String × String)
  pub left : Option String
  pub join_type : String
  pub fan_out : Bool

pub record SelectItem : Type 0 where
  pub column : String
  pub component : Option String
  pub alias : Option String

pub record DatasetV2 : Type 0 where
  pub name : String
  pub components : List Component
  pub base : Option String
  pub joins : List Join
  pub select : List SelectItem
  -- dialect and SQL template
  pub view_sql : List (String × String)
  pub materialize : String
  pub storage_schema : String

-- The first form of a manifest: compact facts and a shared contour table.
pub record DatasetMaterialization : Type 0 where
  pub name : String
  pub geometry_column : String
  pub contour_table : String
  pub fact_join_columns : List String
  pub contour_join_columns : List String
  pub output_columns : List String
  pub fact_source : Option String
  pub contour_source : String
  pub compact_schema : String
  pub keyed : Bool

abbrev pub zone_table : DatasetMaterialization → String
zone_table m = m.contour_table <> "_zone"

abbrev pub component_names : DatasetV2 → List String
component_names d = map (λ (c : Component). c.name) d.components

pub data Manifest : Type 0 where
  v1 : DatasetMaterialization → Manifest
  v2 : DatasetV2 → Manifest

unfoldable pub component : List Component → String → Result ManifestError Component
component [] name = err (unknown_component name)
component (c ∷ cs) name = if c.name == name then ok c else component cs name

abbrev pub left_of : String → Option String → String
left_of base none = base
left_of base (some l) = if l == "" then base else l

abbrev pub right_columns : Join → List String
right_columns j = map (λ p. p.1) j.on

unfoldable pub covers_key : Join → Component → Bool
unfolding subset
covers_key j target =
    not (is_empty target.primary_key)
    && (subset (right_columns j) target.primary_key && subset target.primary_key (right_columns j))

-- `by_right[k]`: the left column of the last pair for k. The key is covered where this is asked.
unfoldable pub left_column : List (String × String) → String → String
unfolding any
left_column [] k = ""
left_column ((l, r) ∷ on) k =
    let later = left_column on k in
    if any (λ (_, s). s == k) on then later else if r == k then l else ""

-- The state of the loop.
pub record Joined : Type 0 where
  pub joined : List String
  pub edges : List Edge
  pub to_one : List String

abbrev pub to_edge : String → Join → Component → Edge
to_edge left j target = record {
  child = left;
  parent = target.name;
  columns = map (left_column j.on) target.primary_key;
  cardinality = many_to_one;
  nullable = false;
  name = none;
}

-- What a join adds to the state.
unfoldable pub add_join : String → Join → Component → Joined → Joined
unfolding covers_key left_column contains
add_join left j target st =
    if covers_key j target
    then record {
      joined = target.name ∷ st.joined;
      edges = st.edges ++ to_edge left j target ∷ [];
      to_one = if contains left st.to_one then target.name ∷ st.to_one else st.to_one;
    }
    else record st { joined = target.name ∷ st.joined }

unfoldable pub check_join : List Component → String → Join → Joined → Result ManifestError Joined
unfolding component add_join
check_join components base j st = do
  target ← component components j.component
  raise_if (not (contains (left_of base j.left) st.joined)) not_yet_joined
  raise_if (contains target.name st.joined) joined_twice
  raise_if (not (j.join_type == "inner" || j.join_type == "left")) bad_join_type
  raise_if (is_empty j.on) no_columns
  raise_if (not (covers_key j target) && not j.fan_out) (multiplies_rows target.name)
  ok (add_join (left_of base j.left) j target st)

unfoldable pub check_each :
    List Component → String → List Join → Joined → Result ManifestError Joined
unfolding check_join
check_each components base [] st = ok st
check_each components base (j ∷ js) st =
    check_join components base j st >>= check_each components base js

abbrev pub lift_graph : Result RelationError JoinGraph → Result ManifestError JoinGraph
lift_graph (err e) = err (bad_graph e)
lift_graph (ok g) = ok g

abbrev pub lift_route : Result RelationError Route → Result ManifestError Unit
lift_route (err e) = err (bad_route e)
lift_route (ok p) = ok tt

-- `max(len(self.joins), 1)`
abbrev pub hops_allowed : List Join → ℕ
hops_allowed [] = 1
hops_allowed (j ∷ js) = suc (length js)

-- The loop over `m2o_reachable - {base.name}`.
unfoldable pub check_routes : JoinGraph → String → ℕ → List String → Result ManifestError Unit
unfolding path
check_routes g base hops [] = ok tt
check_routes g base hops (n ∷ ns) =
    let later = check_routes g base hops ns in
    if n == base then later else lift_route (path g base n none false hops) >>= λ _. later

abbrev is_joined : List String → Option String → Bool
is_joined joined none = true
is_joined joined (some c) = contains c joined

unfoldable pub check_select : List String → List SelectItem → Result ManifestError Unit
check_select joined [] = ok tt
check_select joined (i ∷ is) =
    if is_joined joined i.component then check_select joined is else err unjoined_select

abbrev pub entities_of : List Component → List Entity
entities_of = map (λ (c : Component). record { name = c.name; primary_key = c.primary_key })

-- Returns the name of the base, the state of the loop and the graph, which the source drops.
unfoldable pub check_from :
    DatasetV2 → Option String → Result ManifestError (String × Joined × JoinGraph)
unfolding join_graph check_routes check_select check_each
check_from d none = err no_base
check_from d (some b) = do
  base ← component d.components b
  st ←
      check_each d.components base.name d.joins
        (record { joined = base.name ∷ []; edges = []; to_one = base.name ∷ [] })
  g ← lift_graph (join_graph (entities_of d.components) st.edges)
  check_routes g base.name (hops_allowed d.joins) st.to_one
  check_select st.joined d.select
  ok (base.name, st, g)

unfoldable pub check_joins : DatasetV2 → Result ManifestError (String × Joined × JoinGraph)
unfolding check_from
check_joins d = check_from d d.base

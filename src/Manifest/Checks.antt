-- ===== src/Manifest/Checks.antt =====
-- The checks of one component, of one v1 dataset, and of all manifests of a file.
use snakemake_storage_plugin.Base.{
  is_empty, String, Bool, true, false, not, ◌&&◌, Option, none, some, List, [], ◌∷◌, ◌++◌, ◌==◌,
  ◌<>◌, if◌then◌else◌, contains, has_duplicate, length, map, any, ◌=ℕ◌, is_some, keep,
}
use snakemake_storage_plugin.Base.Result.{Result, ok, ◌>>=◌, ◌>>◌, raise_if}
use snakemake_storage_plugin.Base.Dict.{lookup, insert}
use snakemake_storage_plugin.Base.Text.{codes}
use snakemake_storage_plugin.Sql.Effect.{same_option}
use snakemake_storage_plugin.Ident.{is_plain_ident}
use snakemake_storage_plugin.Manifest.{
  ManifestError, not_identifier, bad_kind, no_primary_key, two_sources, priority_elsewhere,
  duplicate_key, undeclared_columns, column_counts, no_geometry, no_join_column, duplicate_datasets,
  two_schemas, defined_differently, collides, Component, DatasetV2, DatasetMaterialization,
  Manifest, v1, v2, zone_table,
}

unfoldable pub is_ident : String → Bool
unfolding is_plain_ident codes
is_ident name = is_plain_ident (codes name)

-- `_require_idents` for a value that may be None.
abbrev pub ident_or_none : Option String → Bool
ident_or_none none = true
ident_or_none (some name) = is_ident name

abbrev pub columns_missing : List String → Option (List String) → Bool
columns_missing wanted none = false
columns_missing wanted (some columns) = any (λ c. not (contains c columns)) wanted

-- `*([self.priority] if self.priority else [])`
abbrev pub given : Option String → List String
given none = []
given (some s) = if s == "" then [] else s ∷ []

-- `Component.__post_init__`
unfoldable pub check_component : Component → Result ManifestError Unit
unfolding is_ident has_duplicate any contains
check_component c = do
  raise_if (not (is_ident c.name)) not_identifier
  raise_if (not (ident_or_none c.schema && ident_or_none c.source_table)) not_identifier
  raise_if (not (contains c.kind ("fact" ∷ "dimension" ∷ "bridge" ∷ []))) bad_kind
  raise_if (c.kind == "dimension" && is_empty c.primary_key) no_primary_key
  raise_if (is_some c.source && is_some c.source_table) two_sources
  raise_if (is_some c.priority && not (c.kind == "bridge")) priority_elsewhere
  raise_if (has_duplicate c.primary_key) duplicate_key
  raise_if (columns_missing (c.primary_key ++ given c.priority) c.columns) undeclared_columns
  ok tt

-- `DatasetMaterialization.__post_init__`
unfoldable pub check_v1 : DatasetMaterialization → Result ManifestError Unit
unfolding is_ident any contains
check_v1 m = do
  raise_if (not (is_ident m.name && (is_ident m.contour_table && is_ident m.compact_schema)))
      not_identifier
  raise_if (not (length m.fact_join_columns =ℕ length m.contour_join_columns)) column_counts
  raise_if (not (contains m.geometry_column m.output_columns)) no_geometry
  raise_if (any (λ c. not (contains c m.output_columns)) m.fact_join_columns) no_join_column
  ok tt

-- `compact_columns`
unfoldable pub compact_columns : DatasetMaterialization → List String
unfolding keep
compact_columns m = keep (λ c. not (c == m.geometry_column)) m.output_columns

abbrev pub name_of : Manifest → String
name_of (v1 m) = m.name
name_of (v2 d) = d.name

-- `c.schema or self.storage_schema`
abbrev pub schema_of : DatasetV2 → Component → String
schema_of d c = elim c.schema [
  | none ↦ d.storage_schema
  | some s ↦ if s == "" then d.storage_schema else s
]

-- The names of the tables of the v1 datasets.
abbrev pub physical_names : List Manifest → List String
physical_names [] = []
physical_names (v1 m ∷ ms) =
    m.contour_table ∷ ("compact__" <> m.name) ∷ (if m.keyed then zone_table m ∷ [] else [])
    ++ physical_names ms
physical_names (v2 d ∷ ms) = physical_names ms

-- The components in the order of the two loops, each with its schema.
abbrev pub Placed : Type 0
Placed = String × Component

unfoldable pub placed : List Manifest → List Placed
placed [] = []
placed (v1 m ∷ ms) = placed ms
placed (v2 d ∷ ms) = map (λ c. (schema_of d c, c)) d.components ++ placed ms

abbrev pub same_columns : List String → List String → Bool
same_columns [] [] = true
same_columns (a ∷ as') (b ∷ bs) = a == b && same_columns as' bs
same_columns _ _ = false

abbrev pub same_declared : Option (List String) → Option (List String) → Bool
same_declared none none = true
same_declared (some a) (some b) = same_columns a b
same_declared _ _ = false

-- The equality of two `canonical_dict`s.
abbrev pub same_component : Component → Component → Bool
same_component a b =
    a.name == b.name
    && (a.kind == b.kind
        && (same_columns a.primary_key b.primary_key
            && (same_option a.source b.source
                && (same_option a.source_table b.source_table
                    && (same_option a.priority b.priority
                        && (same_declared a.columns b.columns && same_option a.schema b.schema))))))

abbrev pub schema_clashes : Option String → String → Bool
schema_clashes none schema = false
schema_clashes (some s) schema = not (s == schema)

abbrev pub definition_clashes : Option Component → Component → Bool
definition_clashes none c = false
definition_clashes (some other) c = not (same_component other c)

-- `d.setdefault(key, value)`
abbrev pub set_default :
    Option String → String → String → List (String × String) → List (String × String)
set_default none key value d = insert key value d
set_default (some old) key value d = d

abbrev pub place_key : Placed → String
place_key p = p.0 <> "." <> p.1.name

-- The body of the loops over the components: `taken` is `physical` and `names`.
unfoldable pub check_placed :
    List String
    → List Placed
    → List (String × String)
    → List (String × Component)
    → Result ManifestError (List (String × String) × List (String × Component))
unfolding lookup insert contains
check_placed taken [] schemas seen = ok (schemas, seen)
check_placed taken (p ∷ ps) schemas seen = do
  raise_if (schema_clashes (lookup p.1.name schemas) p.0) (two_schemas p.1.name)
  raise_if (definition_clashes (lookup (place_key p) seen) p.1) (defined_differently p.1.name)
  raise_if (contains p.1.name taken) (collides p.1.name)
  check_placed taken ps (set_default (lookup p.1.name schemas) p.1.name p.0 schemas)
      (insert (place_key p) p.1 seen)

abbrev pub names_of : List Manifest → List String
names_of ms = map name_of ms

unfoldable pub check_manifests : List Manifest → Result ManifestError Unit
unfolding check_placed placed has_duplicate
check_manifests ms = do
  raise_if (has_duplicate (names_of ms)) duplicate_datasets
  done ← check_placed (physical_names ms ++ names_of ms) (placed ms) [] []
  ok tt

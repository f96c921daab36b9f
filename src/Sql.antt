-- ===== src/Sql.antt =====
-- The database as the package sees it through SQLAlchemy: references, relations, marker rows and
-- the statements that the code emits. The server itself is a parameter (`Server`), with what its
-- documentation says of each statement as the hypothesis `IsServer`.
pub mod Effect
pub mod Server
pub mod Exec
pub mod Keeps
pub mod Memory
pub mod Undoes
use snakemake_storage_plugin.Base.{
  ◌≡◌, ◌↔◌, [], ◌∷◌, ◌||◌, if◌then◌else◌, String, Bool, true, false, ◌&&◌, ℕ, Option, none, some,
  List, ◌==◌, arith, eq_iff,
}

-- A reference without a schema is to the default schema, `public`; one with a schema is to another.
pub record Ref : Type 0 where
  pub schema : Option String
  pub name : String

abbrev pub same_schema : Option String → Option String → Bool
same_schema none none = true
same_schema (some a) (some b) = a == b
same_schema _ _ = false

abbrev pub same_ref : Ref → Ref → Bool
same_ref a b = same_schema a.schema b.schema && a.name == b.name

pub same_schema_iff : (a b : Option String) → (same_schema a b ≡ true) ↔ (a ≡ b)
same_schema_iff none none = ground arith
same_schema_iff none (some b) = ground arith
same_schema_iff (some a) none = ground arith
same_schema_iff (some a) (some b) = ground (arith, eq_iff a b)

pub same_ref_iff : (a b : Ref) → (same_ref a b ≡ true) ↔ (a ≡ b)
same_ref_iff a b = ground (arith, same_schema_iff a.schema b.schema, eq_iff a.name b.name)

-- Whether a reference is among the given ones.
unfoldable pub ref_in : Ref → List Ref → Bool
ref_in r [] = false
ref_in r (x ∷ xs) = same_ref x r || ref_in r xs

-- A relation by the name of its schema, as the catalog gives it.
abbrev schema_in : String → Option String
schema_in schema = if schema == "public" then none else some schema

abbrev pub reference : String → String → Ref
reference schema name = record { schema = schema_in schema; name = name }

abbrev pub plain : String → Ref
plain name = record { schema = none; name = name }

pub data Kind : Type 0 where
  table view matview : Kind

-- What a relation holds: the rows of a load, or what a SELECT defines.
pub data Body : Type 0 where
  loaded : ℕ → Body
  defined : String → Body

-- Who a privilege is granted to: everyone, by the keyword PUBLIC, or a role, which may have any name.
pub data Grantee : Type 0 where
  everyone : Grantee
  role : String → Grantee

abbrev pub same_grantee : Grantee → Grantee → Bool
same_grantee everyone everyone = true
same_grantee (role a) (role b) = a == b
same_grantee _ _ = false

pub same_grantee_iff : (a b : Grantee) → (same_grantee a b ≡ true) ↔ (a ≡ b)
same_grantee_iff everyone everyone = ground arith
same_grantee_iff everyone (role b) = ground arith
same_grantee_iff (role a) everyone = ground arith
same_grantee_iff (role a) (role b) = ground (arith, eq_iff a b)

-- A relation of the catalog, with the comment and the grants (grantee, privilege) that it carries.
pub record Relation : Type 0 where
  pub kind : Kind
  pub body : Body
  pub comment : Option String
  pub grants : List (Grantee × String)

-- The marker tables of metadata.py that the code writes.
pub data MarkerTable : Type 0 where
  table_updates staged_updates dataset_updates contour_updates component_updates : MarkerTable

pub data Value : Type 0 where
  text : String → Value
  number : ℕ → Value
  moment : ℕ → Value

-- A row of `_pipeline_meta_dataset_components`: what a published view was built over.
pub record Link : Type 0 where
  pub dataset : String
  pub component : String
  pub update_id : String
  pub materialize : String

abbrev pub same_link : Link → Link → Bool
same_link a b =
    (a.dataset == b.dataset && a.component == b.component)
    && (a.update_id == b.update_id && a.materialize == b.materialize)

pub same_link_iff : (a b : Link) → (same_link a b ≡ true) ↔ (a ≡ b)
same_link_iff a b = ground (
  arith,
  eq_iff a.dataset b.dataset,
  eq_iff a.component b.component,
  eq_iff a.update_id b.update_id,
  eq_iff a.materialize b.materialize,
)

-- A row, or the values of an INSERT or UPDATE: column and value.
abbrev pub Row : Type 0
Row = List (String × Value)

pub data Statement : Type 0 where
  -- ALTER <kind> ref RENAME TO name
  rename : Kind → Ref → String → Statement
  -- DROP <kind> ref
  drop : Kind → Ref → Statement
  -- DROP <kind> ref, …
  drop_group : Kind → List Ref → Statement
  -- DROP <kind> IF EXISTS ref
  drop_if_exists : Kind → Ref → Statement
  -- CREATE <kind> ref AS select
  create : Kind → Ref → String → Statement
  -- CREATE TABLE ref, without rows
  create_empty : Ref → Statement
  -- the bulk load of so many rows into an empty table
  load_rows : Ref → ℕ → Statement
  -- COMMENT ON <kind> ref IS text
  set_comment : Kind → Ref → Option String → Statement
  -- REVOKE ALL ON TABLE ref FROM grantee
  revoke_all : Ref → Grantee → Statement
  -- GRANT privilege ON TABLE ref TO grantee
  grant : String → Ref → Grantee → Statement
  -- INSERT INTO marker table: the key, and the row's values
  insert_row : MarkerTable → String → Row → Statement
  -- UPDATE marker table SET values WHERE key
  update_row : MarkerTable → String → Row → Statement
  -- INSERT … ON CONFLICT DO UPDATE SET values
  upsert_row : MarkerTable → String → Row → Statement
  -- UPDATE marker table SET published_at = now() WHERE key IN (…)
  touch_rows : MarkerTable → List String → Statement
  -- DELETE FROM marker table WHERE key IN (…)
  delete_rows : MarkerTable → List String → Statement
  -- DELETE FROM _pipeline_meta_dataset_components WHERE dataset_name IN (…)
  delete_links : List String → Statement
  -- the same for one component of one dataset
  delete_link : String → String → Statement
  -- INSERT INTO _pipeline_meta_dataset_components
  insert_link : Link → Statement
  -- CREATE TABLE for each marker table that is missing
  create_markers : Statement
  -- set_config('lock_timeout', value, true)
  set_lock_timeout : List ℕ → Statement
  -- pg_advisory_xact_lock(key)
  xact_lock : String → Statement
  analyze : Ref → Statement

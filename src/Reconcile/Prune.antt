-- ===== src/Reconcile/Prune.antt =====
-- The report of a reconciliation, and the deletions that `prune` executes.
use snakemake_storage_plugin.Base.{
  String, Bool, true, false, not, Option, none, some, List, [], ◌∷◌, ◌==◌, if◌then◌else◌, map, keep,
}
use snakemake_storage_plugin.Base.Dict.{dict_of, keys}
use snakemake_storage_plugin.Sql.{
  Ref, reference, table, MarkerTable, table_updates, dataset_updates, contour_updates,
  component_updates, Relation, drop, drop_group, delete_rows, delete_link,
}
use snakemake_storage_plugin.Sql.Server.{Server}
use snakemake_storage_plugin.Sql.Exec.{
  Exec, not_implemented, value_error, execute, begin, ◌>>=◌, ◌>>◌, gets, raise_if, pure, for_each,
}
use snakemake_storage_plugin.Meta.{advisory_lock}
use snakemake_storage_plugin.Publish.{publish_lock_key}
use snakemake_storage_plugin.Reconcile.{
  ManagedKind, plain_table, dataset, component, plain_marker, dataset_marker, contour_marker,
  component_marker, component_link, same_managed_kind, ManagedObject, among, DesiredState,
  desired_objects, Listing, inventory,
}

pub record Report : Type 0 where
  pub desired : List ManagedObject
  pub obsolete : List ManagedObject
  pub missing : List ManagedObject
  pub authoritative : Bool

abbrev pub outside : List ManagedObject → List ManagedObject → List ManagedObject
outside os others = keep (λ o. not (among o others)) os

-- `obj.schema or "public"`
abbrev pub schema_or_public : ManagedObject → String
schema_or_public o = elim o.schema [ none ↦ "public" | some s ↦ if s == "" then "public" else s ]

abbrev pub ref_of : ManagedObject → Ref
ref_of o = reference (schema_or_public o) o.name

abbrev pub is_of : ManagedKind → ManagedObject → Bool
is_of kind o = same_managed_kind o.kind kind

abbrev is_plain_table : Option Relation → Bool
is_plain_table none = false
is_plain_table (some r) = elim r.kind [ table ↦ true | _ ↦ false ]

abbrev pub is_schema : String → ManagedObject → Bool
is_schema schema o = schema_or_public o == schema

-- `_MARKERS`
abbrev pub marker_table : ManagedKind → Option MarkerTable
marker_table plain_marker = some table_updates
marker_table dataset_marker = some dataset_updates
marker_table contour_marker = some contour_updates
marker_table component_marker = some component_updates
marker_table _ = none

module _ (S : Server) where
  abbrev pub drop_found : Ref → Option Relation → Exec S.State Unit
  drop_found r none = pure tt
  drop_found r (some rel) = execute S (drop rel.kind r)

  -- `_drop_relation`, on PostgreSQL
  unfoldable pub drop_relation : ManagedObject → Exec S.State Unit
  drop_relation o = do found ← gets (λ s. S.relation s (ref_of o)); drop_found (ref_of o) found

  abbrev pub drop_tables : List ManagedObject → Exec S.State Unit
  drop_tables [] = pure tt
  drop_tables (o ∷ os) = execute S (drop_group table (map ref_of (o ∷ os)))

  abbrev pub is_live_table : S.State → ManagedObject → Bool
  is_live_table s o = is_plain_table (S.relation s (ref_of o))

  -- The body of the loop over `by_schema`: the tables of a schema are dropped together.
  unfoldable pub drop_schema : List ManagedObject → Exec S.State Unit
  unfolding drop_relation for_each keep
  drop_schema objects = do
    (tables, others) ←
        gets (λ s. (keep (is_live_table s) objects, keep (λ o. not (is_live_table s o)) objects))
    for_each drop_relation others
    drop_tables tables

  abbrev pub forget_link : Option String → String → Exec S.State Unit
  forget_link none name = pure tt
  forget_link (some owner) name = execute S (delete_link owner name)

  abbrev pub delete_marker : Option MarkerTable → String → Exec S.State Unit
  delete_marker none name = pure tt
  delete_marker (some t) name = execute S (delete_rows t (name ∷ []))

  abbrev pub forget_as : ManagedKind → ManagedObject → Exec S.State Unit
  forget_as component_link o = forget_link o.owner o.name
  forget_as kind o = delete_marker (marker_table kind) o.name

  -- The body of the last loop.
  unfoldable pub forget : ManagedObject → Exec S.State Unit
  forget o = forget_as o.kind o

  abbrev pub schemas_of : List ManagedObject → List String
  schemas_of objects = keys (dict_of schema_or_public (λ o. o) objects)

  unfoldable pub prune_block : List ManagedObject → Exec S.State Unit
  unfolding drop_schema forget keep for_each
  prune_block obsolete = do
    for_each drop_relation (keep (is_of dataset) obsolete)
    for_each drop_relation (keep (is_of plain_table) obsolete)
    for_each (λ schema. drop_schema (keep (is_schema schema) (keep (is_of component) obsolete)))
        (schemas_of (keep (is_of component) obsolete))
    for_each forget obsolete

  unfoldable pub execute_prune : List ManagedObject → Exec S.State Unit
  unfolding prune_block
  execute_prune obsolete = begin S (advisory_lock S publish_lock_key (prune_block obsolete))

  -- `ReconciliationReport.prune(execute)`. The first exception is a ReconciliationError.
  unfoldable pub prune : Report → Bool → Exec S.State Report
  unfolding execute_prune
  prune report execute_it = do
    raise_if (not report.authoritative) value_error
    if not execute_it then pure report else do
      raise_if (not S.is_postgresql) not_implemented
      execute_prune report.obsolete
      pure report

  -- `reconcile`, of a desired state that was checked. The reports of the source are sorted.
  unfoldable pub reconcile : Listing S → DesiredState → Bool → String → Exec S.State Report
  unfolding inventory desired_objects keep
  reconcile listing state authoritative view_schema = do
    raise_if (not S.is_postgresql) not_implemented
    let wanted = desired_objects state view_schema
    actual ← gets (inventory S listing wanted view_schema state.storage_schemas)
    pure (record {
      desired = wanted;
      obsolete = outside actual wanted;
      missing = outside wanted actual;
      authoritative = authoritative;
    })

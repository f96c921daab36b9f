-- ===== src/KeepOld/Rollback.antt =====
-- `rollback_kept_old` swaps the kept relations back in, `cleanup_kept_old` drops them.
use Prim.Native.String.{len, slice}
use text.Mathlib.Text.{starts_with}
use snakemake_storage_plugin.Base.{
  is_empty, String, Bool, true, false, not, ◌||◌, Option, none, some, List, [], ◌∷◌, ◌++◌, ◌<>◌,
  if◌then◌else◌, contains, map, keep, any,
}
use snakemake_storage_plugin.Sql.{
  Ref, plain, reference, Kind, table, view, matview, MarkerTable, table_updates, dataset_updates,
  component_updates, contour_updates, rename, drop, drop_group, set_comment, grant, delete_rows,
  delete_links,
}
use snakemake_storage_plugin.Sql.Server.{Server}
use snakemake_storage_plugin.Sql.Exec.{
  Exec, value_error, execute, begin, ◌>>=◌, ◌>>◌, when, gets, raise_if, pure, for_each,
}
use snakemake_storage_plugin.Meta.{has_table, table_exists, advisory_lock}
use snakemake_storage_plugin.Engine.{Environ, apply_given_timeout}
use snakemake_storage_plugin.KeepOld.{
  Codec, Grants, old_name, old_prefix, tag, kind_of, park, grant_target,
}

-- The lock that publishes take (publish.py).
abbrev pub publish_lock_key : String
publish_lock_key = "snakemake_sql:publish_tables"

abbrev pub tmp_prefix : String
tmp_prefix = "__tmp__"

-- `name` is without the prefix.
pub record KeptRelation : Type 0 where
  pub schema : String
  pub name : String
  pub kind : Kind

abbrev pub live_ref : KeptRelation → Ref
live_ref k = reference k.schema k.name

abbrev pub aside_ref : KeptRelation → Ref
aside_ref k = reference k.schema (old_name k.name)

abbrev pub tmp_ref : KeptRelation → Ref
tmp_ref k = reference k.schema (tmp_prefix <> k.name)

-- Whether a text is in `names`, or all are taken.
abbrev pub chosen : Option (List String) → String → Bool
chosen none name = true
chosen (some names) name = contains name names

-- `not schemas or s in schemas`
abbrev in_schemas : List String → String → Bool
in_schemas [] s = true
in_schemas (x ∷ xs) s = contains s (x ∷ xs)

unfoldable pub select : Option (List String) → List KeptRelation → List KeptRelation
select names kept = keep (λ k. chosen names k.name || chosen names (k.schema <> "." <> k.name)) kept

abbrev pub known_privileges : List String
known_privileges =
    "SELECT" ∷ "INSERT" ∷ "UPDATE" ∷ "DELETE" ∷ "TRUNCATE" ∷ "REFERENCES" ∷ "TRIGGER" ∷ "MAINTAIN"
    ∷ []

abbrev pub is_kind : Kind → KeptRelation → Bool
is_kind table k = elim k.kind [ table ↦ true | _ ↦ false ]
is_kind view k = elim k.kind [ view ↦ true | _ ↦ false ]
is_kind matview k = elim k.kind [ matview ↦ true | _ ↦ false ]

module _ (S : Server) (C : Codec) where
  abbrev pub comment_of : Ref → S.State → Option String
  comment_of r s = elim (S.relation s r) [ none ↦ none | some rel ↦ rel.comment ]

  -- The grants that a comment records; none where it has no tag.
  unfoldable pub recorded_grants : Option String → Grants
  recorded_grants none = []
  recorded_grants (some comment) =
      if starts_with comment tag
      then map (λ (who, privilege). (who, C.upper privilege))
          (C.loads (slice comment (len tag) (len comment)))
      else []

  unfoldable pub restore_grants : Ref → Option String → Exec S.State Unit
  unfolding recorded_grants for_each any
  restore_grants r comment = do
    let grants = recorded_grants comment
    raise_if (any (λ (_, privilege). not (contains privilege known_privileges)) grants) value_error
    for_each (λ (who, privilege). execute S (grant privilege r (grant_target who))) grants

  abbrev pub park_current : Ref → Option Kind → Exec S.State Unit
  park_current r none = pure tt
  park_current r (some kind) = park S C r (some kind) >>= λ _. pure tt

  -- The body of the loop of `rollback_kept_old`.
  unfoldable pub swap_back : KeptRelation → Exec S.State Unit
  unfolding restore_grants kind_of
  swap_back k = do
    comment ← gets (comment_of (aside_ref k))
    execute S (rename k.kind (aside_ref k) (tmp_prefix <> k.name))
    current ← gets (kind_of S C (live_ref k))
    park_current (live_ref k) current
    execute S (rename k.kind (tmp_ref k) k.name)
    execute S (set_comment k.kind (live_ref k) none)
    when S.is_postgresql (restore_grants (live_ref k) comment)

  unfoldable pub forget_in : MarkerTable → List String → Exec S.State Unit
  unfolding table_exists
  forget_in m names = do
    exists ← gets (table_exists S m)
    when exists (execute S (delete_rows m names))

  unfoldable pub forget_markers : List String → Exec S.State Unit
  unfolding forget_in
  forget_markers names = when (not (is_empty names)) (do
    forget_in table_updates names
    forget_in dataset_updates names
    forget_in component_updates names
    forget_in contour_updates names
    exists ← gets (has_table S (plain "_pipeline_meta_dataset_components"))
    when exists (execute S (delete_links names)))

  abbrev pub drop_some : Kind → List KeptRelation → Exec S.State Unit
  drop_some kind [] = pure tt
  drop_some kind (k ∷ group) =
      if S.is_postgresql
      then execute S (drop_group kind (map aside_ref (k ∷ group)))
      else for_each (λ k. execute S (drop kind (aside_ref k))) (k ∷ group)

  -- The body of the loop over the kinds of `cleanup_kept_old`.
  unfoldable pub drop_kind : List KeptRelation → Kind → Exec S.State Unit
  drop_kind kept kind = drop_some kind (keep (is_kind kind) kept)

-- `found` is what the catalog query of `_list` returns: the schema, the name and the kind of every
-- relation with the prefix and the tag.
module _ (S : Server) (C : Codec) (found : S.State → List (String × String × Kind)) where
  -- `_list`
  unfoldable pub list_kept : List String → S.State → List KeptRelation
  list_kept schemas s =
      map
        (λ (schema, name, kind). record {
          schema = schema;
          name = slice name (len old_prefix) (len name);
          kind = kind;
        })
        (keep (λ (schema, name, kind). in_schemas schemas schema) (found s))

  -- The block under the lock. Returns the restored relations.
  unfoldable pub rollback_block :
      Option (List String) → List String → Exec S.State (List KeptRelation)
  unfolding select list_kept swap_back forget_markers for_each
  rollback_block names schemas = do
    kept ← gets (λ s. select names (list_kept schemas s))
    for_each (swap_back S C) kept
    forget_markers S C (map (λ k. k.name) kept)
    pure kept

  unfoldable pub rollback_kept_old :
      Environ
      → Option String
      → Option (List String)
      → List String
      → Exec S.State (List KeptRelation)
  unfolding rollback_block
  rollback_kept_old environ lock_timeout names schemas = begin S (do
    apply_given_timeout S environ lock_timeout
    advisory_lock S publish_lock_key (rollback_block names schemas))

  unfoldable pub cleanup_block :
      Option (List String) → List String → Exec S.State (List KeptRelation)
  unfolding select list_kept drop_kind for_each
  cleanup_block names schemas = do
    kept ← gets (λ s. select names (list_kept schemas s))
    for_each (drop_kind S C kept) (view ∷ matview ∷ table ∷ [])
    pure (keep (is_kind view) kept ++ (keep (is_kind matview) kept ++ keep (is_kind table) kept))

  unfoldable pub cleanup_kept_old :
      Environ
      → Option String
      → Option (List String)
      → List String
      → Exec S.State (List KeptRelation)
  unfolding cleanup_block
  cleanup_kept_old environ lock_timeout names schemas = begin S (do
    apply_given_timeout S environ lock_timeout
    advisory_lock S publish_lock_key (cleanup_block names schemas))

-- ===== src/Publish/Swap.antt =====
-- The relations that a publish of datasets replaces, in its transaction.
pub mod Leaves
use snakemake_storage_plugin.Base.{
  String, Bool, true, false, Option, none, some, List, [], ◌∷◌, ◌++◌, ◌==◌, if◌then◌else◌,
}
use snakemake_storage_plugin.Sql.{
  Ref, plain, Kind, table, view, matview, rename, drop, drop_if_exists, create,
}
use snakemake_storage_plugin.Sql.Server.{Server}
use snakemake_storage_plugin.Sql.Exec.{Exec, execute, ◌>>=◌, ◌>>◌, gets, pure}
use snakemake_storage_plugin.Meta.{has_table, physical_name_and_schema}
use snakemake_storage_plugin.KeepOld.{Codec, park, kind_of}
use snakemake_storage_plugin.Publish.Tables.{aside_name}

-- What is left to do after the commit: the replaced relations to drop (`old_physical`), and the
-- new ones to analyze (`fresh`).
pub record Pending : Type 0 where
  pub old_physical : List Ref
  pub fresh : List Ref

abbrev pub no_pending : Pending
no_pending = record { old_physical = []; fresh = [] }

abbrev pub both : Pending → Pending → Pending
both a b = record { old_physical = a.old_physical ++ b.old_physical; fresh = a.fresh ++ b.fresh }

-- A loop over swaps.
unfoldable pub collect_each : {T A : Type 0} → (A → Exec T Pending) → List A → Exec T Pending
collect_each body [] = pure no_pending
collect_each body (x ∷ xs) = do first ← body x; rest ← collect_each body xs; pure (both first rest)

abbrev is_table_kind : Option Kind → Bool
is_table_kind (some table) = true
is_table_kind _ = false

module _ (S : Server) (C : Codec) (ts : String) where
  -- ALTER TABLE … RENAME TO …__old__<ts>
  abbrev pub rename_away : Ref → Exec S.State (List Ref)
  rename_away live = do
    execute S (rename table live (aside_name ts live.name))
    pure (record live { name = aside_name ts live.name } ∷ [])

  abbrev pub park_away : Ref → Exec S.State (List Ref)
  park_away live = do park S C live none; pure []

  unfoldable pub set_live_aside : Bool → Ref → Exec S.State (List Ref)
  set_live_aside true live = park_away live
  set_live_aside false live = do
    exists ← gets (has_table S live)
    if exists then rename_away live else pure []

  unfoldable pub rename_swap_physical : Bool → String → String → String → Exec S.State Pending
  unfolding set_live_aside
  rename_swap_physical keep bare_name schema staging_bare_name = do
    let live = physical_name_and_schema bare_name schema
    olds ← set_live_aside keep live
    execute S (rename table (physical_name_and_schema staging_bare_name schema) live.name)
    pure (record { old_physical = olds; fresh = live ∷ [] })

  -- By the kind of what has the public name.
  unfoldable pub clear_public : Bool → Option Kind → String → Exec S.State (List Ref)
  clear_public true kind name = park_away (plain name)
  clear_public false none name = pure []
  clear_public false (some table) name = rename_away (plain name)
  clear_public false (some kind) name = do execute S (drop kind (plain name)); pure []

  abbrev pub public_kind : String → Kind
  public_kind materialize =
      if materialize == "view" then view else if S.is_postgresql then matview else table

  unfoldable pub replace_public_relation : Bool → String → String → String → Exec S.State Pending
  unfolding clear_public kind_of
  replace_public_relation keep name select_sql materialize = do
    found ← gets (kind_of S C (plain name))
    olds ← clear_public keep found name
    execute S (create (public_kind materialize) (plain name) select_sql)
    pure (record {
      old_physical = olds;
      fresh = if materialize == "view" then [] else plain name ∷ [];
    })

  unfoldable pub clear_view : Bool → Bool → String → Exec S.State (List Ref)
  clear_view true is_table name = park_away (plain name)
  clear_view false true name = rename_away (plain name)
  clear_view false false name = do execute S (drop_if_exists view (plain name)); pure []

  unfoldable pub replace_compatibility_view : Bool → String → String → Exec S.State Pending
  unfolding clear_view kind_of
  replace_compatibility_view keep name view_sql = do
    found ← gets (kind_of S C (plain name))
    olds ← clear_view keep (is_table_kind found) name
    execute S (create view (plain name) view_sql)
    pure (record { old_physical = olds; fresh = [] })

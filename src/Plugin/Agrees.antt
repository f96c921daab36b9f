-- ===== src/Plugin/Agrees.antt =====
-- The snapshot and the database give the same answers.
use snakemake_storage_plugin.Base.{
  ◌≡◌, refl, String, Bool, true, false, not, ◌&&◌, ◌||◌, Option, none, some, List, is_some,
  if◌then◌else◌,
}
use snakemake_storage_plugin.Base.Result.{ok, err}
use snakemake_storage_plugin.Sql.{Relation, plain, table, table_updates, staged_updates}
use snakemake_storage_plugin.Sql.Effect.{text_in, same_option}
use snakemake_storage_plugin.Sql.Exec.{not_implemented}
use snakemake_storage_plugin.Sql.Server.{Server}
use snakemake_storage_plugin.Meta.{staging_name, fetch_one}
use snakemake_storage_plugin.Stage.{File, is_current}
use snakemake_storage_plugin.Planning.{
  PlanningState, kind_is, kind_in, has, table_current, published_table_current, snapshot,
  read_planning_state, Queries, read_marker,
}
use snakemake_storage_plugin.Planning.Reads.{IsReading, read_marker-fetch_one}
use snakemake_storage_plugin.Plugin.{
  ObjectKind, staged_object, published_object, published_current, exists_with_state,
  mtime_with_state,
}

-- What stands under the name, if anything does, is a table.
abbrev pub only_table : Option Relation → Bool
only_table none = true
only_table (some r) = kind_is (some r.kind) table

table_there : (o : Option Relation) → only_table o ≡ true → kind_is (kind_in o) table ≡ is_some o
table_there none h = refl
table_there (some r) h = h

swap_tests :
    (m t : Bool) (rest : Bool) → (m && (t && rest)) ≡ (if not m || not t then false else rest)
swap_tests true true rest = refl
swap_tests true false rest = refl
swap_tests false t rest = refl

module _ (S : Server) (Q : Queries S) (roles : List String) (s : S.State)
    (reading : IsReading S Q s) where
  read_snapshot :
      (st : PlanningState) → read_planning_state S Q roles s ≡ ok st → snapshot S Q roles s ≡ st
  unfolding read_planning_state
  read_snapshot st h = read_on st S.is_postgresql h
    where
      read_on :
          (st : PlanningState) (b : Bool)
          → (if b then ok (snapshot S Q roles s) else err not_implemented) ≡ ok st
          → snapshot S Q roles s ≡ st
      read_on st true h = cc h
      read_on st false h = absurd (cc h)

  live_marker :
      (name : String)
      → read_marker S Q s table_updates (some "table_name") name ≡ fetch_one S table_updates name s
  live_marker name = read_marker-fetch_one S Q s reading table_updates "table_name" name refl

  staged_marker :
      (name : String)
      → read_marker S Q s staged_updates (some "table_name") name
        ≡ fetch_one S staged_updates name s
  staged_marker name = read_marker-fetch_one S Q s reading staged_updates "table_name" name refl

  snapshot_agrees :
      (kind : ObjectKind) (name : String) (file : Option File)
      → only_table (S.relation s (plain name)) ≡ true
      → only_table (S.relation s (plain (staging_name name))) ≡ true
      → exists_with_state S (some (snapshot S Q roles s)) kind name file s
        ≡ exists_with_state S none kind name file s
  unfolding exists_with_state snapshot has table_current published_table_current is_current
      published_current
  snapshot_agrees staged_object name none live stg = refl
  snapshot_agrees staged_object name (some f) live stg =
      rw
        (
          live_marker name,
          staged_marker name,
          table_there (S.relation s (plain name)) live,
          table_there (S.relation s (plain (staging_name name))) stg,
        )
        refl
  snapshot_agrees published_object name file live stg =
      rw (live_marker name, staged_marker name, table_there (S.relation s (plain name)) live)
        (let live_row = fetch_one S table_updates name s in
          let staged_row = fetch_one S staged_updates name s in
          swap_tests (is_some live_row) (is_some (S.relation s (plain name))) (
            not (is_some staged_row)
            || same_option (text_in "update_id" staged_row) (text_in "update_id" live_row)))

  snapshot_mtime :
      (kind : ObjectKind) (name : String)
      → mtime_with_state S (some (snapshot S Q roles s)) kind name s
        ≡ mtime_with_state S none kind name s
  unfolding mtime_with_state snapshot
  snapshot_mtime kind name = rw (live_marker name, staged_marker name) refl

-- On PostgreSQL, when the connection's default schema is public and the queries of the snapshot give
-- what is documented of them, and where no view or materialized view stands under the table's name or
-- its staging name: `exists` and `mtime` answer from the snapshot what the database itself would
-- answer, for a staged and for a published object.
pub exists_agrees :
    (S : Server) (Q : Queries S) (roles : List String) (s : S.State) (st : PlanningState)
    → IsReading S Q s
    → read_planning_state S Q roles s ≡ ok st
    → (kind : ObjectKind) (name : String) (file : Option File)
    → only_table (S.relation s (plain name)) ≡ true
    → only_table (S.relation s (plain (staging_name name))) ≡ true
    → (exists_with_state S (some st) kind name file s ≡ exists_with_state S none kind name file s)
      × (mtime_with_state S (some st) kind name s ≡ mtime_with_state S none kind name s)
exists_agrees S Q roles s st reading h kind name file live stg =
    rw (← read_snapshot S Q roles s reading st h) (
      snapshot_agrees S Q roles s reading kind name file live stg,
      snapshot_mtime S Q roles s reading kind name,
    )

-- ===== src/KeepOld.antt =====
-- workflow/scripts/sqlsink/keep_old.py: `park` sets a replaced relation aside as `__old__<name>`,
-- `rollback_kept_old` swaps the kept relations back in, `cleanup_kept_old` drops them.
-- JSON is a parameter (`Codec`): `dumps` is `json.dumps({"kind": …, "grants": …})`, `loads` the
-- "grants" that `json.loads` finds in such a text; so is `str.upper`.
pub mod Park
pub mod Rollback
pub mod Moves
pub mod Swapped
pub mod Cleanup
pub mod Unreadable
pub mod Forget
mod Tests
use Prim.Native.String.{count}
use snakemake_storage_plugin.Base.{
  ℕ, String, Bool, true, false, not, ◌&&◌, ◌||◌, ◌≡◌, Option, none, some, List, [], ◌∷◌, ◌==◌, ◌<>◌,
  ltb, if◌then◌else◌, is_some, contains, map,
}
use snakemake_storage_plugin.Sql.{
  Ref, Kind, table, view, matview, Relation, Statement, rename, drop, set_comment, revoke_all,
  Grantee, everyone, role,
}
use snakemake_storage_plugin.Sql.Server.{Server}
use snakemake_storage_plugin.Sql.Exec.{
  Exec, SinkError, value_error, kept_old_exists, execute, begin, ◌>>=◌, ◌>>◌, when, gets, raise,
  raise_if, pure, for_each,
}

abbrev pub old_prefix : String
old_prefix = "__old__"

abbrev pub old_name : String → String
old_name name = old_prefix <> name

abbrev pub tag : String
tag = "sqlsink:keep_old "

abbrev pub pg_max_identifier : ℕ
pg_max_identifier = 63

abbrev pub Grants : Type 0
Grants = List (String × String)

pub record Codec : Type 0 where
  pub dumps : Kind → Grants → String
  pub loads : String → Grants
  -- `str.upper`
  pub upper : String → String

-- The kinds of a relation that the dialect knows; a view or a table hides no other relation.
abbrev pub seen_kind : Bool → Kind → Kind
seen_kind postgresql matview = if postgresql then matview else table
seen_kind postgresql k = k

abbrev pub is_table : Kind → Bool
is_table table = true
is_table _ = false

-- `sorted({g[0] for g in grants})`: the rows of `_grants` come sorted by grantee.
unfoldable pub grantees : Grants → List String
unfolding contains
grantees [] = []
grantees ((who, _) ∷ gs) = let rest = grantees gs in if contains who rest then rest else who ∷ rest

-- `COALESCE(r.rolname, 'PUBLIC')`: in these rows everyone and a role named PUBLIC look the same.
abbrev pub grantee_name : Grantee → String
grantee_name everyone = "PUBLIC"
grantee_name (role name) = name

abbrev pub grant_row : Grantee × String → String × String
grant_row (who, privilege) = (grantee_name who, privilege)

-- `"PUBLIC" if grantee == "PUBLIC" else _quote(grantee)`
abbrev pub grant_target : String → Grantee
grant_target who = if who == "PUBLIC" then everyone else role who

module _ (S : Server) (C : Codec) where
  unfoldable pub kind_of : Ref → S.State → Option Kind
  kind_of r s = elim (S.relation s r) [
    | none ↦ none
    | some rel ↦ some (seen_kind S.is_postgresql rel.kind)
  ]

  -- `_grants`, on PostgreSQL only
  abbrev pub grants_of : Ref → S.State → Grants
  grants_of r s = elim (S.relation s r) [
    | none ↦ []
    | some rel ↦ if S.is_postgresql then map grant_row rel.grants else []
  ]

  -- From the rename on: the grants that were read before it come along.
  unfoldable pub set_aside : Ref → Kind → Exec S.State Bool
  unfolding grantees
  set_aside r kind = do
    let aside = record r { name = old_name r.name }
    grants ← gets (grants_of r)
    execute S (rename kind r (old_name r.name))
    for_each (λ who. execute S (revoke_all aside (grant_target who))) (grantees grants)
    execute S (set_comment kind aside (some (tag <> C.dumps kind grants)))
    pure true

  -- `park` with the kind at hand.
  unfoldable pub park_kind : Ref → Kind → Exec S.State Bool
  unfolding set_aside kind_of
  park_kind r kind = do
    raise_if (S.is_postgresql && ltb pg_max_identifier (count (old_name r.name))) value_error
    taken ← gets (kind_of (record r { name = old_name r.name }))
    raise_if (is_some taken) (kept_old_exists (old_name r.name))
    if not (is_table kind) && not S.is_postgresql
        then (do execute S (drop view r); pure false)
        else set_aside r kind

  abbrev pub park_found : Ref → Option Kind → Exec S.State Bool
  park_found r none = pure false
  park_found r (some kind) = park_kind r kind

  -- `park(conn, name, schema, kind)`; without a kind it looks for one
  unfoldable pub park : Ref → Option Kind → Exec S.State Bool
  unfolding park_kind
  park r (some kind) = park_kind r kind
  park r none = do found ← gets (kind_of r); park_found r found

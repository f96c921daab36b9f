-- ===== src/Sql/Server.antt =====
-- The server as a parameter: a state, what the catalog and the marker tables show of it, statements
-- that succeed or are refused, and the rollback of a transaction.
use snakemake_storage_plugin.Base.{◌≡◌, String, Bool, Option, some, ℕ, List}
use snakemake_storage_plugin.Sql.{Ref, Relation, MarkerTable, Row, Link, Statement}
use snakemake_storage_plugin.Sql.Effect.{relation_after, marker_after, has_link, linked_after}

pub record Server : Type 1 where
  pub State : Type 0
  -- `engine.dialect.name == "postgresql"`; the other dialect is DuckDB
  pub is_postgresql : Bool
  pub relation : State → Ref → Option Relation
  pub marker : State → MarkerTable → String → Option Row
  -- the rows of the table of dataset components, in some order
  pub link_rows : State → List Link
  -- the transaction's `now()`
  pub now : State → ℕ
  -- none: the server raises an error
  pub run : Statement → State → Option State
  -- the state after the rollback of a transaction that began in the first state
  pub rollback : State → State → State

-- What the documentation of the server promises.
pub record IsServer (S : Server) : Type 0 where
  pub relation-run :
      (q : Statement) (s t : S.State)
      → S.run q s ≡ some t
      → (r : Ref) → S.relation t r ≡ relation_after q (S.relation s) r
  pub marker-run :
      (q : Statement) (s t : S.State)
      → S.run q s ≡ some t
      → (m : MarkerTable) (k : String) → S.marker t m k ≡ marker_after (S.now s) q (S.marker s) m k
  pub linked-run :
      (q : Statement) (s t : S.State)
      → S.run q s ≡ some t
      → (l : Link) → has_link (S.link_rows t) l ≡ linked_after q (has_link (S.link_rows s)) l
  pub linked-rollback : (s t : S.State) → S.link_rows (S.rollback s t) ≡ S.link_rows s
  pub relation-rollback : (s t : S.State) (r : Ref) → S.relation (S.rollback s t) r ≡ S.relation s r
  pub marker-rollback :
      (s t : S.State) (m : MarkerTable) (k : String)
      → S.marker (S.rollback s t) m k ≡ S.marker s m k

-- ===== src/Publish/Tables/Atomic.antt =====
-- A publish of tables that raises.
use snakemake_storage_plugin.Base.{
  ◌≡◌, false, not, ◌&&◌, String, Option, List, [], ℕ, any, ap, Bool-cases, inl, inr,
}
use snakemake_storage_plugin.Base.Result.{err}
use snakemake_storage_plugin.Sql.{Ref, Statement, table, analyze, drop_if_exists, MarkerTable}
use snakemake_storage_plugin.Sql.Effect.{is_marker_name}
use snakemake_storage_plugin.Sql.Server.{Server, IsServer}
use snakemake_storage_plugin.Sql.Exec.{SinkError, best_effort}
use snakemake_storage_plugin.Sql.Keeps.{Keeps, Keeps-lift}
use snakemake_storage_plugin.Sql.Undoes.{
  Undoes, Returns, Returns-pure, Returns-bind, Returns-when, Returns-for_each, Undoes-Returns,
  Undoes-after, Undoes-then, Undoes-begin,
}
use snakemake_storage_plugin.Meta.{create_all}
use snakemake_storage_plugin.Meta.Create.{create_all-relation, create_all-marker}
use snakemake_storage_plugin.Engine.{Environ}
use snakemake_storage_plugin.KeepOld.{Codec}
use snakemake_storage_plugin.Publish.{analyze_relations, drop_old_tables, distinct_refs, attempt}
use snakemake_storage_plugin.Publish.Tables.{
  Receipt, Options, publish_transaction, publish_now, publish_tables,
}

module _ (S : Server) where
  attempt-Returns : (v : Environ) (l : Option (List ℕ)) (q : Statement) → Returns (attempt S v l q)
  unfolding attempt best_effort
  attempt-Returns v l q = record { at = λ s t e h. cc (ap (λ x. x.0) h) }

  pub analyze_relations-Returns :
      (v : Environ) (l : Option (List ℕ)) (rs : List Ref) → Returns (analyze_relations S v l rs)
  unfolding analyze_relations
  analyze_relations-Returns v l rs =
      Returns-when S.is_postgresql _
        (Returns-for_each _ (distinct_refs [] rs) (λ r. attempt-Returns v l (analyze r)))

  pub drop_old_tables-Returns :
      (v : Environ) (l : Option (List ℕ)) (rs : List Ref) → Returns (drop_old_tables S v l rs)
  unfolding drop_old_tables
  drop_old_tables-Returns v l rs =
      Returns-for_each _ rs (λ r. attempt-Returns v l (drop_if_exists table r))

  module _ {V : Type 0} (look : S.State → V)
      (back : (s t : S.State) → look (S.rollback s t) ≡ look s) where
    -- Nothing raises after the transaction.
    publish_now-Undoes :
        (C : Codec) (ts : String) (environ : Environ) (o : Options) (receipts : List Receipt)
        → Keeps look (create_all S)
        → Undoes look (publish_now S C ts environ o receipts)
    unfolding publish_now publish_transaction
    publish_now-Undoes C ts environ o receipts kc = Undoes-after look _ _ (Keeps-lift look _) λ l.
        Undoes-after look _ _ (Keeps-lift look _) λ a. Undoes-after look _ _ kc λ _.
          Undoes-then look _ _ (Undoes-begin S look _ back) λ d.
            Returns-bind _ _ (Returns-when a _ (analyze_relations-Returns environ l _))
              λ _. Returns-bind _ _ (drop_old_tables-Returns environ l _) λ _. Returns-pure d.0

    publish_tables-Undoes :
        (C : Codec) (ts : String) (environ : Environ) (o : Options) (receipts : List Receipt)
        → Keeps look (create_all S)
        → Undoes look (publish_tables S C ts environ o receipts)
    unfolding publish_tables
    publish_tables-Undoes C ts environ o receipts kc =
        elim (Bool-cases (not (any (λ r. r.staged) receipts) && not o.refresh)) [
          | inl e ↦ rw e (Undoes-Returns look _ (Returns-pure []))
          | inr e ↦ rw e (publish_now-Undoes C ts environ o receipts kc)
        ]

-- A call of `publish_tables` that raises, whatever the receipts, the options and the exception,
-- leaves every relation as it was, except the marker tables that it may have created, and leaves
-- every row of the marker tables as it was.
pub publish_tables_atomic :
    (S : Server)
    → IsServer S
    → (C : Codec) (ts : String) (environ : Environ) (o : Options) (receipts : List Receipt)
      (s t : S.State) (e : SinkError)
    → publish_tables S C ts environ o receipts s ≡ (err e, t)
    → (x : Ref) → is_marker_name x.name ≡ false
    → (m : MarkerTable) (k : String)
    → (S.relation t x ≡ S.relation s x) × (S.marker t m k ≡ S.marker s m k)
publish_tables_atomic S laws C ts environ o receipts s t e h x unmarked m k = (
  (publish_tables-Undoes S (λ u. S.relation u x) (λ u v. laws.relation-rollback u v x) C ts environ
        o receipts (create_all-relation S laws x unmarked)).at
      s t e h,
  (publish_tables-Undoes S (λ u. S.marker u m k) (λ u v. laws.marker-rollback u v m k) C ts environ
        o receipts (create_all-marker S laws m k)).at
      s t e h,
)

-- ===== src/Publish/Datasets/Atomic.antt =====
-- A publish of datasets that raises.
use mathlib.Core.List.{reverse}
use snakemake_storage_plugin.Base.{◌≡◌, false, not, ◌&&◌, String, [], ap, Bool-cases, inl, inr}
use snakemake_storage_plugin.Base.Result.{err}
use snakemake_storage_plugin.Sql.{Ref, MarkerTable, Link}
use snakemake_storage_plugin.Sql.Effect.{is_marker_name, has_link}
use snakemake_storage_plugin.Sql.Server.{Server, IsServer}
use snakemake_storage_plugin.Sql.Exec.{SinkError}
use snakemake_storage_plugin.Sql.Keeps.{Keeps, Keeps-lift}
use snakemake_storage_plugin.Sql.Undoes.{
  Undoes, Returns-pure, Returns-bind, Returns-when, Undoes-Returns, Undoes-after, Undoes-then,
  Undoes-begin,
}
use snakemake_storage_plugin.Meta.{create_all}
use snakemake_storage_plugin.Meta.Create.{create_all-relation, create_all-marker, create_all-linked}
use snakemake_storage_plugin.Engine.{Environ}
use snakemake_storage_plugin.KeepOld.{Codec}
use snakemake_storage_plugin.Publish.Tables.{Options}
use snakemake_storage_plugin.Publish.Tables.Atomic.{
  analyze_relations-Returns, drop_old_tables-Returns,
}
use snakemake_storage_plugin.Publish.Steps.{Request}
use snakemake_storage_plugin.Publish.Datasets.{
  any_staged, datasets_transaction, publish_datasets_now, publish_datasets,
}

module _ (S : Server) (C : Codec) (ts : String) (environ : Environ) (o : Options) (q : Request)
    {V : Type 0} (look : S.State → V) (back : (s t : S.State) → look (S.rollback s t) ≡ look s)
    (kc : Keeps look (create_all S)) where
  -- Nothing raises after the transaction.
  publish_now-Undoes : Undoes look (publish_datasets_now S C ts environ o q)
  unfolding publish_datasets_now datasets_transaction
  publish_now-Undoes = Undoes-after look _ _ (Keeps-lift look _) λ l.
      Undoes-after look _ _ (Keeps-lift look _) λ a. Undoes-after look _ _ kc λ _.
        Undoes-then look _ _ (Undoes-begin S look _ back) λ d.
          Returns-bind _ _ (Returns-when a _ (analyze_relations-Returns S environ l d.1.fresh)) λ _.
            Returns-bind _ _ (drop_old_tables-Returns S environ l (reverse d.1.old_physical))
              λ _. Returns-pure d.0

  publish_datasets-Undoes : Undoes look (publish_datasets S C ts environ o q)
  unfolding publish_datasets
  publish_datasets-Undoes = elim (Bool-cases (not o.refresh && not (any_staged q))) [
    | inl e ↦ rw e (Undoes-Returns look _ (Returns-pure []))
    | inr e ↦ rw e publish_now-Undoes
  ]

-- A call of `publish_datasets` that raises, whatever the receipts, the options and the exception,
-- leaves every relation as it was, except the marker tables that it may have created, and leaves
-- every row of the marker tables and every row of the table of dataset components as it was.
pub publish_datasets_atomic :
    (S : Server)
    → IsServer S
    → (C : Codec) (ts : String) (environ : Environ) (o : Options) (q : Request) (s t : S.State)
      (e : SinkError)
    → publish_datasets S C ts environ o q s ≡ (err e, t)
    → (x : Ref) → is_marker_name x.name ≡ false
    → (m : MarkerTable) (k : String) (l : Link)
    → (S.relation t x ≡ S.relation s x)
      × (S.marker t m k ≡ S.marker s m k)
      × (has_link (S.link_rows t) l ≡ has_link (S.link_rows s) l)
publish_datasets_atomic S laws C ts environ o q s t e h x unmarked m k l = (
  (publish_datasets-Undoes S C ts environ o q (λ u. S.relation u x)
        (λ u v. laws.relation-rollback u v x) (create_all-relation S laws x unmarked)).at
      s t e h,
  (publish_datasets-Undoes S C ts environ o q (λ u. S.marker u m k)
        (λ u v. laws.marker-rollback u v m k) (create_all-marker S laws m k)).at
      s t e h,
  (publish_datasets-Undoes S C ts environ o q (λ u. has_link (S.link_rows u) l)
        (λ u v. ap (λ ls. has_link ls l) (laws.linked-rollback u v))
        (create_all-linked S laws l)).at
      s t e h,
)

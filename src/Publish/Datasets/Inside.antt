-- ===== src/Publish/Datasets/Inside.antt =====
-- A publish of datasets that returns: the block under its lock, and what stands around it.
use mathlib.Core.List.{reverse}
use snakemake_storage_plugin.Base.{
  ◌≡◌, refl, sym, ap, ◌∙◌, Bool, true, false, not, ◌&&◌, String, Option, none, some, List, [], ℕ,
  inl, inr,
}
use snakemake_storage_plugin.Base.Result.{ok}
use snakemake_storage_plugin.Sql.{
  Ref, MarkerTable, Link, Statement, table, set_lock_timeout, xact_lock, analyze, drop_if_exists,
}
use snakemake_storage_plugin.Sql.Effect.{has_link, is_marker_name}
use snakemake_storage_plugin.Sql.Server.{Server, IsServer}
use snakemake_storage_plugin.Sql.Exec.{bind-ok, begin-ok, if-cases, lift, execute}
use snakemake_storage_plugin.Sql.Keeps.{
  Keeps, kept, Keeps-pure, Keeps-bind, Keeps-lift, Keeps-when, Keeps-begin, Keeps-for_each,
  Keeps-best_effort, Keeps-relation, Keeps-marker, Keeps-linked,
}
use snakemake_storage_plugin.Meta.{create_all, advisory_lock}
use snakemake_storage_plugin.Meta.Create.{create_all-relation, create_all-marker, create_all-linked}
use snakemake_storage_plugin.Engine.{
  Environ, apply_lock_timeout, set_timeout, resolve_lock_timeout, resolve_analyze, resolve_keep_old,
}
use snakemake_storage_plugin.KeepOld.{Codec}
use snakemake_storage_plugin.Publish.{
  publish_lock_key, attempt, analyze_relations, drop_old_tables, distinct_refs,
}
use snakemake_storage_plugin.Publish.Tables.{Options}
use snakemake_storage_plugin.Publish.Steps.{Request}
use snakemake_storage_plugin.Publish.Swap.{Pending}
use snakemake_storage_plugin.Publish.Datasets.{
  any_staged, datasets_block, datasets_transaction, publish_datasets_now, publish_datasets,
}

-- What `look` shows is not changed by the statements around the block.
pub record Quiet (S : Server) {V : Type 0} (look : S.State → V) : Type 0 where
  pub back : (s t : S.State) → look (S.rollback s t) ≡ look s
  pub created : Keeps look (create_all S)
  pub timed : (w : List ℕ) → Keeps look (execute S (set_lock_timeout w))
  pub locked : (k : String) → Keeps look (execute S (xact_lock k))
  pub analyzed : (r : Ref) → Keeps look (execute S (analyze r))
  pub dropped : (r : Ref) → Keeps look (execute S (drop_if_exists table r))

-- What `look` shows is not changed by the statements before the block.
pub record Calm (S : Server) {V : Type 0} (look : S.State → V) : Type 0 where
  pub created : Keeps look (create_all S)
  pub timed : (w : List ℕ) → Keeps look (execute S (set_lock_timeout w))
  pub locked : (k : String) → Keeps look (execute S (xact_lock k))

module _ (S : Server) (laws : IsServer S) where
  pub relation-Calm : (x : Ref) → is_marker_name x.name ≡ false → Calm S (λ s. S.relation s x)
  relation-Calm x unmarked = record {
    created = create_all-relation S laws x unmarked;
    timed = λ w. Keeps-relation S laws x _ (λ c. refl);
    locked = λ w. Keeps-relation S laws x _ (λ c. refl);
  }

  pub marker-Quiet : (m : MarkerTable) (k : String) → Quiet S (λ s. S.marker s m k)
  marker-Quiet m k = record {
    back = λ s t. laws.marker-rollback s t m k;
    created = create_all-marker S laws m k;
    timed = λ w. Keeps-marker S laws m k _ (λ n c. refl);
    locked = λ w. Keeps-marker S laws m k _ (λ n c. refl);
    analyzed = λ r. Keeps-marker S laws m k _ (λ n c. refl);
    dropped = λ r. Keeps-marker S laws m k _ (λ n c. refl);
  }

  pub linked-Quiet : (l : Link) → Quiet S (λ s. has_link (S.link_rows s) l)
  linked-Quiet l = record {
    back = λ s t. ap (λ ls. has_link ls l) (laws.linked-rollback s t);
    created = create_all-linked S laws l;
    timed = λ w. Keeps-linked S laws l _ (λ c. refl);
    locked = λ w. Keeps-linked S laws l _ (λ c. refl);
    analyzed = λ r. Keeps-linked S laws l _ (λ c. refl);
    dropped = λ r. Keeps-linked S laws l _ (λ c. refl);
  }

module _ (S : Server) {V : Type 0} (look : S.State → V)
    (timed : (w : List ℕ) → Keeps look (execute S (set_lock_timeout w))) where
  set_timeout-Keeps : (l : Option (List ℕ)) → Keeps look (set_timeout S l)
  set_timeout-Keeps none = Keeps-pure look tt
  set_timeout-Keeps (some w) = Keeps-when look S.is_postgresql _ (timed w)

  pub apply_lock_timeout-Keeps :
      (v : Environ) (l : Option (List ℕ)) → Keeps look (apply_lock_timeout S v l)
  unfolding apply_lock_timeout
  apply_lock_timeout-Keeps v none =
      Keeps-bind look _ _ (Keeps-lift look (resolve_lock_timeout none v)) set_timeout-Keeps
  apply_lock_timeout-Keeps v (some w) = set_timeout-Keeps (some w)

module _ (S : Server) {V : Type 0} (look : S.State → V) (quiet : Quiet S look) where
  attempt-Keeps :
      (v : Environ) (l : Option (List ℕ)) (q : Statement)
      → Keeps look (execute S q)
      → Keeps look (attempt S v l q)
  unfolding attempt
  attempt-Keeps v l q e = Keeps-best_effort look _ (
      Keeps-begin S look _ quiet.back
        (Keeps-bind look _ _ (apply_lock_timeout-Keeps S look quiet.timed v l) (λ _. e)))

  pub analyze_relations-Keeps :
      (v : Environ) (l : Option (List ℕ)) (rs : List Ref) → Keeps look (analyze_relations S v l rs)
  unfolding analyze_relations
  analyze_relations-Keeps v l rs =
      Keeps-when look S.is_postgresql _
        (Keeps-for_each look _ (distinct_refs [] rs) λ r m. attempt-Keeps v l _ (quiet.analyzed r))

  pub drop_old_tables-Keeps :
      (v : Environ) (l : Option (List ℕ)) (rs : List Ref) → Keeps look (drop_old_tables S v l rs)
  unfolding drop_old_tables
  drop_old_tables-Keeps v l rs =
      Keeps-for_each look _ rs λ r m. attempt-Keeps v l _ (quiet.dropped r)

-- The block of a publish from `s` to `t` that returned the names in `published`.
pub record Inside (S : Server) (C : Codec) (ts : String) (o : Options) (aside : Bool) (q : Request)
    (s t : S.State) (published : List String) : Type 1 where
  pub before : S.State
  pub after : S.State
  pub pending : Pending
  pub block : datasets_block S C ts o.refresh aside q before ≡ (ok (published, pending), after)
  pub around :
      {V : Type 0} (look : S.State → V)
      → Quiet S look
      → (look before ≡ look s) × (look t ≡ look after)
  pub ahead : {V : Type 0} (look : S.State → V) → Calm S look → look before ≡ look s

module _ (S : Server) (C : Codec) (ts : String) (environ : Environ) (o : Options) (q : Request)
    (s t : S.State) (published : List String) where
  publish_now-Inside :
      publish_datasets_now S C ts environ o q s ≡ (ok published, t)
      → Inside S C ts o (resolve_keep_old o.keep_old environ) q s t published
  unfolding publish_datasets_now datasets_transaction advisory_lock
  publish_now-Inside h =
      let (l, s1, h1, k1) =
        bind-ok (lift (resolve_lock_timeout o.lock_timeout environ)) _ s t published h in
      let (a, s2, h2, k2) =
        bind-ok (lift (resolve_analyze o.analyze environ)) _ s1 t published k1 in
      let (_, s3, h3, k3) = bind-ok _ _ s2 t published k2 in
      let (d, s4, h4, k4) = bind-ok _ _ s3 t published k3 in
      let (_, s5, h5, k5) = bind-ok _ _ s4 t published k4 in
      let (_, s6, h6, k6) = bind-ok _ _ s5 t published k5 in
      let (_, u1, j1, i1) = bind-ok _ _ s3 s4 d (begin-ok S _ s3 s4 d h4) in
      let (_, u2, j2, i2) = bind-ok _ _ u1 s4 d i1 in
      let names : d.0 ≡ published = cc (ap (λ x. x.0) k6) in
      record {
        before = u2;
        after = s4;
        pending = d.1;
        block = i2 ∙ ap (λ n. (ok (n, d.1), s4)) names;
        ahead = λ look calm.
            kept (Keeps-when look S.is_postgresql _ (calm.locked publish_lock_key)) u1 j2
            ∙ kept (apply_lock_timeout-Keeps S look calm.timed environ l) s3 j1
            ∙ kept calm.created s2 h3
            ∙ ap (λ x. look x.1) (sym h2)
            ∙ ap (λ x. look x.1) (sym h1);
        around = λ look quiet. (
          kept (Keeps-when look S.is_postgresql _ (quiet.locked publish_lock_key)) u1 j2
              ∙ kept (apply_lock_timeout-Keeps S look quiet.timed environ l) s3 j1
              ∙ kept quiet.created s2 h3
              ∙ ap (λ x. look x.1) (sym h2)
              ∙ ap (λ x. look x.1) (sym h1),
          ap (λ x. look x.1) (sym k6)
              ∙ kept (drop_old_tables-Keeps S look quiet environ l (reverse d.1.old_physical)) s5 h6
              ∙ kept
                  (Keeps-when look a _ (analyze_relations-Keeps S look quiet environ l d.1.fresh))
                  s4 h5,
        );
      }

  -- A publish that had something to do ran its block.
  pub publish_datasets-Inside :
      any_staged q ≡ true
      → publish_datasets S C ts environ o q s ≡ (ok published, t)
      → Inside S C ts o (resolve_keep_old o.keep_old environ) q s t published
  unfolding publish_datasets
  publish_datasets-Inside work h =
      elim (if-cases (not o.refresh && not (any_staged q)) _ _ s (ok published, t) h) [
        | inl (e, _) ↦ absurd (idle o.refresh (rw work at e))
        | inr (_, h1) ↦ publish_now-Inside h1
      ]
    where
      idle : (b : Bool) → ¬ ((not b && false) ≡ true)
      idle true e = cc
      idle false e = cc

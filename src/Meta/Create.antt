-- ===== src/Meta/Create.antt =====
-- What `create_all` leaves alone, and the tables that it makes sure of.
use snakemake_storage_plugin.Base.{
  ◌≡◌, refl, ap, ◌∙◌, true, false, String, Option, none, some, is_some, contains,
}
use snakemake_storage_plugin.Base.Result.{ok}
use snakemake_storage_plugin.Sql.{
  Ref, plain, Link, Relation, MarkerTable, create_markers, xact_lock,
}
use snakemake_storage_plugin.Sql.Effect.{is_marker_name, created_if_missing, has_link}
use snakemake_storage_plugin.Sql.Server.{Server, IsServer}
use snakemake_storage_plugin.Sql.Exec.{execute, begin-ok, bind-ok, execute-relation}
use snakemake_storage_plugin.Sql.Keeps.{
  Keeps, Keeps-bind, Keeps-begin, Keeps-when, Keeps-relation, Keeps-marker, Keeps-linked,
}
use snakemake_storage_plugin.Meta.{
  create_all, advisory_lock, bootstrap_lock_key, marker_table_name, table_exists,
}

create_markers_keeps :
    (schema : Option String) (n : String) (o : Option Relation)
    → is_marker_name n ≡ false
    → created_if_missing schema n o ≡ o
create_markers_keeps (some schema) n o h = refl
create_markers_keeps none n none h = rw h refl
create_markers_keeps none n (some r) h = refl

module _ (S : Server) where
  module _ {V : Type 0} (look : S.State → V)
      (back : (s t : S.State) → look (S.rollback s t) ≡ look s) where
    create_all-Keeps :
        Keeps look (execute S create_markers)
        → Keeps look (execute S (xact_lock bootstrap_lock_key))
        → Keeps look (create_all S)
    unfolding create_all advisory_lock
    create_all-Keeps kc kl =
        Keeps-begin S look _ back
          (Keeps-bind look _ _ (Keeps-when look S.is_postgresql _ kl) (λ _. kc))

module _ (S : Server) (laws : IsServer S) where
  pub create_all-relation :
      (x : Ref) → is_marker_name x.name ≡ false → Keeps (λ s. S.relation s x) (create_all S)
  create_all-relation x h =
      create_all-Keeps S (λ s. S.relation s x) (λ s t. laws.relation-rollback s t x)
        (Keeps-relation S laws x create_markers (λ c. create_markers_keeps x.schema x.name (c x) h))
        (Keeps-relation S laws x (xact_lock bootstrap_lock_key) (λ c. refl))

  pub create_all-marker :
      (m : MarkerTable) (k : String) → Keeps (λ s. S.marker s m k) (create_all S)
  create_all-marker m k =
      create_all-Keeps S (λ s. S.marker s m k) (λ s t. laws.marker-rollback s t m k)
        (Keeps-marker S laws m k create_markers (λ now rows. refl))
        (Keeps-marker S laws m k (xact_lock bootstrap_lock_key) (λ now rows. refl))

  pub create_all-linked : (l : Link) → Keeps (λ s. has_link (S.link_rows s) l) (create_all S)
  create_all-linked l =
      create_all-Keeps S _ (λ s t. ap (λ ls. has_link ls l) (laws.linked-rollback s t))
        (Keeps-linked S laws l create_markers (λ has. refl))
        (Keeps-linked S laws l (xact_lock bootstrap_lock_key) (λ has. refl))

  -- After it has returned, each marker table exists.
  pub create_all-exists :
      (m : MarkerTable) (s t : S.State) → create_all S s ≡ (ok tt, t) → table_exists S m t ≡ true
  unfolding create_all advisory_lock table_exists contains
  create_all-exists m s t h =
      let (_, u, h1, k1) = bind-ok _ _ s t tt (begin-ok S _ s t tt h) in
      ap is_some (execute-relation S laws create_markers u t k1 (plain (marker_table_name m)))
      ∙ there m (S.relation u (plain (marker_table_name m)))
    where
      there :
          (m : MarkerTable) (o : Option Relation)
          → is_some (created_if_missing none (marker_table_name m) o) ≡ true
      there m (some r) = refl
      there MarkerTable.table_updates none = refl
      there MarkerTable.staged_updates none = refl
      there MarkerTable.dataset_updates none = refl
      there MarkerTable.contour_updates none = refl
      there MarkerTable.component_updates none = refl

-- ===== src/Stage/Private.antt =====
-- What staging leaves alone: everything that is public.
use snakemake_storage_plugin.Base.{◌&&◌, ap, ℕ, ◌≡◌, refl, false, String, Option, ◌==◌}
use snakemake_storage_plugin.Sql.{
  Ref, same_ref, MarkerTable, Link, upsert_row, update_row, insert_row, plain, table,
  staged_updates, Row, drop, create_empty, load_rows,
}
use snakemake_storage_plugin.Sql.Effect.{
  is_marker_name, same_marker_table, marker_after, Markers, has_link,
}
use snakemake_storage_plugin.Sql.Server.{Server, IsServer}
use snakemake_storage_plugin.Sql.Keeps.{
  Keeps, Keeps-bind, Keeps-gets, Keeps-pure, Keeps-if, Keeps-when, Keeps-begin, Keeps-relation,
  Keeps-marker, Keeps-linked,
}
use snakemake_storage_plugin.Meta.{staging_name, create_all}
use snakemake_storage_plugin.Engine.Upsert.{upsert_by_pk-Keeps, upsert_by_pk-relation}
use snakemake_storage_plugin.Meta.Create.{create_all-relation, create_all-marker, create_all-linked}
use snakemake_storage_plugin.Stage.{File, load_staging, stage_unless, stage_table}

module _ (S : Server) {V : Type 0} (look : S.State → V) (name : String) (file : File)
    (load : Keeps look (load_staging S name file)) where
  stage_unless-Keeps : (marker : Option Row) → Keeps look (stage_unless S name file marker)
  unfolding stage_unless
  stage_unless-Keeps marker = Keeps-bind look _ _ (Keeps-gets look _) λ live.
      Keeps-bind look _ _ (Keeps-gets look _) λ staged.
        Keeps-bind look _ _ (Keeps-gets look _) λ held. Keeps-if look live _ _ (Keeps-pure look _) (
          Keeps-if look staged _ _ (Keeps-pure look _)
            (Keeps-bind look _ _ load (λ _. Keeps-pure look _)))

  stage_table-Keeps : Keeps look (create_all S) → Keeps look (stage_table S name file)
  unfolding stage_table
  stage_table-Keeps created =
      Keeps-bind look _ _ created λ _. Keeps-bind look _ _ (Keeps-gets look _) stage_unless-Keeps

other_marker :
    (name k : String) (m : MarkerTable)
    → (same_marker_table staged_updates m && name == k) ≡ false
    → (now : ℕ) (row : Row) (rows : Markers)
    → (marker_after now (upsert_row staged_updates name row) rows m k ≡ rows m k)
      × (marker_after now (update_row staged_updates name row) rows m k ≡ rows m k)
      × (marker_after now (insert_row staged_updates name row) rows m k ≡ rows m k)
other_marker name k m far now row rows = (rw far refl, rw far refl, rw far refl)

module _ (S : Server) (laws : IsServer S) (name : String) (file : File) where
  pub load_staging-relation :
      (y : Ref)
      → same_ref (plain (staging_name name)) y ≡ false
      → Keeps (λ s. S.relation s y) (load_staging S name file)
  unfolding load_staging
  load_staging-relation y far =
      Keeps-begin S (λ s. S.relation s y) _ (λ s t. laws.relation-rollback s t y)
        (Keeps-bind _ _ _ (Keeps-gets _ _) λ found.
          Keeps-bind _ _ _
            (Keeps-when _ found _
              (Keeps-relation S laws y (drop table (plain (staging_name name))) (λ c. rw far refl)))
            λ _.
              Keeps-bind _ _ _
                (Keeps-relation S laws y (create_empty (plain (staging_name name)))
                  (λ c. rw far refl))
                λ _.
                  Keeps-bind _ _ _
                    (Keeps-relation S laws y (load_rows (plain (staging_name name)) file.row_count)
                      (λ c. rw far refl))
                    λ _. upsert_by_pk-relation S laws y staged_updates name _ _)

  load_staging-marker :
      (m : MarkerTable) (k : String)
      → (same_marker_table staged_updates m && name == k) ≡ false
      → Keeps (λ s. S.marker s m k) (load_staging S name file)
  unfolding load_staging
  load_staging-marker m k far =
      Keeps-begin S (λ s. S.marker s m k) _ (λ s t. laws.marker-rollback s t m k)
        (Keeps-bind _ _ _ (Keeps-gets _ _) λ found.
          Keeps-bind _ _ _ (Keeps-when _ found _ (Keeps-marker S laws m k _ (λ n c. refl))) λ _.
            Keeps-bind _ _ _
              (Keeps-marker S laws m k (create_empty (plain (staging_name name))) (λ n c. refl))
              λ _.
                Keeps-bind _ _ _
                  (Keeps-marker S laws m k (load_rows (plain (staging_name name)) file.row_count)
                    (λ n c. refl))
                  λ _.
                    upsert_by_pk-Keeps S laws _ staged_updates name _ _
                      (λ row.
                        Keeps-marker S laws m k _ (λ n c. (other_marker name k m far n row c).0))
                      (λ row.
                        Keeps-marker S laws m k _ (λ n c. (other_marker name k m far n row c).1))
                      (λ row.
                        Keeps-marker S laws m k _ (λ n c. (other_marker name k m far n row c).2)))

  load_staging-linked :
      (l : Link) → Keeps (λ s. has_link (S.link_rows s) l) (load_staging S name file)
  unfolding load_staging
  load_staging-linked l =
      Keeps-begin S (λ s. has_link (S.link_rows s) l) _
        (λ s t. ap (λ ls. has_link ls l) (laws.linked-rollback s t))
        (Keeps-bind _ _ _ (Keeps-gets _ _) λ found.
          Keeps-bind _ _ _ (Keeps-when _ found _ (Keeps-linked S laws l _ (λ c. refl))) λ _.
            Keeps-bind _ _ _ (Keeps-linked S laws l _ (λ c. refl)) λ _.
              Keeps-bind _ _ _ (Keeps-linked S laws l _ (λ c. refl)) λ _.
                upsert_by_pk-Keeps S laws _ staged_updates name _ _
                  (λ row. Keeps-linked S laws l _ (λ c. refl))
                  (λ row. Keeps-linked S laws l _ (λ c. refl))
                  (λ row. Keeps-linked S laws l _ (λ c. refl)))

-- Staging a table, whether it returns or raises, leaves as it was every relation of any schema, except
-- its staging table and the marker tables; every row of any marker table, except the one under its
-- name among the staged tables; and every recorded dataset component.
pub stage_table_private :
    (S : Server)
    → IsServer S
    → (name : String) (file : File) (s : S.State) (y : Ref)
    → same_ref (plain (staging_name name)) y ≡ false
    → is_marker_name y.name ≡ false
    → (m : MarkerTable) (k : String) → (same_marker_table staged_updates m && name == k) ≡ false
    → (l : Link)
    → (S.relation (stage_table S name file s).1 y ≡ S.relation s y)
      × (S.marker (stage_table S name file s).1 m k ≡ S.marker s m k)
      × (has_link (S.link_rows (stage_table S name file s).1) l ≡ has_link (S.link_rows s) l)
stage_table_private S laws name file s y far unmarked m k other l = (
  (stage_table-Keeps S (λ u. S.relation u y) name file
        (load_staging-relation S laws name file y far) (create_all-relation S laws y unmarked)).at
      s,
  (stage_table-Keeps S (λ u. S.marker u m k) name file
        (load_staging-marker S laws name file m k other) (create_all-marker S laws m k)).at
      s,
  (stage_table-Keeps S (λ u. has_link (S.link_rows u) l) name file
        (load_staging-linked S laws name file l) (create_all-linked S laws l)).at
      s,
)

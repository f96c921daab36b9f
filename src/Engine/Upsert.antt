-- ===== src/Engine/Upsert.antt =====
-- What `upsert_by_pk` writes, and what it leaves alone.
use snakemake_storage_plugin.Base.{
  ◌≡◌, refl, ◌∙◌, true, false, String, Option, none, some, ◌==◌, is_some, eq_refl, inl, inr,
}
use snakemake_storage_plugin.Base.Result.{ok}
use snakemake_storage_plugin.Sql.{Ref, MarkerTable, Row, upsert_row, update_row, insert_row}
use snakemake_storage_plugin.Sql.Effect.{assign, assign_row, same_marker_table}
use snakemake_storage_plugin.Sql.Server.{Server, IsServer}
use snakemake_storage_plugin.Sql.Exec.{execute, execute-marker, if-cases, ◌>>=◌}
use snakemake_storage_plugin.Sql.Keeps.{Keeps, Keeps-if, Keeps-bind, Keeps-gets, Keeps-relation}
use snakemake_storage_plugin.Engine.{upsert_by_pk, with_now}

module _ (S : Server) (laws : IsServer S) where
  pub upsert_by_pk-Keeps :
      {V : Type 0} (look : S.State → V) (t : MarkerTable) (k : String) (values : Row)
      (col : Option String)
      → ((row : Row) → Keeps look (execute S (upsert_row t k row)))
      → ((row : Row) → Keeps look (execute S (update_row t k row)))
      → ((row : Row) → Keeps look (execute S (insert_row t k row)))
      → Keeps look (upsert_by_pk S t k values col)
  unfolding upsert_by_pk
  upsert_by_pk-Keeps look t k values col ups upd ins =
      Keeps-bind look _ _ (Keeps-gets look _) λ now. Keeps-if look S.is_postgresql _ _ (ups _) (
        Keeps-bind look _ _ (Keeps-gets look _)
          λ old. Keeps-if look (is_some old) _ _ (upd _) (ins _))

  pub upsert_by_pk-relation :
      (x : Ref) (t : MarkerTable) (k : String) (values : Row) (col : Option String)
      → Keeps (λ s. S.relation s x) (upsert_by_pk S t k values col)
  upsert_by_pk-relation x t k values col =
      upsert_by_pk-Keeps _ t k values col (λ row. Keeps-relation S laws x _ (λ c. refl))
        (λ row. Keeps-relation S laws x _ (λ c. refl))
        (λ row. Keeps-relation S laws x _ (λ c. refl))

pub same_marker_table_refl : (m : MarkerTable) → same_marker_table m m ≡ true
same_marker_table_refl MarkerTable.table_updates = refl
same_marker_table_refl MarkerTable.staged_updates = refl
same_marker_table_refl MarkerTable.dataset_updates = refl
same_marker_table_refl MarkerTable.contour_updates = refl
same_marker_table_refl MarkerTable.component_updates = refl

not_some : {A : Type 0} (o : Option A) → is_some o ≡ false → o ≡ none
not_some none h = refl
not_some (some a) h = cc

assign_row-some :
    (row : Row) (o : Option Row) → is_some o ≡ true → assign_row row o ≡ some (assign row o)
assign_row-some row none h = cc h
assign_row-some row (some old) h = refl

-- On PostgreSQL, where it is one INSERT … ON CONFLICT, and on DuckDB, where it is a SELECT and then
-- an UPDATE or an INSERT, an `upsert_by_pk` that returns leaves the same row under its key: the
-- given values, with the transaction's time in the `now` column, in front of what the row held.
pub upsert_by_pk_writes :
    (S : Server)
    → IsServer S
    → (m : MarkerTable) (k : String) (values : Row) (col : Option String) (s t : S.State)
    → upsert_by_pk S m k values col s ≡ (ok tt, t)
    → S.marker t m k ≡ some (assign (with_now col (S.now s) values) (S.marker s m k))
unfolding upsert_by_pk ◌>>=◌
upsert_by_pk_writes S laws m k values col s t h =
    let same : same_marker_table m m ≡ true = same_marker_table_refl m in
    let self : (k == k) ≡ true = eq_refl k in
    let row = with_now col (S.now s) values in
    elim (if-cases S.is_postgresql _ _ s (ok tt, t) h) [
      | inl (_, h') ↦ rw (same, self) at (execute-marker S laws (upsert_row m k row) s t h' m k)
      | inr (_, h') ↦ elim (if-cases (is_some (S.marker s m k)) _ _ s (ok tt, t) h') [
        | inl (found, h'') ↦
            let updated : S.marker t m k ≡ assign_row row (S.marker s m k) =
              rw (same, self) at (execute-marker S laws (update_row m k row) s t h'' m k) in
            updated ∙ assign_row-some row (S.marker s m k) found
        | inr (e, h'') ↦
            let written : S.marker t m k ≡ some row =
              rw (same, self) at (execute-marker S laws (insert_row m k row) s t h'' m k) in
            rw (not_some (S.marker s m k) e) written
      ]
    ]

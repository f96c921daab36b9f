-- ===== src/Stage/Fresh.antt =====
-- After staging, the freshness check of the storage plugin holds.
use snakemake_storage_plugin.Base.{
  ◌≡◌, ◌≢◌, refl, sym, ap, ◌∙◌, Bool, true, false, ◌||◌, String, Option, none, some, is_some,
  contains, [], ◌==◌, eq_refl, eq_iff, arith, inl, inr, ℕ,
}
use snakemake_storage_plugin.Base.Result.{ok}
use snakemake_storage_plugin.Sql.{
  same_ref, plain, table, Relation, loaded, table_updates, staged_updates, Row, create_empty,
  load_rows,
}
use snakemake_storage_plugin.Sql.Effect.{is_marker_name, text_in, assign, column}
use snakemake_storage_plugin.Sql.Server.{Server, IsServer}
use snakemake_storage_plugin.Sql.Exec.{
  execute-relation, bind-ok, begin-ok, if-cases, pure-ok, ◌>>=◌,
}
use snakemake_storage_plugin.Sql.Keeps.{kept}
use snakemake_storage_plugin.Meta.{
  staging_name, marker_table_name, fetch_one, table_exists, create_all,
}
use snakemake_storage_plugin.Meta.Create.{create_all-exists}
use snakemake_storage_plugin.Engine.{with_now}
use snakemake_storage_plugin.Engine.Upsert.{upsert_by_pk-relation, upsert_by_pk_writes}
use snakemake_storage_plugin.Stage.{
  File, StageReceipt, published_now, staged_now, is_current, stage_values, load_staging,
  stage_unless, stage_table,
}
use snakemake_storage_plugin.Stage.Private.{load_staging-relation}

abbrev pub filled_with : ℕ → Relation
filled_with n = record { kind = table; body = loaded n; comment = none; grants = [] }

or_true : (b : Bool) → (b || true) ≡ true
or_true true = refl
or_true false = refl

unlike : (a b : String) → a ≢ b → same_ref (plain a) (plain b) ≡ false
unlike a b far = ground (arith, eq_iff a b)

module _ (S : Server) (laws : IsServer S) (name : String) (file : File) where
  -- The staged marker row carries the file's version.
  staged_version :
      (s : S.State) (o : Option Row)
      → text_in "update_id"
          (some (assign (with_now (some "staged_at") (S.now s) (stage_values name file)) o))
        ≡ some file.update_id
  unfolding column
  staged_version s none = refl
  staged_version s (some row) = refl

  -- What the transaction has put in place when it returns.
  load_staging_puts :
      (s t : S.State)
      → load_staging S name file s ≡ (ok tt, t)
      → (S.relation t (plain (staging_name name)) ≡ some (filled_with file.row_count))
        × (text_in "update_id" (S.marker t staged_updates name) ≡ some file.update_id)
  unfolding load_staging
  load_staging_puts s t h =
      let stg = plain (staging_name name) in
      let self : (staging_name name == staging_name name) ≡ true = eq_refl (staging_name name) in
      let (_, s1, h1, k1) = bind-ok _ _ s t tt (begin-ok S _ s t tt h) in
      let (_, s2, h2, k2) = bind-ok _ _ s1 t tt k1 in
      let (_, s3, h3, k3) = bind-ok _ _ s2 t tt k2 in
      let (_, s4, h4, k4) = bind-ok _ _ s3 t tt k3 in
      let made = execute-relation S laws (create_empty stg) s2 s3 h3 stg in
      let filled = execute-relation S laws (load_rows stg file.row_count) s3 s4 h4 stg in
      let empty : S.relation s3 stg ≡ some (filled_with 0) = rw self at made in
      let full : S.relation s4 stg ≡ some (filled_with file.row_count) =
        rw (self, empty) at filled in
      (
        kept (upsert_by_pk-relation S laws stg staged_updates name _ _) s4 k4 ∙ full,
        ap (text_in "update_id") (upsert_by_pk_writes S laws staged_updates name _ _ s4 t k4)
            ∙ staged_version s4 (S.marker s4 staged_updates name),
      )

  staged_there :
      (s t : S.State)
      → is_some (S.relation t (plain (marker_table_name staged_updates))) ≡ true
      → S.relation t (plain (staging_name name)) ≡ some (filled_with file.row_count)
      → text_in "update_id" (S.marker t staged_updates name) ≡ some file.update_id
      → staged_now S name file t ≡ true
  unfolding fetch_one table_exists
  staged_there s t tables rel ver =
      let self : (file.update_id == file.update_id) ≡ true = eq_refl file.update_id in
      rw (tables, ver, self, rel) refl

  stage_unless_fresh :
      (marker : Option Row) (s t : S.State) (r : StageReceipt)
      → (marker_table_name staged_updates ≢ staging_name name)
      → table_exists S staged_updates s ≡ true
      → stage_unless S name file marker s ≡ (ok r, t)
      → is_current S name file t ≡ true
  unfolding stage_unless is_current table_exists ◌>>=◌
  stage_unless_fresh marker s t r apart tables h =
      elim (if-cases (published_now S name file s) _ _ s (ok r, t) h) [
        | inl (live, h1) ↦ let (_, end) = pure-ok h1 in rw (← end, live) refl
        | inr (_, h1) ↦ elim (if-cases (staged_now S name file s) _ _ s (ok r, t) h1) [
          | inl (staged, h2) ↦ let (_, end) = pure-ok h2 in rw (← end, staged) (or_true _)
          | inr (_, h2) ↦
              let (_, u, loaded_ok, k) = bind-ok (load_staging S name file) _ s t r h2 in
              let (_, end) = pure-ok k in
              let (rel, ver) = load_staging_puts s u loaded_ok in
              let held =
                kept
                  (load_staging-relation S laws name file (plain (marker_table_name staged_updates))
                    (unlike _ _ (λ e. apart (sym e))))
                  s loaded_ok in
              rw (← end) (rw (staged_there s u (ap is_some held ∙ tables) rel ver) (or_true _))
        ]
      ]

-- When `stage_table` returns, the freshness check of the same file holds, whichever of its three
-- cases it took: the table was live at that version, it was staged already, or it was loaded.
-- The condition is that the staging name is not a marker table's.
pub stage_table_fresh :
    (S : Server)
    → IsServer S
    → (name : String) (file : File) (s t : S.State) (r : StageReceipt)
    → is_marker_name (staging_name name) ≡ false
    → stage_table S name file s ≡ (ok r, t)
    → is_current S name file t ≡ true
unfolding stage_table ◌>>=◌ contains
stage_table_fresh S laws name file s t r unmarked h =
    let (_, u, created, k) = bind-ok (create_all S) _ s t r h in
    let marked : is_marker_name (marker_table_name staged_updates) ≡ true = refl in
    stage_unless_fresh S laws name file (fetch_one S table_updates name u) u t r
      (λ e. cc (ap is_marker_name e)) (create_all-exists S laws staged_updates s u created) k

-- ===== src/Publish/Tables/Installs.antt =====
-- What a publish of tables that returns has put into place.
use snakemake_storage_plugin.Base.{
  ◌≡◌, ◌≢◌, refl, ap, ◌∙◌, Bool, true, false, String, Option, none, some, List, [], ◌∷◌, ◌==◌,
  arith, eq_iff, eq_refl,
}
use snakemake_storage_plugin.Base.Result.{ok}
use snakemake_storage_plugin.Sql.{plain, table, MarkerTable, table_updates, Row, rename}
use snakemake_storage_plugin.Sql.Effect.{column, assign}
use snakemake_storage_plugin.Sql.Server.{Server, IsServer}
use snakemake_storage_plugin.Sql.Exec.{
  ◌>>=◌, publish_conflict, execute, bind-ok, raise_if-ok, execute-relation,
}
use snakemake_storage_plugin.Sql.Keeps.{
  Keeps, kept, Keeps-if, Keeps-bind, Keeps-gets, Keeps-raise_if, Keeps-pure, Keeps-relation,
  Keeps-marker,
}
use snakemake_storage_plugin.Meta.{staging_name}
use snakemake_storage_plugin.Engine.{upsert_by_pk, with_now}
use snakemake_storage_plugin.Engine.Upsert.{
  upsert_by_pk-Keeps, upsert_by_pk-relation, upsert_by_pk_writes,
}
use snakemake_storage_plugin.KeepOld.{Codec, old_name}
use snakemake_storage_plugin.KeepOld.Park.{park-relation, park-marker}
use snakemake_storage_plugin.Sql.Effect.{text_in}
use snakemake_storage_plugin.Publish.{assert_marker_unchanged, version_of, changed_since}
use snakemake_storage_plugin.Publish.Tables.{
  Receipt, marker_values, aside_name, move_aside, publish_one,
}

-- Where the live table goes.
abbrev pub away : Bool → String → String → String
away true ts n = old_name n
away false ts n = aside_name ts n

-- The names that a publish of these receipts gives, takes away or moves.
abbrev pub names_touched : Bool → String → List Receipt → List String
names_touched keep_aside ts [] = []
names_touched keep_aside ts (r ∷ rs) =
    r.table ∷ staging_name r.table ∷ away keep_aside ts r.table ∷ names_touched keep_aside ts rs

-- The receipt's staged table is the live one, with the receipt's version in its marker row, and the
-- version that was live before is the one that the staging saw, if there was one.
abbrev pub Installed : (S : Server) → Receipt → S.State → S.State → Type 0
Installed S r s t =
    (S.relation t (plain r.table) ≡ S.relation s (plain (staging_name r.table)))
    × (version_of S table_updates "update_id" r.table t ≡ some r.update_id)
    × (changed_since (version_of S table_updates "update_id" r.table s)
          r.marker_update_id_at_stage_time
        ≡ false)

module _ (S : Server) (laws : IsServer S) where
  pub assert_marker_unchanged-Keeps :
      {V : Type 0} (look : S.State → V) (m : MarkerTable) (k : String) (from : Option String)
      → Keeps look (assert_marker_unchanged S m k from)
  unfolding assert_marker_unchanged
  assert_marker_unchanged-Keeps look m k from =
      Keeps-bind look _ _ (Keeps-gets look _) (λ v. Keeps-raise_if look _ _)

  assert_marker_unchanged-ok :
      (m : MarkerTable) (k : String) (from : Option String) (s t : S.State)
      → assert_marker_unchanged S m k from s ≡ (ok tt, t)
      → changed_since (version_of S m "update_id" k s) from ≡ false
  unfolding assert_marker_unchanged ◌>>=◌
  assert_marker_unchanged-ok m k from s t h =
      (raise_if-ok (changed_since (version_of S m "update_id" k s) from) (publish_conflict k) s t
        h).0

  renamed_into :
      (a b : String) (s t : S.State)
      → execute S (rename table (plain a) b) s ≡ (ok tt, t)
      → S.relation t (plain b) ≡ S.relation s (plain a)
  renamed_into a b s t h =
      let self : (b == b) ≡ true = eq_refl b in
      rw self at (execute-relation S laws (rename table (plain a) b) s t h (plain b))

  -- The row that the upsert leaves carries the receipt's version.
  upsert_by_pk-version :
      (r : Receipt) (s t : S.State)
      → upsert_by_pk S table_updates r.table (marker_values r) (some "published_at") s ≡ (ok tt, t)
      → version_of S table_updates "update_id" r.table t ≡ some r.update_id
  unfolding column
  upsert_by_pk-version r s t h =
      let written =
        upsert_by_pk_writes S laws table_updates r.table (marker_values r) (some "published_at") s t
          h in
      ap (text_in "update_id") written ∙ read_back (S.marker s table_updates r.table)
    where
      read_back :
          (o : Option Row)
          → text_in "update_id"
              (some (assign (with_now (some "published_at") (S.now s) (marker_values r)) o))
            ≡ some r.update_id
      read_back none = refl
      read_back (some row) = refl

  module _ (C : Codec) (ts : String) where
    move_aside-relation :
        (b : Bool) (n y : String)
        → n ≢ y
        → away b ts n ≢ y
        → Keeps (λ s. S.relation s (plain y)) (move_aside S C ts b n)
    unfolding move_aside
    move_aside-relation true n y d d' =
        Keeps-bind _ _ _ (park-relation S laws C n y d d') (λ _. Keeps-pure _ [])
    move_aside-relation false n y d d' =
        let e : (n == y) ≡ false = ground (arith, eq_iff n y) in
        let e' : (aside_name ts n == y) ≡ false = ground (arith, eq_iff (aside_name ts n) y) in
        Keeps-bind (λ s. S.relation s (plain y)) _ _ (Keeps-gets _ _)
          λ found.
            Keeps-if _ found _ _
              (Keeps-bind _ _ _ (Keeps-relation S laws (plain y) _ (λ c. rw (e', e) refl))
                (λ _. Keeps-pure _ _))
              (Keeps-pure _ [])

    move_aside-marker :
        (b : Bool) (n : String) (m : MarkerTable) (k : String)
        → Keeps (λ s. S.marker s m k) (move_aside S C ts b n)
    unfolding move_aside
    move_aside-marker true n m k =
        Keeps-bind _ _ _ (park-marker S laws C n m k) (λ _. Keeps-pure _ [])
    move_aside-marker false n m k =
        Keeps-bind (λ s. S.marker s m k) _ _ (Keeps-gets _ _)
          λ found.
            Keeps-if _ found _ _
              (Keeps-bind _ _ _ (Keeps-marker S laws m k _ (λ now rows. refl))
                (λ _. Keeps-pure _ _))
              (Keeps-pure _ [])

    pub publish_one-relation :
        (b : Bool) (r : Receipt) (y : String)
        → r.table ≢ y
        → staging_name r.table ≢ y
        → away b ts r.table ≢ y
        → Keeps (λ s. S.relation s (plain y)) (publish_one S C ts b r)
    unfolding publish_one
    publish_one-relation b r y d d' d'' =
        let e : (r.table == y) ≡ false = ground (arith, eq_iff r.table y) in
        let e' : (staging_name r.table == y) ≡ false =
          ground (arith, eq_iff (staging_name r.table) y) in
        Keeps-bind (λ s. S.relation s (plain y)) _ _ (assert_marker_unchanged-Keeps _ _ _ _)
          λ _. Keeps-bind _ _ _ (move_aside-relation b r.table y d d'') λ old.
            Keeps-bind _ _ _ (Keeps-relation S laws (plain y) _ (λ c. rw (e, e') refl)) λ _.
              Keeps-bind _ _ _ (upsert_by_pk-relation S laws (plain y) table_updates r.table _ _)
                λ _. Keeps-pure _ old

    pub publish_one-marker :
        (b : Bool) (r : Receipt) (k : String)
        → r.table ≢ k
        → Keeps (λ s. S.marker s table_updates k) (publish_one S C ts b r)
    unfolding publish_one
    publish_one-marker b r k d =
        let e : (r.table == k) ≡ false = ground (arith, eq_iff r.table k) in
        Keeps-bind (λ s. S.marker s table_updates k) _ _ (assert_marker_unchanged-Keeps _ _ _ _)
          λ _. Keeps-bind _ _ _ (move_aside-marker b r.table table_updates k) λ old.
            Keeps-bind _ _ _ (Keeps-marker S laws table_updates k _ (λ now rows. refl)) λ _.
              Keeps-bind _ _ _
                (upsert_by_pk-Keeps S laws (λ s. S.marker s table_updates k) table_updates r.table _
                  _ (λ row. Keeps-marker S laws table_updates k _ (λ now rows. rw e refl))
                  (λ row. Keeps-marker S laws table_updates k _ (λ now rows. rw e refl))
                  (λ row. Keeps-marker S laws table_updates k _ (λ now rows. rw e refl)))
                λ _. Keeps-pure _ old

    pub publish_one_installs :
        (b : Bool) (r : Receipt) (s t : S.State) (old : List String)
        → staging_name r.table ≢ r.table
        → r.table ≢ staging_name r.table
        → away b ts r.table ≢ staging_name r.table
        → publish_one S C ts b r s ≡ (ok old, t)
        → Installed S r s t
    unfolding publish_one
    publish_one_installs b r s t old d d' d'' h =
        let (_, s1, h1, k1) = bind-ok _ _ s t old h in
        let (o, s2, h2, k2) = bind-ok _ _ s1 t old k1 in
        let (_, s3, h3, k3) = bind-ok _ _ s2 t old k2 in
        let (_, s4, h4, k4) = bind-ok _ _ s3 t old k3 in
        let end : s4 ≡ t = ap (λ x. x.1) k4 in
        let look = λ (u : S.State). S.relation u (plain (staging_name r.table)) in
        let before : look s2 ≡ look s =
          kept (move_aside-relation b r.table (staging_name r.table) d' d'') s1 h2
          ∙ kept (assert_marker_unchanged-Keeps look table_updates r.table _) s h1 in
        let moved : S.relation s3 (plain r.table) ≡ look s2 =
          renamed_into (staging_name r.table) r.table s2 s3 h3 in
        let after : S.relation s4 (plain r.table) ≡ S.relation s3 (plain r.table) =
          kept
            (upsert_by_pk-relation S laws (plain r.table) table_updates r.table (marker_values r) _)
            s3 h4 in
        rw (← end) (
          after ∙ moved ∙ before,
          upsert_by_pk-version r s3 s4 h4,
          assert_marker_unchanged-ok table_updates r.table _ s s1 h1,
        )

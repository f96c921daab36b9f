-- ===== src/KeepOld/Forget.antt =====
-- The markers that a rollback forgets.
use snakemake_storage_plugin.Base.{
  ◌≡◌, refl, sym, ap, ◌∙◌, Bool, true, false, ◌&&◌, String, Option, none, List, [], ◌∷◌,
  if◌then◌else◌, map, arith, contains, mem→contains, Memᴰ, is_some, mem-map,
}
use snakemake_storage_plugin.Base.Result.{ok}
use snakemake_storage_plugin.Sql.{
  plain, Kind, MarkerTable, table_updates, staged_updates, dataset_updates, contour_updates,
  component_updates, Row, delete_rows, delete_links,
}
use snakemake_storage_plugin.Sql.Effect.{same_marker_table}
use snakemake_storage_plugin.Sql.Server.{Server, IsServer}
use snakemake_storage_plugin.Sql.Exec.{
  execute, begin-ok, bind-ok, pure-ok, gets, when, execute-relation, execute-marker,
}
use snakemake_storage_plugin.Meta.{
  advisory_lock, has_table, table_exists, fetch_one, marker_table_name,
}
use snakemake_storage_plugin.Engine.{Environ}
use snakemake_storage_plugin.Engine.Upsert.{same_marker_table_refl}
use snakemake_storage_plugin.KeepOld.{Codec}
use snakemake_storage_plugin.KeepOld.Rollback.{
  KeptRelation, forget_in, forget_markers, select, list_kept, rollback_block, rollback_kept_old,
}

-- No row of the marker table is read for the name.
abbrev pub Forgotten : (S : Server) → MarkerTable → String → S.State → Type 0
Forgotten S m n s = fetch_one S m n s ≡ none

absent : (b : Bool) (o : Option Row) → o ≡ none → (if b then o else none) ≡ none
absent true o e = e
absent false o e = refl

module _ (S : Server) (laws : IsServer S) (C : Codec) (n : String) where
  -- What is left of a row when the names are deleted from the table `u`.
  deleted-Forgotten :
      (u m : MarkerTable) (names : List String) (s t : S.State)
      → execute S (delete_rows u names) s ≡ (ok tt, t)
      → Forgotten S m n s
      → Forgotten S m n t
  unfolding fetch_one table_exists
  deleted-Forgotten u m names s t h gone =
      let rel = execute-relation S laws (delete_rows u names) s t h (plain (marker_table_name m)) in
      let row = execute-marker S laws (delete_rows u names) s t h m n in
      rw (rel, row)
        (still (is_some (S.relation s (plain (marker_table_name m))))
          (same_marker_table u m && contains n names) (S.marker s m n) gone)
    where
      still :
          (there hit : Bool) (o : Option Row)
          → (if there then o else none) ≡ none
          → (if there then if hit then none else o else none) ≡ none
      still there hit o gone = ground arith

  forget_in-Forgotten :
      (u m : MarkerTable) (names : List String) (s t : S.State)
      → forget_in S C u names s ≡ (ok tt, t)
      → Forgotten S m n s
      → Forgotten S m n t
  unfolding forget_in
  forget_in-Forgotten u m names s t h gone =
      let (there, u1, h1, k1) = bind-ok (gets (table_exists S u)) _ s t tt h in
      by_case there u1 k1 (rw (sym (pure-ok h1).1) gone)
    where
      by_case :
          (there : Bool) (u1 : S.State)
          → when there (execute S (delete_rows u names)) u1 ≡ (ok tt, t)
          → Forgotten S m n u1
          → Forgotten S m n t
      by_case true u1 k g = deleted-Forgotten u m names u1 t k g
      by_case false u1 k g = rw (sym (ap (λ x. x.1) k)) g

  forget_in_hits :
      (m : MarkerTable) (names : List String) (s t : S.State)
      → contains n names ≡ true
      → forget_in S C m names s ≡ (ok tt, t)
      → Forgotten S m n t
  unfolding forget_in fetch_one
  forget_in_hits m names s t listed h =
      let (there, u1, h1, k1) = bind-ok (gets (table_exists S m)) _ s t tt h in
      by_case there u1 ((pure-ok h1).0 ∙ refl) (pure-ok h1).1 k1
    where
      by_case :
          (there : Bool) (u1 : S.State)
          → table_exists S m s ≡ there
          → s ≡ u1
          → when there (execute S (delete_rows m names)) u1 ≡ (ok tt, t)
          → Forgotten S m n t
      by_case true u1 e same k =
          let row : S.marker t m n ≡ none =
            rw (same_marker_table_refl m, listed) at
              (execute-marker S laws (delete_rows m names) u1 t k m n) in
          absent (table_exists S m t) (S.marker t m n) row
      by_case false u1 e same k = let end : s ≡ t = same ∙ ap (λ x. x.1) k in rw (← end, e) refl

  links-Forgotten :
      (m : MarkerTable) (names : List String) (there : Bool) (s t : S.State)
      → when there (execute S (delete_links names)) s ≡ (ok tt, t)
      → Forgotten S m n s
      → Forgotten S m n t
  unfolding fetch_one table_exists
  links-Forgotten m names true s t h gone =
      let rel = execute-relation S laws (delete_links names) s t h (plain (marker_table_name m)) in
      let row = execute-marker S laws (delete_links names) s t h m n in rw (rel, row) gone
  links-Forgotten m names false s t h gone = rw (sym (ap (λ x. x.1) h)) gone

  forget_markers-Forgotten :
      (m : MarkerTable) (names : List String) (s t : S.State)
      → same_marker_table m staged_updates ≡ false
      → Memᴰ n names
      → forget_markers S C names s ≡ (ok tt, t)
      → Forgotten S m n t
  unfolding forget_markers
  forget_markers-Forgotten m [] s t published listed h = elim listed [ ]
  forget_markers-Forgotten m (x ∷ xs) s t published listed h =
      let names = x ∷ xs in
      let here = mem→contains n names listed in
      let (_, s1, h1, k1) = bind-ok _ _ s t tt h in
      let (_, s2, h2, k2) = bind-ok _ _ s1 t tt k1 in
      let (_, s3, h3, k3) = bind-ok _ _ s2 t tt k2 in
      let (_, s4, h4, k4) = bind-ok _ _ s3 t tt k3 in
      let (there, s5, h5, k5) =
        bind-ok (gets (has_table S (plain "_pipeline_meta_dataset_components"))) _ s4 t tt k4 in
      let last : Forgotten S m n s4 → Forgotten S m n t =
        λ g. links-Forgotten m names there s5 t k5 (rw (sym (pure-ok h5).1) g) in
      last (by_table m published here s1 s2 s3 s4 h1 h2 h3 h4)
    where
      by_table :
          (m : MarkerTable)
          → same_marker_table m staged_updates ≡ false
          → contains n (x ∷ xs) ≡ true
          → (s1 s2 s3 s4 : S.State) → forget_in S C table_updates (x ∷ xs) s ≡ (ok tt, s1)
          → forget_in S C dataset_updates (x ∷ xs) s1 ≡ (ok tt, s2)
          → forget_in S C component_updates (x ∷ xs) s2 ≡ (ok tt, s3)
          → forget_in S C contour_updates (x ∷ xs) s3 ≡ (ok tt, s4)
          → Forgotten S m n s4
      by_table table_updates p here s1 s2 s3 s4 h1 h2 h3 h4 =
          forget_in-Forgotten contour_updates table_updates _ s3 s4 h4 (
            forget_in-Forgotten component_updates table_updates _ s2 s3 h3 (
              forget_in-Forgotten dataset_updates table_updates _ s1 s2 h2
                (forget_in_hits table_updates _ s s1 here h1)))
      by_table staged_updates p here s1 s2 s3 s4 h1 h2 h3 h4 = absurd (cc p)
      by_table dataset_updates p here s1 s2 s3 s4 h1 h2 h3 h4 =
          forget_in-Forgotten contour_updates dataset_updates _ s3 s4 h4 (
            forget_in-Forgotten component_updates dataset_updates _ s2 s3 h3
              (forget_in_hits dataset_updates _ s1 s2 here h2))
      by_table component_updates p here s1 s2 s3 s4 h1 h2 h3 h4 =
          forget_in-Forgotten contour_updates component_updates _ s3 s4 h4
            (forget_in_hits component_updates _ s2 s3 here h3)
      by_table contour_updates p here s1 s2 s3 s4 h1 h2 h3 h4 =
          forget_in_hits contour_updates _ s3 s4 here h4

-- If `rollback_kept_old` returns, then no marker of a published table, dataset, component or
-- contour is read for the name of a relation that it restored.
pub rollback_kept_old_forgets :
    (S : Server)
    → IsServer S
    → (C : Codec) (found : S.State → List (String × String × Kind)) (environ : Environ)
      (lock_timeout : Option String) (names : Option (List String)) (schemas : List String)
      (s t : S.State) (restored : List KeptRelation)
    → rollback_kept_old S C found environ lock_timeout names schemas s ≡ (ok restored, t)
    → (k : KeptRelation) → Memᴰ k restored
    → (m : MarkerTable) → same_marker_table m staged_updates ≡ false
    → fetch_one S m k.name t ≡ none
unfolding rollback_kept_old rollback_block advisory_lock
rollback_kept_old_forgets S laws C found environ lock_timeout names schemas s t restored h k listed
      m published =
    let (_, s1, h1, k1) = bind-ok _ _ s t restored (begin-ok S _ s t restored h) in
    let (_, s2, h2, k2) = bind-ok _ _ s1 t restored k1 in
    let (kept, s3, h3, k3) =
      bind-ok (gets (λ s. select names (list_kept S C found schemas s))) _ s2 t restored k2 in
    let (_, s4, h4, k4) = bind-ok _ _ s3 t restored k3 in
    let (_, s5, h5, k5) = bind-ok _ _ s4 t restored k4 in
    let same : restored ≡ kept = cc (ap (λ x. x.0) k5) in
    let end : s5 ≡ t = ap (λ x. x.1) k5 in
    ap (fetch_one S m k.name) (sym end)
    ∙ (forget_markers-Forgotten S laws C k.name m (map (λ k. k.name) kept) s4 s5 published
        (mem-map (λ k. k.name) k kept (rw same at listed)) h5)

-- ===== src/Publish/Tables/Published.antt =====
-- `publish_tables` as a whole: what stands in the database when it returns.
use snakemake_storage_plugin.Base.{
  ◌≡◌, refl, sym, ap, ◌∙◌, Bool, true, false, not, ◌&&◌, String, Option, some, List, Memᴰ, Distinct,
  inl, inr, ℕ, any, any-mem, keep, map, has_duplicate, has_duplicate-Distinct, Bool-cases,
}
use snakemake_storage_plugin.Base.Result.{ok}
use snakemake_storage_plugin.Sql.{plain, table_updates, xact_lock}
use snakemake_storage_plugin.Sql.Effect.{is_marker_name}
use snakemake_storage_plugin.Sql.Server.{Server, IsServer}
use snakemake_storage_plugin.Sql.Exec.{pure, pure-ok, bind-ok, begin-ok, if-cases, when, ◌>>=◌}
use snakemake_storage_plugin.Sql.Keeps.{kept, Keeps-when, Keeps-relation, Keeps-marker}
use snakemake_storage_plugin.Meta.{staging_name, has_table, advisory_lock}
use snakemake_storage_plugin.Engine.{Environ, resolve_keep_old}
use snakemake_storage_plugin.KeepOld.{Codec}
use snakemake_storage_plugin.Sql.Effect.{text_in, same_option}
use snakemake_storage_plugin.Publish.{
  publish_lock_key, version_of, is_published, demote_published, refresh_markers,
}
use snakemake_storage_plugin.Publish.Tables.{
  Receipt, Options, demote, publish_each, publish_block, publish_transaction, publish_now,
  publish_tables,
}
use snakemake_storage_plugin.Publish.Tables.Installs.{Installed, names_touched}
use snakemake_storage_plugin.Publish.Tables.Staged.{demote_if, staged_mem, staged_Distinct}
use snakemake_storage_plugin.Publish.Tables.Each.{publish_each_installs, olds_apart}
use snakemake_storage_plugin.Publish.Tables.Around.{
  apply_lock_timeout-relation, apply_lock_timeout-marker, refresh_markers-relation,
  refresh_markers-version, drop_old_tables-relation, drop_old_tables-marker,
  analyze_relations-relation, analyze_relations-marker,
}
use snakemake_storage_plugin.Meta.Create.{create_all-relation, create_all-marker}

not_second : (a x : Bool) → not x ≡ true → (a && x) ≡ false
not_second true false h = refl
not_second false x h = refl
not_second true true h = absurd (cc h)

module _ (S : Server) (laws : IsServer S) (C : Codec) (ts : String) where
  abbrev unlive : (r : Receipt) (s : S.State) → Bool
  unlive r s = not (
      same_option (version_of S table_updates "update_id" r.table s) (some r.update_id)
      && has_table S (plain r.table) s)

  unlive-same :
      (r : Receipt) (s t : S.State)
      → S.marker t table_updates r.table ≡ S.marker s table_updates r.table
      → S.relation t (plain r.table) ≡ S.relation s (plain r.table)
      → unlive r s ≡ true
      → unlive r t ≡ true
  unlive-same r s t row rel un = rw (row, rel, un) refl

  publish_block_installs :
      (refresh b : Bool) (rs : List Receipt) (s t : S.State) (names olds : List String)
      → Distinct (names_touched b ts rs)
      → publish_block S C ts refresh b rs s ≡ (ok (names, olds), t)
      → (r : Receipt) → Memᴰ r rs
      → r.staged ≡ true
      → unlive r s ≡ true
      → Installed S r s t × (¬ Memᴰ r.table olds)
  unfolding publish_block demote_published ◌>>=◌
  publish_block_installs refresh b rs s t names olds dist h r m st un =
      let p =
        is_published S {R = Receipt} (λ r. r.staged) demote (λ r. r.table) (λ r. r.update_id)
          table_updates "update_id" (λ r. has_table S (plain r.table)) s in
      let rs' = keep (λ r. r.staged) (map (demote_if p) rs) in
      let ((names', olds'), v, h2, k2) =
        bind-ok (publish_each S C ts b rs') _ s t (names, olds) h in
      let (_, w, h3, k3) =
        bind-ok
          (when refresh
            (refresh_markers S table_updates (map (λ r. r.table) (map (demote_if p) rs))))
          (λ _. pure (names', olds')) v t (names, olds) k2 in
      let (same_done, end) = pure-ok k3 in
      let same : olds' ≡ olds = ap (λ x. x.1) same_done in
      let m' = staged_mem p r rs m st (not_second r.staged _ un) in
      let d' = staged_Distinct p b ts rs dist in
      let (rel, ver, unc) =
        publish_each_installs S laws C ts b rs' s v (names', olds') d' h2 r m' in
      rw (← end, ← same)
        (
          (
            kept (Keeps-when _ refresh _ (refresh_markers-relation S laws (plain r.table) _)) v h3
                ∙ rel,
            kept (Keeps-when _ refresh _ (refresh_markers-version S laws r.table _)) v h3 ∙ ver,
            unc,
          ),
          olds_apart S laws C ts b rs' s v names' olds' d' h2 r m',
        )

  -- Inside the transaction, with the lock.
  publish_transaction_installs :
      (environ : Environ) (refresh b : Bool) (l : Option (List ℕ)) (rs : List Receipt)
      (s t : S.State) (names olds : List String)
      → Distinct (names_touched b ts rs)
      → publish_transaction S C ts environ refresh b l rs s ≡ (ok (names, olds), t)
      → (r : Receipt) → Memᴰ r rs
      → r.staged ≡ true
      → unlive r s ≡ true
      → Installed S r s t × (¬ Memᴰ r.table olds)
  unfolding publish_transaction advisory_lock
  publish_transaction_installs environ refresh b l rs s t names olds dist h r m st un =
      let (_, u, h1, k1) = bind-ok _ _ s t (names, olds) (begin-ok S _ s t (names, olds) h) in
      let (_, v, h2, k2) = bind-ok _ _ u t (names, olds) k1 in
      let lock-rel = Keeps-when _ S.is_postgresql _ (
        Keeps-relation S laws (plain (staging_name r.table)) (xact_lock publish_lock_key)
          (λ c. refl)) in
      let lock-mark =
        Keeps-when _ S.is_postgresql _
          (Keeps-marker S laws table_updates r.table (xact_lock publish_lock_key) (λ n c. refl)) in
      let same-row : S.marker v table_updates r.table ≡ S.marker s table_updates r.table =
        kept lock-mark u h2 ∙ kept (apply_lock_timeout-marker S laws r.table environ l) s h1 in
      let same-live : S.relation v (plain r.table) ≡ S.relation s (plain r.table) =
        kept
          (Keeps-when _ S.is_postgresql _
            (Keeps-relation S laws (plain r.table) (xact_lock publish_lock_key) (λ c. refl)))
          u h2
        ∙ kept (apply_lock_timeout-relation S laws (plain r.table) environ l) s h1 in
      let un' = unlive-same r s v same-row same-live un in
      let ((rel, ver, unc), apart) =
        publish_block_installs refresh b rs v t names olds dist k2 r m st un' in
      (
        (
          rel
              ∙ kept lock-rel u h2
              ∙ kept (apply_lock_timeout-relation S laws (plain (staging_name r.table)) environ l) s
                  h1,
          ver,
          rw (← ap (text_in "update_id") same-row) unc,
        ),
        apart,
      )

  publish_now_installs :
      (environ : Environ) (o : Options) (rs : List Receipt) (s t : S.State)
      (published : List String)
      → Distinct (names_touched (resolve_keep_old o.keep_old environ) ts rs)
      → publish_now S C ts environ o rs s ≡ (ok published, t)
      → (r : Receipt) → Memᴰ r rs
      → is_marker_name (staging_name r.table) ≡ false
      → is_marker_name r.table ≡ false
      → r.staged ≡ true
      → unlive r s ≡ true
      → Installed S r s t
  unfolding publish_now
  publish_now_installs environ o rs s t published dist h r m unmarked live_unmarked st un =
      let (l, s1, h1, k1) = bind-ok _ _ s t published h in
      let (do_analyze, s2, h2, k2) = bind-ok _ _ s1 t published k1 in
      let (_, s3, h3, k3) = bind-ok _ _ s2 t published k2 in
      let ((names, olds), s4, h4, k4) = bind-ok _ _ s3 t published k3 in
      let (_, s5, h5, k5) = bind-ok _ _ s4 t published k4 in
      let (_, s6, h6, k6) = bind-ok _ _ s5 t published k5 in
      let start : s2 ≡ s = sym (ap (λ x. x.1) h2) ∙ sym (ap (λ x. x.1) h1) in
      let end : s6 ≡ t = ap (λ x. x.1) k6 in
      let same-row : S.marker s3 table_updates r.table ≡ S.marker s table_updates r.table =
        kept (create_all-marker S laws table_updates r.table) s2 h3
        ∙ ap (λ u. S.marker u table_updates r.table) start in
      let same-live : S.relation s3 (plain r.table) ≡ S.relation s (plain r.table) =
        kept (create_all-relation S laws (plain r.table) live_unmarked) s2 h3
        ∙ ap (λ u. S.relation u (plain r.table)) start in
      let un' = unlive-same r s s3 same-row same-live un in
      let ((rel, ver, unc), apart) =
        publish_transaction_installs environ o.refresh (resolve_keep_old o.keep_old environ) l rs s3
          s4 names olds dist h4 r m st un' in
      rw (← end) (
        kept (drop_old_tables-relation S laws r.table environ l olds apart) s5 h6
            ∙ kept
                (Keeps-when _ do_analyze _
                  (analyze_relations-relation S laws (plain r.table) environ l _))
                s4 h5
            ∙ rel
            ∙ kept (create_all-relation S laws (plain (staging_name r.table)) unmarked) s2 h3
            ∙ ap (λ u. S.relation u (plain (staging_name r.table))) start,
        ap (text_in "update_id") (
              kept (drop_old_tables-marker S laws r.table environ l (map plain olds)) s5 h6
              ∙ kept
                  (Keeps-when _ do_analyze _ (analyze_relations-marker S laws r.table environ l _))
                  s4 h5)
            ∙ ver,
        rw (← ap (text_in "update_id") same-row) unc,
      )

  unless_staged :
      (r : Receipt) (rs : List Receipt) (c : Bool)
      → Memᴰ r rs
      → r.staged ≡ true
      → ¬ ((not (any (λ r. r.staged) rs) && c) ≡ true)
  unless_staged r rs c m st h = elim (Bool-cases (any (λ r. r.staged) rs)) [
    | inl e ↦ cc (rw e at h)
    | inr e ↦ cc (any-mem (λ r. r.staged) rs e m)
  ]

-- If `publish_tables` returns, then every receipt that was staged and not yet live (its version was
-- not in the marker row when the call began, or no relation stood under its name) is published: the
-- relation under the table's name is the one that stood under its staging name, whether the replaced
-- table was kept or is to be dropped, the marker row carries the receipt's update_id, and the version
-- that was live before, if there was one, is the one that the receipt was staged from. The conditions
-- are that the names that the receipts concern, live, staging and aside, are pairwise different, and
-- that neither the table nor its staging table is named like a marker table.
pub publish_tables_installs :
    (S : Server)
    → IsServer S
    → (C : Codec) (ts : String) (environ : Environ) (o : Options) (rs : List Receipt)
      (s t : S.State) (published : List String)
    → has_duplicate (names_touched (resolve_keep_old o.keep_old environ) ts rs) ≡ false
    → publish_tables S C ts environ o rs s ≡ (ok published, t)
    → (r : Receipt) → Memᴰ r rs
    → is_marker_name (staging_name r.table) ≡ false
    → is_marker_name r.table ≡ false
    → r.staged ≡ true
    → (same_option (version_of S table_updates "update_id" r.table s) (some r.update_id)
        && has_table S (plain r.table) s)
      ≡ false
    → Installed S r s t
unfolding publish_tables
publish_tables_installs S laws C ts environ o rs s t published unique h r m unmarked live st un =
    elim (if-cases (not (any (λ r. r.staged) rs) && not o.refresh) _ _ s (ok published, t) h) [
      | inl (e, _) ↦ absurd (unless_staged S laws C ts r rs (not o.refresh) m st e)
      | inr (_, h') ↦
          publish_now_installs S laws C ts environ o rs s t published
            (has_duplicate-Distinct _ unique) h' r m unmarked live st (ap not un)
    ]

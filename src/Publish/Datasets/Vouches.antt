-- ===== src/Publish/Datasets/Vouches.antt =====
-- The versions of components that a published dataset vouches for.
use mathlib.Core.List.Memᴰ
use snakemake_storage_plugin.Base.{
  ◌≡◌, refl, sym, ap, ◌∙◌, Bool, true, false, not, ◌&&◌, String, Option, some, List, [], ◌∷◌, Memᴰ,
  inl, inr, any, any-mem, keep-mem, mem-keep, Bool-cases, arith,
}
use snakemake_storage_plugin.Base.Result.{ok}
use snakemake_storage_plugin.Sql.{plain, dataset_updates, component_updates}
use snakemake_storage_plugin.Sql.Effect.{is_marker_name, same_option, same_option_iff, text_in}
use snakemake_storage_plugin.Sql.Server.{Server, IsServer}
use snakemake_storage_plugin.Sql.Exec.{bind-ok, pure-ok, raise_if-ok, gets, for_each}
use snakemake_storage_plugin.Sql.Keeps.{kept, Keeps-when}
use snakemake_storage_plugin.Meta.{has_table}
use snakemake_storage_plugin.Engine.{Environ, resolve_keep_old}
use snakemake_storage_plugin.KeepOld.{Codec}
use snakemake_storage_plugin.Publish.{version_of, is_published, demote_published}
use snakemake_storage_plugin.Publish.Tables.{Options}
use snakemake_storage_plugin.Publish.Tables.Installs.{assert_marker_unchanged-Keeps}
use snakemake_storage_plugin.Publish.Receipts.{over, DatasetReceipt, is_view, demote_dataset}
use snakemake_storage_plugin.Publish.Swap.{Pending}
use snakemake_storage_plugin.Publish.Swap.Leaves.{collect_each-Turn}
use snakemake_storage_plugin.Publish.Steps.{Request, assert_components_live}
use snakemake_storage_plugin.Publish.Datasets.{
  staged_views, any_staged, demoted, publish_view, publish_dataset, swap_all, datasets_block,
  publish_datasets,
}
use snakemake_storage_plugin.Publish.Datasets.Inside.{
  publish_datasets-Inside, marker-Quiet, relation-Calm,
}
use snakemake_storage_plugin.Publish.Datasets.Dependents.{staged_still}
use snakemake_storage_plugin.Publish.Datasets.Components.{
  component_version, publish_dataset-Keeps, publish_view-Keeps, refresh_all-version,
}

module _ (S : Server) (laws : IsServer S) (C : Codec) (ts : String) (c uid : String) where
  abbrev version : S.State → Option String
  version s = component_version S laws C ts c s

  -- The check passed for each component.
  all_live :
      (d : String) (cs : List (String × String)) (s t : S.State)
      → assert_components_live S C ts d cs s ≡ (ok tt, t)
      → Memᴰ (c, uid) cs
      → version s ≡ some uid
  unfolding assert_components_live for_each
  all_live d [] s t h m = elim m [ ]
  all_live d ((n, v) ∷ cs) s t h m =
      let (_, u, h1, k1) = bind-ok _ _ s t tt h in
      let (live, w, h2, k2) =
        bind-ok (gets (version_of S component_updates "update_id" n)) _ s u tt h1 in
      let (passed, same) = raise_if-ok _ _ w u k2 in
      elim (Memᴰ.cases_cons m) [
        | inl e ↦
            let here : live ≡ version s =
              sym (pure-ok h2).0 ∙ ap (λ x. component_version S laws C ts x.0 s) (sym e) in
            let it : live ≡ some v = (same_option_iff live (some v)).0 (not-false _ passed) in
            sym here ∙ it ∙ ap (λ x. some x.1) (sym e)
        | inr k ↦ ap version ((pure-ok h2).1 ∙ sym same) ∙ all_live d cs u t k1 k
      ]
    where
      not-false : (b : Bool) → not b ≡ false → b ≡ true
      not-false true e = refl
      not-false false e = cc

  vouched_at :
      (b : Bool) (r : DatasetReceipt) (cs : List (String × String)) (d m : String) (s t : S.State)
      (p : Pending)
      → publish_view S C ts b r cs d m s ≡ (ok p, t)
      → Memᴰ (c, uid) cs
      → version s ≡ some uid
  unfolding publish_view
  vouched_at b r cs d m s t p h n =
      let (_, u, h1, k1) = bind-ok _ _ s t p h in
      let (_, v, h2, k2) = bind-ok _ _ u t p k1 in
      ap (version) (sym (kept (assert_marker_unchanged-Keeps S laws (λ s. s) _ _ _) s h1))
      ∙ all_live r.dataset cs u v h2 n

  swap_all_vouched :
      (b : Bool) (q : Request) (s t : S.State) (p : Pending)
      → swap_all S C ts b q s ≡ (ok p, t)
      → (r : DatasetReceipt) → Memᴰ r (staged_views q)
      → (cs : List (String × String)) (d m : String) → r.contents ≡ over cs d m
      → Memᴰ (c, uid) cs
      → version t ≡ some uid
  unfolding swap_all publish_dataset
  swap_all_vouched b q s t p h r n cs d m is_over k =
      let (p1, s1, h1, k1) = bind-ok _ _ s t p h in
      let (p2, s2, h2, k2) = bind-ok _ _ s1 t p k1 in
      let (p3, s3, h3, k3) = bind-ok _ _ s2 t p k2 in
      let (p4, s4, h4, k4) = bind-ok _ _ s3 t p k3 in
      let turn = collect_each-Turn _ (staged_views q) s3 s4 p4 h4 r n in
      let run : publish_view S C ts b r cs d m turn.start ≡ (ok turn.done, turn.stop) =
        rw is_over at turn.run in
      let later =
        (turn.around (λ s. S.marker s component_updates c)
          (publish_dataset-Keeps S laws C ts c q.manifests b)).1 in
      let row : S.marker t component_updates c ≡ S.marker turn.start component_updates c =
        ap (λ x. S.marker x.1 component_updates c) (sym k4)
        ∙ later
        ∙ kept (publish_view-Keeps S laws C ts c b r cs d m) turn.start run in
      ap (text_in "update_id") row ∙ vouched_at b r cs d m turn.start turn.stop turn.done run k

  block_vouched :
      (refresh b : Bool) (q : Request) (s t : S.State) (names : List String) (p : Pending)
      → datasets_block S C ts refresh b q s ≡ (ok (names, p), t)
      → (r : DatasetReceipt) → Memᴰ r q.datasets
      → r.staged ≡ true
      → is_published S
          (λ r. r.staged)
          demote_dataset
          (λ r. r.dataset)
          (λ r. r.update_id)
          dataset_updates
          "update_id"
          (λ r. has_table S (plain r.dataset))
          s
          r
        ≡ false
      → (cs : List (String × String)) (d m : String) → r.contents ≡ over cs d m
      → Memᴰ (c, uid) cs
      → version t ≡ some uid
  unfolding datasets_block demoted demote_published
  block_vouched refresh b q s t names p h r n st un cs d m is_over k =
      let (q', u, h1, k1) = bind-ok (gets (demoted S C ts q)) _ s t (names, p) h in
      let (_, v, h2, k2) = bind-ok _ _ u t (names, p) k1 in
      let (p', w, h3, k3) = bind-ok _ _ v t (names, p) k2 in
      let (_, x, h4, k4) = bind-ok _ _ w t (names, p) k3 in
      let now : q' ≡ demoted S C ts q s = sym (pure-ok h1).0 in
      let still = staged_still (λ r. r.staged) _ demote_dataset r q.datasets n st un in
      let (there, is_staged) = mem-keep (λ r. r.staged) _ still in
      let view : Memᴰ r (staged_views q') =
        rw now (keep-mem (λ r. r.staged && is_view r) _ there (rw (st, is_over) refl)) in
      ap (λ x. version x.1) (sym k4)
      ∙ kept (Keeps-when version refresh _ (refresh_all-version S laws C ts c q')) w h4
      ∙ swap_all_vouched b q' v w p' h3 r view cs d m is_over k

-- If `publish_datasets` returns, then for each v2 dataset that was staged and not yet live (its
-- version was not in the marker row when the call began, or its public relation was not there), and
-- for each component that the dataset's receipt names with a version, the marker row of the component
-- carries that version in the end: the new marker vouches for what the view reads. The dataset is not
-- named like a marker table.
pub publish_datasets_vouches :
    (S : Server)
    → IsServer S
    → (C : Codec) (ts : String) (environ : Environ) (o : Options) (q : Request) (s t : S.State)
      (published : List String)
    → publish_datasets S C ts environ o q s ≡ (ok published, t)
    → (r : DatasetReceipt) → Memᴰ r q.datasets
    → r.staged ≡ true
    → is_marker_name r.dataset ≡ false
    → (same_option (version_of S dataset_updates "update_id" r.dataset s) (some r.update_id)
        && has_table S (plain r.dataset) s)
      ≡ false
    → (cs : List (String × String)) (digest materialize : String)
    → r.contents ≡ over cs digest materialize
    → (c uid : String) → Memᴰ (c, uid) cs
    → version_of S component_updates "update_id" c t ≡ some uid
publish_datasets_vouches S laws C ts environ o q s t published h r m st unmarked un cs digest mat
      is_over c uid n =
    let inside = publish_datasets-Inside S C ts environ o q s t published (work_to_do q r m st) h in
    let version : S.marker inside.before dataset_updates r.dataset
        ≡ S.marker s dataset_updates r.dataset =
      (inside.around _ (marker-Quiet S laws dataset_updates r.dataset)).0 in
    let live : S.relation inside.before (plain r.dataset) ≡ S.relation s (plain r.dataset) =
      inside.ahead _ (relation-Calm S laws (plain r.dataset) unmarked) in
    ap (text_in "update_id") (inside.around _ (marker-Quiet S laws component_updates c)).1
    ∙ block_vouched S laws C ts c uid o.refresh (resolve_keep_old o.keep_old environ) q
        inside.before inside.after published inside.pending inside.block r m st
        (rw (st, version, live, un) refl) cs digest mat is_over n
  where
    work_to_do :
        (q : Request) (r : DatasetReceipt)
        → Memᴰ r q.datasets
        → r.staged ≡ true
        → any_staged q ≡ true
    work_to_do q r m st = elim (Bool-cases (any (λ r. r.staged) q.datasets)) [
      | inl e ↦ rw e (ground arith)
      | inr e ↦ absurd (cc (any-mem (λ r. r.staged) q.datasets e m, st))
    ]

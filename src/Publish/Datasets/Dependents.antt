-- ===== src/Publish/Datasets/Dependents.antt =====
-- The datasets over a component that a publish swaps.
use mathlib.Core.List.Memᴰ
use snakemake_storage_plugin.Base.{
  ◌&&◌, mem-map, ◌≡◌, refl, sym, ap, ◌∙◌, Bool, true, false, String, some, List, arith, [], ◌∷◌,
  ◌++◌, Memᴰ, inl, inr, map, keep, keep-mem, any, any-mem, contains, mem→contains, contains→mem,
  Bool-cases, if◌then◌else◌,
}
use snakemake_storage_plugin.Base.Result.{ok}
use snakemake_storage_plugin.Base.Dict.{dict_of-keys, keys, values}
use snakemake_storage_plugin.Sql.{Link, same_link, same_link_iff, component_updates}
use snakemake_storage_plugin.Sql.Effect.{is_marker_name, same_option, has_link}
use snakemake_storage_plugin.Sql.Server.{Server, IsServer}
use snakemake_storage_plugin.Sql.Exec.{bind-ok, pure-ok, gets}
use snakemake_storage_plugin.Sql.Keeps.{Keeps, kept, Keeps-for_each, Keeps-raise_if}
use snakemake_storage_plugin.Engine.{Environ, resolve_keep_old}
use snakemake_storage_plugin.KeepOld.{Codec}
use snakemake_storage_plugin.Manifest.{DatasetV2, DatasetMaterialization}
use snakemake_storage_plugin.Publish.{version_of, is_published, demote_published}
use snakemake_storage_plugin.Publish.Tables.{Options}
use snakemake_storage_plugin.Publish.Swap.{Pending}
use snakemake_storage_plugin.Meta.{has_table}
use snakemake_storage_plugin.Publish.Receipts.{
  ContourReceipt, ComponentReceipt, DatasetReceipt, demote_component, place,
}
use snakemake_storage_plugin.Publish.Steps.{
  Request, refuse, without, recorded_over, declared_over, assert_keyed_dependents_restaged,
  assert_view_dependents_restaged,
}
use snakemake_storage_plugin.Publish.Datasets.{
  any_staged, staged_components, staged_datasets, published_names, demoted, assert_dependents,
  datasets_block, publish_datasets,
}
use snakemake_storage_plugin.Publish.Datasets.Inside.{
  publish_datasets-Inside, marker-Quiet, linked-Quiet, relation-Calm,
}

-- A staged receipt that is not demoted is staged still.
pub staged_still :
    {R : Type 0} (staged p : R → Bool) (demote : R → R) (r : R) (rs : List R)
    → Memᴰ r rs
    → staged r ≡ true
    → p r ≡ false
    → Memᴰ r (keep staged (map (λ r. if p r then demote r else r) rs))
staged_still {R = R} staged p demote r rs m st un = keep-mem staged _ (mapped rs m) st
  where
    mapped : (rs : List R) → Memᴰ r rs → Memᴰ r (map (λ r. if p r then demote r else r) rs)
    mapped [] m = elim m [ ]
    mapped (x ∷ rs) (Memᴰ.head e) = Memᴰ.head (rw (← e, un) refl)
    mapped (x ∷ rs) (Memᴰ.tail m) = Memᴰ.tail (mapped rs m)

refuse-ok :
    {T : Type 0} (names : List String) (s t : T)
    → refuse names s ≡ (ok tt, t)
    → (names ≡ []) × (t ≡ s)
refuse-ok [] s t h = (refl, sym (ap (λ x. x.1) h))
refuse-ok (n ∷ ns) s t h = absurd (cc (ap (λ x. x.0) h))

-- No name is left over: all are taken.
none_without :
    (taken names : List String) (n : String)
    → without taken names ≡ []
    → Memᴰ n names
    → Memᴰ n taken
none_without taken names n none_left m = elim (Bool-cases (contains n taken)) [
  | inl e ↦ contains→mem n taken e
  | inr e ↦
      let left_over : Memᴰ n (without taken names) = keep-mem _ names m (rw e refl) in
      elim (rw none_left at left_over) [ ]
]

has_link-mem : (ls : List Link) (l : Link) → has_link ls l ≡ true → Memᴰ l ls
unfolding any
has_link-mem [] l h = cc
has_link-mem (x ∷ ls) l h = elim (Bool-cases (same_link l x)) [
  | inl e ↦ Memᴰ.head ((same_link_iff l x).0 e)
  | inr e ↦ Memᴰ.tail (has_link-mem ls l (rw e at h))
]

module _ {T : Type 0} where
  -- The check of keyed datasets changes nothing.
  keyed-Keeps :
      (ms : List DatasetMaterialization) (cs : List (String × ContourReceipt))
      (ds : List DatasetReceipt)
      → Keeps (λ (s : T). s) (assert_keyed_dependents_restaged ms cs ds)
  unfolding assert_keyed_dependents_restaged
  keyed-Keeps ms cs ds = Keeps-for_each _ _ ms λ m n. Keeps-raise_if _ _ _

module _ (S : Server) (C : Codec) (ts : String) where
  view_dependents :
      (by_name : List (String × DatasetV2)) (swapped restaged : List String) (s t : S.State)
      (l : Link)
      → assert_view_dependents_restaged S C ts by_name swapped restaged s ≡ (ok tt, t)
      → Memᴰ l.component swapped
      → has_link (S.link_rows s) l ≡ true
      → Memᴰ l.dataset restaged
  unfolding assert_view_dependents_restaged
  view_dependents by_name [] restaged s t l h m has = elim m [ ]
  view_dependents by_name (c ∷ cs) restaged s t l h m has =
      let swapped = c ∷ cs in
      let (_, u, h1, k1) = bind-ok _ _ s t tt h in
      let (rows, v, h2, k2) = bind-ok (gets S.link_rows) _ u t tt k1 in
      let same : rows ≡ S.link_rows s =
        sym (pure-ok h2).0 ∙ ap S.link_rows (refuse-ok _ s u h1).1 in
      let listed : Memᴰ l (keep (λ l. contains l.component swapped) rows) =
        keep-mem _ rows (rw same (has_link-mem (S.link_rows s) l has))
          (mem→contains l.component swapped m) in
      none_without restaged (declared_over swapped (values by_name) ++ recorded_over swapped rows)
        l.dataset (refuse-ok _ v t k2).0
        (Memᴰ.append_right (declared_over swapped (values by_name))
          (mem-map (λ l. l.dataset) l _ listed))

-- A staged component is something to publish.
pub work_to_do :
    (q : Request) (r : ComponentReceipt)
    → Memᴰ r q.components
    → r.staged ≡ true
    → any_staged q ≡ true
work_to_do q r m st = elim (Bool-cases (any (λ r. r.staged) q.components)) [
  | inl e ↦ rw e (ground arith)
  | inr e ↦ absurd (cc (any-mem (λ r. r.staged) q.components e m ∙ refl, st))
]

module _ (S : Server) (C : Codec) (ts : String) where
  block_restages :
      (refresh aside : Bool) (q : Request) (s t : S.State) (names : List String) (p : Pending)
      → datasets_block S C ts refresh aside q s ≡ (ok (names, p), t)
      → (r : ComponentReceipt) → Memᴰ r q.components
      → r.staged ≡ true
      → is_published S
          (λ r. r.staged)
          demote_component
          (λ r. r.component)
          (λ r. r.update_id)
          component_updates
          "update_id"
          (λ r. has_table S (place r))
          s
          r
        ≡ false
      → (l : Link) → l.component ≡ r.component
      → has_link (S.link_rows s) l ≡ true
      → Memᴰ l.dataset names
  unfolding datasets_block assert_dependents demoted demote_published
  block_restages refresh aside q s t names p h r m st un l over has =
      let (q', u, h1, k1) = bind-ok (gets (demoted S C ts q)) _ s t (names, p) h in
      let (_, v, h2, k2) = bind-ok _ _ u t (names, p) k1 in
      let (_, w, h3, k3) = bind-ok _ _ v t (names, p) k2 in
      let (_, x, h4, k4) = bind-ok _ _ w t (names, p) k3 in
      let (_, u', j1, i1) = bind-ok _ _ u v tt h2 in
      let now : q' ≡ demoted S C ts q s = sym (pure-ok h1).0 in
      let still : u' ≡ s = kept (keyed-Keeps _ _ _) u j1 ∙ sym (pure-ok h1).1 in
      let all : published_names q' ≡ names = cc (ap (λ x. x.0) k4) in
      let swapped : Memᴰ l.component (keys (staged_components q')) =
        rw (over, now)
          (dict_of-keys (λ r. r.component) (λ r. r) r _
            (staged_still (λ r. r.staged) _ demote_component r q.components m st un)) in
      rw (← all) (
        Memᴰ.append_right (map (λ r. r.dataset) (staged_datasets q'))
          (view_dependents S C ts _ _ _ u' v l i1 swapped (rw still has)))

-- If `publish_datasets` returns, every dataset whose public relation was recorded as built over a
-- component that was staged and not yet live (its version was not in the marker row when the call
-- began, or its relation was not there) is among the datasets that it published: none is left reading
-- the replaced table. The component is not named like a marker table.
pub publish_datasets_restages :
    (S : Server)
    → IsServer S
    → (C : Codec) (ts : String) (environ : Environ) (o : Options) (q : Request) (s t : S.State)
      (published : List String)
    → publish_datasets S C ts environ o q s ≡ (ok published, t)
    → (r : ComponentReceipt) → Memᴰ r q.components
    → r.staged ≡ true
    → is_marker_name (place r).name ≡ false
    → (same_option (version_of S component_updates "update_id" r.component s) (some r.update_id)
        && has_table S (place r) s)
      ≡ false
    → (l : Link) → l.component ≡ r.component
    → has_link (S.link_rows s) l ≡ true
    → Memᴰ l.dataset published
publish_datasets_restages S laws C ts environ o q s t published h r m st unmarked un l over has =
    let inside = publish_datasets-Inside S C ts environ o q s t published (work_to_do q r m st) h in
    let version : S.marker inside.before component_updates r.component
        ≡ S.marker s component_updates r.component =
      (inside.around _ (marker-Quiet S laws component_updates r.component)).0 in
    let live : S.relation inside.before (place r) ≡ S.relation s (place r) =
      inside.ahead _ (relation-Calm S laws (place r) unmarked) in
    block_restages S C ts o.refresh (resolve_keep_old o.keep_old environ) q inside.before
      inside.after published inside.pending inside.block r m st (rw (st, version, live, un) refl) l
      over ((inside.around _ (linked-Quiet S laws l)).0 ∙ has)

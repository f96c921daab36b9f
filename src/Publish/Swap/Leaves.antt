-- ===== src/Publish/Swap/Leaves.antt =====
-- What the swaps of a publish leave alone: the marker rows and the table of dataset components.
use snakemake_storage_plugin.Base.{
  ◌≡◌, Bool, true, false, String, Option, none, some, List, [], ◌∷◌, Memᴰ, refl, sym, ap, ◌∙◌,
}
use snakemake_storage_plugin.Base.Result.{ok}
use snakemake_storage_plugin.Sql.{
  Ref, plain, Kind, table, view, matview, MarkerTable, Link, rename, drop, drop_if_exists, create,
  set_comment, revoke_all, Grantee,
}
use snakemake_storage_plugin.Sql.Effect.{has_link}
use snakemake_storage_plugin.Sql.Server.{Server, IsServer}
use snakemake_storage_plugin.Sql.Exec.{Exec, execute, bind-ok}
use snakemake_storage_plugin.Sql.Keeps.{
  Keeps, kept, Keeps-pure, Keeps-gets, Keeps-bind, Keeps-if, Keeps-marker, Keeps-linked,
}
use snakemake_storage_plugin.KeepOld.{Codec}
use snakemake_storage_plugin.KeepOld.Park.{park-Keeps}
use snakemake_storage_plugin.Publish.Swap.{
  Pending, collect_each, rename_away, park_away, set_live_aside, rename_swap_physical, clear_public,
  replace_public_relation, clear_view, replace_compatibility_view,
}

-- `look` does not depend on the catalog.
pub record Uncatalogued (S : Server) {V : Type 0} (look : S.State → V) : Type 0 where
  pub renamed : (k : Kind) (r : Ref) (n : String) → Keeps look (execute S (rename k r n))
  pub dropped : (k : Kind) (r : Ref) → Keeps look (execute S (drop k r))
  pub dropped_if : (k : Kind) (r : Ref) → Keeps look (execute S (drop_if_exists k r))
  pub created : (k : Kind) (r : Ref) (q : String) → Keeps look (execute S (create k r q))
  pub commented :
      (k : Kind) (r : Ref) (c : Option String) → Keeps look (execute S (set_comment k r c))
  pub revoked : (r : Ref) (who : Grantee) → Keeps look (execute S (revoke_all r who))

module _ (S : Server) (laws : IsServer S) where
  pub marker-Uncatalogued : (m : MarkerTable) (k : String) → Uncatalogued S (λ s. S.marker s m k)
  marker-Uncatalogued m k = record {
    renamed = λ kind r n. Keeps-marker S laws m k _ (λ now c. refl);
    dropped = λ kind r. Keeps-marker S laws m k _ (λ now c. refl);
    dropped_if = λ kind r. Keeps-marker S laws m k _ (λ now c. refl);
    created = λ kind r q. Keeps-marker S laws m k _ (λ now c. refl);
    commented = λ kind r c. Keeps-marker S laws m k _ (λ now c. refl);
    revoked = λ r who. Keeps-marker S laws m k _ (λ now c. refl);
  }

  pub linked-Uncatalogued : (l : Link) → Uncatalogued S (λ s. has_link (S.link_rows s) l)
  linked-Uncatalogued l = record {
    renamed = λ kind r n. Keeps-linked S laws l _ (λ c. refl);
    dropped = λ kind r. Keeps-linked S laws l _ (λ c. refl);
    dropped_if = λ kind r. Keeps-linked S laws l _ (λ c. refl);
    created = λ kind r q. Keeps-linked S laws l _ (λ c. refl);
    commented = λ kind r c. Keeps-linked S laws l _ (λ c. refl);
    revoked = λ r who. Keeps-linked S laws l _ (λ c. refl);
  }

module _ (S : Server) (C : Codec) (ts : String) {V : Type 0} (look : S.State → V)
    (free : Uncatalogued S look) where
  park_away-Keeps : (r : Ref) → Keeps look (park_away S C ts r)
  park_away-Keeps r =
      Keeps-bind look _ _
        (park-Keeps S C look r (λ k. free.renamed k r _) (λ who. free.revoked _ who)
          (λ k c. free.commented k _ c) (free.dropped view r))
        λ b. Keeps-pure look []

  rename_away-Keeps : (r : Ref) → Keeps look (rename_away S C ts r)
  rename_away-Keeps r = Keeps-bind look _ _ (free.renamed table r _) λ _. Keeps-pure look _

  set_live_aside-Keeps : (b : Bool) (r : Ref) → Keeps look (set_live_aside S C ts b r)
  unfolding set_live_aside
  set_live_aside-Keeps true r = park_away-Keeps r
  set_live_aside-Keeps false r =
      Keeps-bind look _ _ (Keeps-gets look _)
        λ e. Keeps-if look e _ _ (rename_away-Keeps r) (Keeps-pure look [])

  pub rename_swap_physical-Keeps :
      (b : Bool) (bare schema staging : String)
      → Keeps look (rename_swap_physical S C ts b bare schema staging)
  unfolding rename_swap_physical
  rename_swap_physical-Keeps b bare schema staging =
      Keeps-bind look _ _ (set_live_aside-Keeps b _)
        λ olds. Keeps-bind look _ _ (free.renamed table _ _) λ _. Keeps-pure look _

  clear_public-Keeps :
      (b : Bool) (k : Option Kind) (n : String) → Keeps look (clear_public S C ts b k n)
  unfolding clear_public
  clear_public-Keeps true k n = park_away-Keeps (plain n)
  clear_public-Keeps false none n = Keeps-pure look []
  clear_public-Keeps false (some table) n = rename_away-Keeps (plain n)
  clear_public-Keeps false (some view) n =
      Keeps-bind look _ _ (free.dropped view _) λ _. Keeps-pure look []
  clear_public-Keeps false (some matview) n =
      Keeps-bind look _ _ (free.dropped matview _) λ _. Keeps-pure look []

  pub replace_public_relation-Keeps :
      (b : Bool) (n select materialize : String)
      → Keeps look (replace_public_relation S C ts b n select materialize)
  unfolding replace_public_relation
  replace_public_relation-Keeps b n select materialize =
      Keeps-bind look _ _ (Keeps-gets look _) λ found.
        Keeps-bind look _ _ (clear_public-Keeps b found n)
          λ olds. Keeps-bind look _ _ (free.created _ _ _) λ _. Keeps-pure look _

  clear_view-Keeps : (b c : Bool) (n : String) → Keeps look (clear_view S C ts b c n)
  unfolding clear_view
  clear_view-Keeps true c n = park_away-Keeps (plain n)
  clear_view-Keeps false true n = rename_away-Keeps (plain n)
  clear_view-Keeps false false n =
      Keeps-bind look _ _ (free.dropped_if view _) λ _. Keeps-pure look []

  pub replace_compatibility_view-Keeps :
      (b : Bool) (n select : String) → Keeps look (replace_compatibility_view S C ts b n select)
  unfolding replace_compatibility_view
  replace_compatibility_view-Keeps b n select = Keeps-bind look _ _ (Keeps-gets look _) λ found.
      Keeps-bind look _ _ (clear_view-Keeps b _ n)
        λ olds. Keeps-bind look _ _ (free.created _ _ _) λ _. Keeps-pure look _

-- The run of the body on one element, inside a loop that returned; each part of the loop keeps
-- what every run of the body keeps.
pub record Turn {T A : Type 0} (body : A → Exec T Pending) (x : A) (s t : T) : Type 1 where
  pub start : T
  pub stop : T
  pub done : Pending
  pub run : body x start ≡ (ok done, stop)
  pub around :
      {V : Type 0} (look : T → V)
      → ((y : A) → Keeps look (body y))
      → (look start ≡ look s) × (look t ≡ look stop)

module _ {T A : Type 0} (body : A → Exec T Pending) where
  collect_each-Keeps :
      {V : Type 0} (look : T → V)
      → ((y : A) → Keeps look (body y))
      → (xs : List A) → Keeps look (collect_each body xs)
  unfolding collect_each
  collect_each-Keeps look k [] = Keeps-pure look _
  collect_each-Keeps look k (x ∷ xs) =
      Keeps-bind look _ _ (k x)
        λ a. Keeps-bind look _ _ (collect_each-Keeps look k xs) λ b. Keeps-pure look _

  pub collect_each-Turn :
      (xs : List A) (s t : T) (p : Pending)
      → collect_each body xs s ≡ (ok p, t)
      → (x : A) → Memᴰ x xs
      → Turn body x s t
  unfolding collect_each
  collect_each-Turn [] s t p h x m = elim m [ ]
  collect_each-Turn (y ∷ xs) s t p h x (Memᴰ.head e) =
      let (a, u, h1, k1) = bind-ok _ _ s t p h in
      let (b, v, h2, k2) = bind-ok _ _ u t p k1 in
      record {
        start = s;
        stop = u;
        done = a;
        run = rw e h1;
        around = λ look k.
            (refl, ap (λ z. look z.1) (sym k2) ∙ kept (collect_each-Keeps look k xs) u h2);
      }
  collect_each-Turn (y ∷ xs) s t p h x (Memᴰ.tail m) =
      let (a, u, h1, k1) = bind-ok _ _ s t p h in
      let (b, v, h2, k2) = bind-ok _ _ u t p k1 in
      let later = collect_each-Turn xs u v b h2 x m in
      record {
        start = later.start;
        stop = later.stop;
        done = later.done;
        run = later.run;
        around = λ look k. (
          (later.around look k).0 ∙ kept (k y) s h1,
          ap (λ z. look z.1) (sym k2) ∙ (later.around look k).1,
        );
      }

-- ===== src/KeepOld/Park.antt =====
-- What `park` leaves alone.
use snakemake_storage_plugin.Base.{
  ◌≡◌, ◌≢◌, refl, true, false, not, ◌&&◌, String, Option, none, some, ◌==◌, arith, eq_iff,
}
use snakemake_storage_plugin.Sql.{
  Ref, plain, Kind, view, MarkerTable, rename, drop, set_comment, revoke_all, Grantee,
}
use snakemake_storage_plugin.Sql.Server.{Server, IsServer}
use snakemake_storage_plugin.Sql.Exec.{value_error, kept_old_exists, execute}
use snakemake_storage_plugin.Sql.Keeps.{
  Keeps, Keeps-if, Keeps-bind, Keeps-gets, Keeps-raise_if, Keeps-pure, Keeps-for_each,
  Keeps-relation, Keeps-marker,
}
use snakemake_storage_plugin.KeepOld.{
  Codec, old_name, grantees, set_aside, park_kind, park_found, park, is_table, grant_target,
}

module _ {V : Type 0} (S : Server) (C : Codec) (look : S.State → V) (r : Ref)
    (ren : (k : Kind) → Keeps look (execute S (rename k r (old_name r.name))))
    (rev : (who : Grantee)
      → Keeps look (execute S (revoke_all (record r { name = old_name r.name }) who)))
    (cmt : (k : Kind) (text : Option String)
      → Keeps look (execute S (set_comment k (record r { name = old_name r.name }) text)))
    (dro : Keeps look (execute S (drop view r))) where
  set_aside-Keeps : (k : Kind) → Keeps look (set_aside S C r k)
  unfolding set_aside
  set_aside-Keeps k = Keeps-bind look _ _ (Keeps-gets look _) λ g. Keeps-bind look _ _ (ren k) λ _.
      Keeps-bind look _ _ (Keeps-for_each look _ (grantees g) (λ who m. rev (grant_target who)))
        λ _. Keeps-bind look _ _ (cmt k _) λ _. Keeps-pure look true

  pub park_kind-Keeps : (k : Kind) → Keeps look (park_kind S C r k)
  unfolding park_kind
  park_kind-Keeps k = Keeps-bind look _ _ (Keeps-raise_if look _ value_error) λ _.
      Keeps-bind look _ _ (Keeps-gets look _) λ o.
        Keeps-bind look _ _ (Keeps-raise_if look _ (kept_old_exists _)) λ _.
          Keeps-if look (not (is_table k) && not S.is_postgresql) _ _
            (Keeps-bind look _ _ dro (λ _. Keeps-pure look false)) (set_aside-Keeps k)

  park_found-Keeps : (o : Option Kind) → Keeps look (park_found S C r o)
  park_found-Keeps none = Keeps-pure look false
  park_found-Keeps (some k) = park_kind-Keeps k

  pub park-Keeps : Keeps look (park S C r none)
  unfolding park
  park-Keeps = Keeps-bind look _ _ (Keeps-gets look _) park_found-Keeps

module _ (S : Server) (laws : IsServer S) (C : Codec) where
  -- `park` of a table touches that name and the name of the kept relation only.
  pub park-relation :
      (n y : String)
      → n ≢ y
      → old_name n ≢ y
      → Keeps (λ s. S.relation s (plain y)) (park S C (plain n) none)
  park-relation n y d d' =
      let e : (n == y) ≡ false = ground (arith, eq_iff n y) in
      let e' : (old_name n == y) ≡ false = ground (arith, eq_iff (old_name n) y) in
      park-Keeps S C (λ s. S.relation s (plain y)) (plain n)
        (λ k. Keeps-relation S laws (plain y) _ (λ c. rw (e', e) refl))
        (λ who. Keeps-relation S laws (plain y) _ (λ c. rw e' refl))
        (λ k t. Keeps-relation S laws (plain y) _ (λ c. rw e' refl))
        (Keeps-relation S laws (plain y) _ (λ c. rw e refl))

  pub park-marker :
      (n : String) (m : MarkerTable) (k : String)
      → Keeps (λ s. S.marker s m k) (park S C (plain n) none)
  park-marker n m k =
      park-Keeps S C (λ s. S.marker s m k) (plain n)
        (λ kind. Keeps-marker S laws m k _ (λ now rows. refl))
        (λ who. Keeps-marker S laws m k _ (λ now rows. refl))
        (λ kind t. Keeps-marker S laws m k _ (λ now rows. refl))
        (Keeps-marker S laws m k _ (λ now rows. refl))

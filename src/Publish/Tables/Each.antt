-- ===== src/Publish/Tables/Each.antt =====
-- The loop of a publish of tables: what all its receipts have put into place.
use mathlib.Core.List.Memᴰ
use snakemake_storage_plugin.Base.{
  ◌≡◌, ◌≢◌, refl, sym, ap, ◌∙◌, Bool, true, false, String, List, [], ◌∷◌, Memᴰ, Distinct, inl, inr,
  ◌++◌,
}
use snakemake_storage_plugin.Base.Result.{ok}
use snakemake_storage_plugin.Sql.{plain, table_updates}
use snakemake_storage_plugin.Sql.Server.{Server, IsServer}
use snakemake_storage_plugin.Sql.Exec.{bind-ok, gets, if-cases}
use snakemake_storage_plugin.Sql.Keeps.{Keeps, kept, Keeps-bind, Keeps-pure}
use snakemake_storage_plugin.Meta.{staging_name, has_table}
use snakemake_storage_plugin.KeepOld.{Codec}
use snakemake_storage_plugin.Publish.{text_in}
use snakemake_storage_plugin.Publish.Tables.{Receipt, move_aside, publish_one, publish_each}
use snakemake_storage_plugin.Publish.Tables.Installs.{
  away, Installed, names_touched, publish_one-relation, publish_one-marker, publish_one_installs,
}

-- The names of one receipt are among those touched.
pub touched_by :
    (b : Bool) (ts : String) (r : Receipt) (rs : List Receipt)
    → Memᴰ r rs
    → Memᴰ r.table (names_touched b ts rs) × Memᴰ (staging_name r.table) (names_touched b ts rs)
touched_by b ts r [] m = elim m [ ]
touched_by b ts r (x ∷ rs) (Memᴰ.head e) = rw e (Memᴰ.head refl, Memᴰ.tail (Memᴰ.head refl))
touched_by b ts r (x ∷ rs) (Memᴰ.tail m) =
    let (l, k) = touched_by b ts r rs m in
    (Memᴰ.tail (Memᴰ.tail (Memᴰ.tail l)), Memᴰ.tail (Memᴰ.tail (Memᴰ.tail k)))

apart : {A : Type 0} {x y : A} {xs : List A} → Memᴰ y xs → ¬ Memᴰ x xs → x ≢ y
apart {xs = xs} m no_x e = no_x (rw e m)

module _ (S : Server) (laws : IsServer S) (C : Codec) (ts : String) (b : Bool) where
  pub publish_each-relation :
      (rs : List Receipt) (y : String)
      → ¬ Memᴰ y (names_touched b ts rs)
      → Keeps (λ s. S.relation s (plain y)) (publish_each S C ts b rs)
  unfolding publish_each
  publish_each-relation [] y far = Keeps-pure _ _
  publish_each-relation (r ∷ rs) y far =
      Keeps-bind _ _ _
        (publish_one-relation S laws C ts b r y (λ e. far (Memᴰ.head (sym e)))
          (λ e. far (Memᴰ.tail (Memᴰ.head (sym e))))
          (λ e. far (Memᴰ.tail (Memᴰ.tail (Memᴰ.head (sym e))))))
        λ old.
          Keeps-bind _ _ _
            (publish_each-relation rs y (λ m. far (Memᴰ.tail (Memᴰ.tail (Memᴰ.tail m)))))
            λ d. Keeps-pure _ _

  pub publish_each-marker :
      (rs : List Receipt) (k : String)
      → ¬ Memᴰ k (names_touched b ts rs)
      → Keeps (λ s. S.marker s table_updates k) (publish_each S C ts b rs)
  unfolding publish_each
  publish_each-marker [] k far = Keeps-pure _ _
  publish_each-marker (r ∷ rs) k far =
      Keeps-bind _ _ _ (publish_one-marker S laws C ts b r k (λ e. far (Memᴰ.head (sym e)))) λ old.
        Keeps-bind _ _ _ (publish_each-marker rs k (λ m. far (Memᴰ.tail (Memᴰ.tail (Memᴰ.tail m)))))
          λ d. Keeps-pure _ _

  pub publish_each_installs :
      (rs : List Receipt) (s t : S.State) (done : List String × List String)
      → Distinct (names_touched b ts rs)
      → publish_each S C ts b rs s ≡ (ok done, t)
      → (r : Receipt) → Memᴰ r rs
      → Installed S r s t
  unfolding publish_each
  publish_each_installs [] s t done dist h r m = elim m [ ]
  publish_each_installs (x ∷ rs) s t done dist h r (Memᴰ.head e) =
      let (old, u, h1, k1) = bind-ok _ _ s t done h in
      let (_, v, h2, k2) = bind-ok _ _ u t done k1 in
      let end : v ≡ t = ap (λ x. x.1) k2 in
      let far : ¬ Memᴰ x.table (names_touched b ts rs) = λ m. dist.0 (Memᴰ.tail (Memᴰ.tail m)) in
      let first =
        publish_one_installs S laws C ts b x s u old (λ e. dist.0 (Memᴰ.head (sym e)))
          (λ e. dist.0 (Memᴰ.head e)) (λ e. dist.1.0 (Memᴰ.head (sym e))) h1 in
      rw (← end, e)
        (
          kept (publish_each-relation rs x.table far) u h2 ∙ first.0,
          ap (text_in "update_id") (kept (publish_each-marker rs x.table far) u h2) ∙ first.1,
          first.2,
        )
  publish_each_installs (x ∷ rs) s t done dist h r (Memᴰ.tail m) =
      let (old, u, h1, k1) = bind-ok _ _ s t done h in
      let (d, v, h2, k2) = bind-ok _ _ u t done k1 in
      let end : v ≡ t = ap (λ x. x.1) k2 in
      let (rel, ver, unc) = publish_each_installs rs u v d dist.1.1.1 h2 r m in
      let there = (touched_by b ts r rs m).1 in
      rw (← end) (
        rel
            ∙ kept
                (publish_one-relation S laws C ts b x (staging_name r.table)
                  (apart there (λ k. dist.0 (Memᴰ.tail (Memᴰ.tail k))))
                  (apart there (λ k. dist.1.0 (Memᴰ.tail k))) (apart there dist.1.1.0))
                s h1,
        ver,
        rw
            (← ap (text_in "update_id") (
              kept
                (publish_one-marker S laws C ts b x r.table
                  (apart (touched_by b ts r rs m).0 (λ k. dist.0 (Memᴰ.tail (Memᴰ.tail k)))))
                s h1))
            unc,
      )

  move_aside-old :
      (c : Bool) (n y : String) (s t : S.State) (old : List String)
      → move_aside S C ts c n s ≡ (ok old, t)
      → Memᴰ y old
      → y ≡ away c ts n
  unfolding move_aside
  move_aside-old true n y s t old h m =
      let (_, u, h1, k1) = bind-ok _ _ s t old h in
      let none_left : old ≡ [] = cc (ap (λ x. x.0) k1) in elim (rw none_left at m) [ ]
  move_aside-old false n y s t old h m =
      let (found, u, h1, k1) = bind-ok (gets (has_table S (plain n))) _ s t old h in
      elim (if-cases found _ _ u (ok old, t) k1) [
        | inl (_, h2) ↦
            let (_, v, h3, k3) = bind-ok _ _ u t old h2 in
            let one_left : old ≡ away false ts n ∷ [] = cc (ap (λ x. x.0) k3) in
            elim (Memᴰ.cases_cons (rw one_left at m)) [ inl e ↦ e | inr k ↦ elim k [ ] ]
        | inr (_, h2) ↦
            let none_left : old ≡ [] = cc (ap (λ x. x.0) h2) in elim (rw none_left at m) [ ]
      ]

  publish_one-old :
      (r : Receipt) (y : String) (s t : S.State) (old : List String)
      → publish_one S C ts b r s ≡ (ok old, t)
      → Memᴰ y old
      → y ≡ away b ts r.table
  unfolding publish_one
  publish_one-old r y s t old h m =
      let (_, s1, h1, k1) = bind-ok _ _ s t old h in
      let (o, s2, h2, k2) = bind-ok _ _ s1 t old k1 in
      let (_, s3, h3, k3) = bind-ok _ _ s2 t old k2 in
      let (_, s4, h4, k4) = bind-ok _ _ s3 t old k3 in
      let same : o ≡ old = cc (ap (λ x. x.0) k4) in
      move_aside-old b r.table y s1 s2 o h2 (rw same m)

  olds_touched :
      (rs : List Receipt) (y : String) (s t : S.State) (names olds : List String)
      → publish_each S C ts b rs s ≡ (ok (names, olds), t)
      → Memᴰ y olds
      → Memᴰ y (names_touched b ts rs)
  unfolding publish_each
  olds_touched [] y s t names olds h m =
      let none_left : olds ≡ [] = cc (ap (λ x. x.0) h) in elim (rw none_left at m) [ ]
  olds_touched (x ∷ rs) y s t names olds h m =
      let (old, u, h1, k1) = bind-ok _ _ s t (names, olds) h in
      let (d, v, h2, k2) = bind-ok _ _ u t (names, olds) k1 in
      let whole : olds ≡ old ++ d.1 = cc (ap (λ x. x.0) k2) in
      elim (Memᴰ.append_cases old (rw whole at m)) [
        | inl l ↦ Memᴰ.tail (Memᴰ.tail (Memᴰ.head (publish_one-old x y s u old h1 l)))
        | inr k ↦ Memᴰ.tail (Memᴰ.tail (Memᴰ.tail (olds_touched rs y u v d.0 d.1 h2 k)))
      ]

  -- No published table is among the names to drop.
  pub olds_apart :
      (rs : List Receipt) (s t : S.State) (names olds : List String)
      → Distinct (names_touched b ts rs)
      → publish_each S C ts b rs s ≡ (ok (names, olds), t)
      → (r : Receipt) → Memᴰ r rs
      → ¬ Memᴰ r.table olds
  unfolding publish_each
  olds_apart [] s t names olds dist h r m n = elim m [ ]
  olds_apart (x ∷ rs) s t names olds dist h r m n =
      let (old, u, h1, k1) = bind-ok _ _ s t (names, olds) h in
      let (d, v, h2, k2) = bind-ok _ _ u t (names, olds) k1 in
      let whole : olds ≡ old ++ d.1 = cc (ap (λ x. x.0) k2) in
      elim (Memᴰ.append_cases old (rw whole at n)) [
        | inl l ↦
            let e : r.table ≡ away b ts x.table = publish_one-old x r.table s u old h1 l in
            elim (Memᴰ.cases_cons m) [
              | inl q ↦ dist.0 (Memᴰ.tail (Memᴰ.head (ap (λ z. z.table) (sym q) ∙ e)))
              | inr k ↦ dist.1.1.0 (rw e at (touched_by b ts r rs k).0)
            ]
        | inr l ↦ elim (Memᴰ.cases_cons m) [
          | inl q ↦
              let deep = olds_touched rs r.table u v d.0 d.1 h2 l in
              dist.0 (Memᴰ.tail (Memᴰ.tail (rw (ap (λ z. z.table) q) at deep)))
          | inr k ↦ olds_apart rs u v d.0 d.1 dist.1.1.1 h2 r k l
        ]
      ]

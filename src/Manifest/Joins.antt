-- ===== src/Manifest/Joins.antt =====
-- What the joins of an accepted dataset satisfy.
use mathlib.Core.List.Memᴰ
use snakemake_storage_plugin.Base.{
  ◌≡◌, ◌≢◌, refl, ◌∙◌, String, true, false, Option, none, some, List, [], ◌∷◌, ◌==◌, ℕ, Memᴰ,
  Distinct, contains, contains→mem, eq_refl, map, Bool-cases, inl, inr, arith, eq_iff,
}
use snakemake_storage_plugin.Base.Result.{Result, ok, err, >>=-eq-ok}
use snakemake_storage_plugin.Graph.{JoinGraph, Route, RelationError}
use snakemake_storage_plugin.Graph.Acyclic.{join_graph}
use snakemake_storage_plugin.Graph.Choice.{path}
use snakemake_storage_plugin.Graph.Choice.Unique.{Answers, answer_of}
use snakemake_storage_plugin.Manifest.{
  Join, DatasetV2, Joined, component, check_each, check_routes, check_select, lift_graph,
  lift_route, hops_allowed, entities_of, check_from, check_joins,
}
use snakemake_storage_plugin.Manifest.Steps.{IsGrainSafe, declared, IsToOne, at_base, joined_to}
use snakemake_storage_plugin.Manifest.Loop.{
  each-to_one, each-closed, each-Distinct, each-safe, each-edges,
}

lift_route-ok :
    (r : Result RelationError Route) (u : Unit) → lift_route r ≡ ok u → (p : Route) × (r ≡ ok p)
lift_route-ok (ok p) u h = (p, refl)
lift_route-ok (err e) u h = absurd (cc h)

check_routes-path :
    (g : JoinGraph) (base : String) (hops : ℕ) (ns : List String) (u : Unit)
    → check_routes g base hops ns ≡ ok u
    → (n : String) → Memᴰ n ns
    → n ≢ base
    → (p : Route) × (path g base n none false hops ≡ ok p)
unfolding check_routes
check_routes-path g base hops [] u h n m far = elim m [ ]
check_routes-path g base hops (x ∷ ns) u h n m far = elim (Bool-cases (x == base)) [
  | inl e ↦ elim (Memᴰ.cases_cons m) [
    | inl q ↦ let same : x ≡ base = ground (arith, eq_iff x base) in absurd (far (q ∙ same))
    | inr k ↦ check_routes-path g base hops ns u (rw e at h) n k far
  ]
  | inr e ↦
      let (v, e1, h1) = >>=-eq-ok (lift_route (path g base x none false hops)) _ (rw e at h) in
      elim (Memᴰ.cases_cons m) [
        | inl q ↦ rw q (lift_route-ok (path g base x none false hops) v e1)
        | inr k ↦ check_routes-path g base hops ns u h1 n k far
      ]
]

lift_graph-ok :
    (r : Result RelationError JoinGraph) (g : JoinGraph) → lift_graph r ≡ ok g → r ≡ ok g
lift_graph-ok (ok g') g h = cc h
lift_graph-ok (err e) g h = absurd (cc h)

-- What the joins of an accepted dataset satisfy, said of the joins themselves: the base and the
-- components that they join are pairwise different; each join covers its component's key or is
-- declared to fan out; the edges that the covering joins declare make a graph; and to each component
-- that covering joins reach from the base there is exactly one route that keeps the grain.
pub record AreSound (d : DatasetV2) (base : String) (g : JoinGraph) : Type 0 where
  pub distinct : Distinct (base ∷ map (λ (j : Join). j.component) d.joins)
  pub grain_safe : (j : Join) → Memᴰ j d.joins → IsGrainSafe d.components j
  pub built : join_graph (entities_of d.components) (declared d.components base d.joins) ≡ ok g
  pub routes :
      (n : String)
      → IsToOne d base n
      → n ≢ base
      → (p : Route) × Answers g base n none false (hops_allowed d.joins) (ok p)

reached :
    (d : DatasetV2) (base : String) (st st' : Joined)
    → check_each d.components base d.joins st ≡ ok st'
    → contains base st.to_one ≡ true
    → (n : String) → IsToOne d base n
    → contains n st'.to_one ≡ true
reached d base st st' h b n at_base = each-to_one d.components base d.joins st st' h base b
reached d base st st' h b n (joined_to {j = j} {target = target} m found covers left) =
    each-closed d.components base d.joins st st' h j m target found covers
      (reached d base st st' h b _ left)

sound_with :
    (d : DatasetV2) (o : Option String) (base : String) (st : Joined) (g : JoinGraph)
    → check_from d o ≡ ok (base, st, g)
    → AreSound d base g
unfolding check_from contains
sound_with d none base st g h = absurd (cc h)
sound_with d (some b) base st g h =
    let (c, e0, h0) = >>=-eq-ok (component d.components b) _ h in
    let start : Joined = record { joined = c.name ∷ []; edges = []; to_one = c.name ∷ [] } in
    let (st', e1, h1) = >>=-eq-ok (check_each d.components c.name d.joins start) _ h0 in
    let (g', e2, h2) =
      >>=-eq-ok (lift_graph (join_graph (entities_of d.components) st'.edges)) _ h1 in
    let (u3, e3, h3) = >>=-eq-ok (check_routes g' c.name (hops_allowed d.joins) st'.to_one) _ h2 in
    let (u4, e4, h4) = >>=-eq-ok (check_select st'.joined d.select) _ h3 in
    let n : c.name ≡ base = cc h4 in
    let q : g' ≡ g = cc h4 in
    let (different, new) = each-Distinct d.components c.name d.joins start st' e1 in
    let base_reached : contains c.name start.to_one ≡ true = rw (eq_refl c.name) refl in
    let edges : st'.edges ≡ declared d.components c.name d.joins =
      each-edges d.components c.name d.joins start st' e1 in
    let made : join_graph (entities_of d.components) (declared d.components c.name d.joins)
        ≡ ok g' =
      rw edges at (lift_graph-ok (join_graph (entities_of d.components) st'.edges) g' e2) in
    rw (← n, ← q)
      (record {
        distinct = ((λ m. cc (new c.name m, base_reached)), different);
        grain_safe = each-safe d.components c.name d.joins start st' e1;
        built = made;
        routes = λ k one far.
            let m = contains→mem k st'.to_one (reached d c.name start st' e1 base_reached k one) in
            let (p, found) =
              check_routes-path g' c.name (hops_allowed d.joins) st'.to_one u3 e3 k m far in
            (
              p,
              answer_of (entities_of d.components) (declared d.components c.name d.joins) g' made
                  c.name k none false (hops_allowed d.joins) (ok p) found (λ x e. cc e),
            );
      })

-- If `_check_joins` accepts a dataset, its base and the components that its joins name are pairwise
-- different, each join covers the key of its component or is declared to fan out, the edges of the
-- covering joins make a graph, and in it there is exactly one route that keeps the grain from the
-- base to each component that covering joins reach.
pub check_joins-AreSound :
    (d : DatasetV2) (base : String) (st : Joined) (g : JoinGraph)
    → check_joins d ≡ ok (base, st, g)
    → AreSound d base g
unfolding check_joins
check_joins-AreSound d base st g h = sound_with d d.base base st g h

-- ===== src/Graph/Build.antt =====
-- `JoinGraph(entities, edges)` as a whole: which graphs are accepted and which errors are raised.
use snakemake_storage_plugin.Base.{◌≡◌, ◌≢◌, refl, String, true, false, List, [], Memᴰ, Distinct}
use snakemake_storage_plugin.Base.Result.{Result, ok, err, ◌>>=◌, >>=-eq-ok}
use snakemake_storage_plugin.Graph.{
  Entity, Edge, RelationError, JoinGraph, cycle, out_of_fuel, Leads,
}
use snakemake_storage_plugin.Graph.Check.{
  index_entities, check_edges, check_edges-IsSound, IsSound, is_search_error, index_entities-error,
  check_edges-error, check_edges-Distinct,
}
use snakemake_storage_plugin.Graph.Acyclic.{check_acyclic, enough, join_graph, Marks}
use snakemake_storage_plugin.Graph.Acyclic.Sound.{check_acyclic-Leads}
use snakemake_storage_plugin.Graph.Acyclic.Real.{mem-parents, Cyclic, check_acyclic-Cyclic}
use snakemake_storage_plugin.Graph.Acyclic.Fuel.{check_acyclic-fuel}

-- A graph that is built has no cycle: no chain of its edges leads from a node back to itself.
pub join_graph_acyclic :
    (entities : List Entity) (edges : List Edge) (g : JoinGraph)
    → join_graph entities edges ≡ ok g
    → (n : String) → ¬ Leads g.edges n n
unfolding join_graph
join_graph_acyclic entities edges g h n =
    let (_, e1, h1) = >>=-eq-ok (index_entities [] entities) _ h in
    let (_, e2, h2) = >>=-eq-ok (check_edges entities [] edges) _ h1 in
    let (s, e3, h3) = >>=-eq-ok (check_acyclic (enough entities) entities edges) _ h2 in
    let built : edges ≡ g.edges = cc h3 in
    let known =
      λ (e : Edge) (m : Memᴰ e edges). (check_edges-IsSound entities [] edges e e2 m).child_known in
    rw (← built) (check_acyclic-Leads (enough entities) entities edges s e3 known n)

-- Every edge of a graph that is built joins two known entities, has as many columns as the key of
-- its parent, is not nullable, and is many-to-one or one-to-one.
pub join_graph-IsSound :
    (entities : List Entity) (edges : List Edge) (g : JoinGraph) (e : Edge)
    → join_graph entities edges ≡ ok g
    → Memᴰ e g.edges
    → IsSound g.entities e
unfolding join_graph
join_graph-IsSound entities edges g e h m =
    let (_, e1, h1) = >>=-eq-ok (index_entities [] entities) _ h in
    let (_, e2, h2) = >>=-eq-ok (check_edges entities [] edges) _ h1 in
    let (s, e3, h3) = >>=-eq-ok (check_acyclic (enough entities) entities edges) _ h2 in
    let built : record { entities = entities; edges = edges } ≡ g = cc h3 in
    let m' : Memᴰ e edges = rw (← built) at m in
    rw (← built) (check_edges-IsSound entities [] edges e e2 m')

pub join_graph-Distinct :
    (entities : List Entity) (edges : List Edge) (g : JoinGraph)
    → join_graph entities edges ≡ ok g
    → Distinct g.edges
unfolding join_graph
join_graph-Distinct entities edges g h =
    let (_, e1, h1) = >>=-eq-ok (index_entities [] entities) _ h in
    let (_, e2, h2) = >>=-eq-ok (check_edges entities [] edges) _ h1 in
    let (s, e3, h3) = >>=-eq-ok (check_acyclic (enough entities) entities edges) _ h2 in
    let built : edges ≡ g.edges = cc h3 in
    rw (← built) (check_edges-Distinct entities [] edges e2).0

-- An error of the search for cycles comes from the search, after both loops have passed.
search-error :
    (a b : Result RelationError Unit) (c : Result RelationError Marks) (g : JoinGraph)
    (e : RelationError)
    → ((x : RelationError) → a ≡ err x → is_search_error x ≡ false)
    → ((x : RelationError) → b ≡ err x → is_search_error x ≡ false)
    → is_search_error e ≡ true
    → (a >>= λ _. b >>= λ _. c >>= λ _. ok g) ≡ err e
    → (b ≡ ok tt) × (c ≡ err e)
search-error (err x) b c g e ha hb he h = absurd (cc (ha x refl))
search-error (ok _) (err x) c g e ha hb he h = absurd (cc (hb x refl))
search-error (ok _) (ok _) (err x) g e ha hb he h = (refl, cc)
search-error (ok _) (ok _) (ok s) g e ha hb he h = cc

module _ (entities : List Entity) (edges : List Edge) where
  search_failed :
      (e : RelationError)
      → is_search_error e ≡ true
      → join_graph entities edges ≡ err e
      → (check_edges entities [] edges ≡ ok tt)
        × (check_acyclic (enough entities) entities edges ≡ err e)
  unfolding join_graph
  search_failed e he h =
      search-error (index_entities [] entities) (check_edges entities [] edges)
        (check_acyclic (enough entities) entities edges) _ e
        (λ x. index_entities-error [] entities x) (λ x. check_edges-error entities [] edges x) he h

  -- When the graph is refused for a cycle, there is one: a chain of the given edges leads from some
  -- node back to itself.
  pub join_graph_cycle :
      (path : List String) → join_graph entities edges ≡ err (cycle path) → Cyclic edges
  join_graph_cycle path h =
      check_acyclic-Cyclic (enough entities) entities edges path
        (search_failed (cycle path) refl h).1

  -- The search for cycles ends within its fuel, whatever the entities and the edges.
  pub join_graph-ne-out_of_fuel : join_graph entities edges ≢ err out_of_fuel
  join_graph-ne-out_of_fuel h =
      let (passed, failed) = search_failed out_of_fuel refl h in
      check_acyclic-fuel entities edges
        (λ n p m.
          let (e, me, ce, pe) = mem-parents edges n p m in
          rw (← pe) ((check_edges-IsSound entities [] edges e passed me).parent_known))
        failed

-- ===== src/Graph/Acyclic.antt =====
-- `JoinGraph._check_acyclic`: a depth-first visit that colours nodes, 1 while their parents are
-- visited (`active`) and 2 afterwards (`finished`). The recursion of `visit` takes fuel.
pub mod Keeps
pub mod Sound
pub mod Real
pub mod Fuel
use snakemake_storage_plugin.Base.{
  ◌≡◌, String, Option, none, some, List, [], ◌∷◌, ◌++◌, ◌==◌, ◌⊎◌, inl, inr, refl, if◌then◌else◌,
  suc, zero, ℕ, length,
}
use snakemake_storage_plugin.Base.Result.{Result, ok, err, ◌>>=◌, ◌>>◌}
use snakemake_storage_plugin.Graph.{Entity, Edge, RelationError, JoinGraph, cycle, out_of_fuel}
use snakemake_storage_plugin.Graph.Check.{names, index_entities, check_edges}

pub data Mark : Type 0 where
  active finished : Mark

pub Mark-cases : (o : Option Mark) → (o ≡ none) ⊎ ((o ≡ some active) ⊎ (o ≡ some finished))
Mark-cases none = inl refl
Mark-cases (some active) = inr (inl refl)
Mark-cases (some finished) = inr (inr refl)

-- The dict `state`: the newest entry of a node is the one that counts.
abbrev pub Marks : Type 0
Marks = List (String × Mark)

unfoldable pub mark_of : Marks → String → Option Mark
mark_of [] node = none
mark_of ((n, m) ∷ s) node = if n == node then some m else mark_of s node

-- `children[node]`: the parents of the node's edges, in edge order.
unfoldable pub parents : List Edge → String → List String
parents [] node = []
parents (e ∷ es) node =
    let rest = parents es node in if e.child == node then e.parent ∷ rest else rest

-- `trail[trail.index(node):]`
unfoldable pub from_node : String → List String → List String
from_node node [] = []
from_node node (n ∷ trail) = if n == node then n ∷ trail else from_node node trail

-- `for nxt in children[node]: visit(nxt, …)`
unfoldable pub visit_each :
    (String → Marks → Result RelationError Marks) → List String → Marks → Result RelationError Marks
visit_each visit_one [] s = ok s
visit_each visit_one (n ∷ ns) s = visit_one n s >>= visit_each visit_one ns

unfoldable pub visit : List Edge → ℕ → String → List String → Marks → Result RelationError Marks
unfolding visit_each
visit edges zero node trail s = err out_of_fuel
visit edges (suc fuel) node trail s = elim (mark_of s node) [
  | some active ↦ err (cycle (from_node node trail ++ node ∷ []))
  | some finished ↦ ok s
  | none ↦
      visit_each (λ n. visit edges fuel n (trail ++ node ∷ [])) (parents edges node)
        ((node, active) ∷ s)
      >>= λ s'. ok ((node, finished) ∷ s')
]

unfoldable pub check_acyclic : ℕ → List Entity → List Edge → Result RelationError Marks
unfolding visit visit_each
check_acyclic fuel entities edges = visit_each (λ n. visit edges fuel n []) (names entities) []

-- One more than the number of entities: a chain of nodes that are all active is no longer.
abbrev pub enough : List Entity → ℕ
enough entities = suc (length (names entities))

-- `JoinGraph(entities, edges)`
unfoldable pub join_graph : List Entity → List Edge → Result RelationError JoinGraph
join_graph entities edges = do
  index_entities [] entities
  check_edges entities [] edges
  _ ← check_acyclic (enough entities) entities edges
  ok (record { entities = entities; edges = edges })

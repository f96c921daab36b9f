-- ===== src/Graph/Choice.antt =====
-- `JoinGraph.path`, `reachable` and `ambiguous`: the choice of the one route between two entities.
pub mod Unique
pub mod Ambiguous
use snakemake_storage_plugin.Base.{
  ◌≡◌, String, Bool, true, false, not, ◌||◌, Option, none, some, List, [], ◌∷◌, ◌==◌, if◌then◌else◌,
  ℕ, keep, subset,
}
use snakemake_storage_plugin.Base.Result.{Result, ok, err, ◌>>=◌}
use snakemake_storage_plugin.Graph.{
  Entity, Route, RelationError, JoinGraph, no_path, fan_out_only, ambiguous_path, route_labels,
  route_fan_out,
}
use snakemake_storage_plugin.Graph.Check.{entity}
use snakemake_storage_plugin.Graph.Search.{paths}

-- `set(via) <= set(p.labels)`, for every route where `via` is None.
abbrev pub goes_via : Option (List String) → Route → Bool
goes_via none p = true
goes_via (some labels) p = subset labels (route_labels p)

abbrev pub is_safe : Bool → Route → Bool
is_safe allow_fan_out p = allow_fan_out || not (route_fan_out p)

abbrev pub pick : List Route → Result RelationError Route
pick [] = err fan_out_only
pick (p ∷ []) = ok p
pick (p ∷ q ∷ rest) = err ambiguous_path

-- The tests on the candidates, those that `via` leaves.
abbrev pub choose : Bool → List Route → Result RelationError Route
choose allow_fan_out [] = err no_path
choose allow_fan_out (p ∷ ps) = pick (keep (is_safe allow_fan_out) (p ∷ ps))

unfoldable pub path :
    JoinGraph → String → String → Option (List String) → Bool → ℕ → Result RelationError Route
path g source target via allow_fan_out max_hops = do
  _ ← entity g.entities source
  _ ← entity g.entities target
  choose allow_fan_out (keep (goes_via via) (paths g.edges source target max_hops))

-- The loop of `reachable`: every error leaves the entity out.
unfoldable pub reachable_from : JoinGraph → String → ℕ → List Entity → List (String × Route)
unfolding path
reachable_from g source max_hops [] = []
reachable_from g source max_hops (e ∷ es) =
    let rest = reachable_from g source max_hops es in
    if e.name == source then rest else elim (path g source e.name none false max_hops) [
      | ok p ↦ (e.name, p) ∷ rest
      | err _ ↦ rest
    ]

unfoldable pub reachable : JoinGraph → String → ℕ → List (String × Route)
unfolding reachable_from
reachable g source max_hops = reachable_from g source max_hops g.entities

abbrev pub is_ambiguous : Result RelationError Route → Bool
is_ambiguous (err ambiguous_path) = true
is_ambiguous _ = false

unfoldable pub ambiguous_from : JoinGraph → String → ℕ → List Entity → List String
unfolding path
ambiguous_from g source max_hops [] = []
ambiguous_from g source max_hops (e ∷ es) =
    let rest = ambiguous_from g source max_hops es in
    if e.name == source
    then rest
    else if is_ambiguous (path g source e.name none false max_hops)
    then e.name ∷ rest
    else rest

unfoldable pub ambiguous : JoinGraph → String → ℕ → List String
unfolding ambiguous_from
ambiguous g source max_hops = ambiguous_from g source max_hops g.entities

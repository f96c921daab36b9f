-- ===== src/Graph/Search.antt =====
-- `JoinGraph._paths`: the routes from one entity to another within a number of hops.
pub mod Exact
pub mod Distinct
use snakemake_storage_plugin.Base.{
  is_empty, ◌≡◌, String, Bool, true, false, not, ◌&&◌, List, [], ◌∷◌, ◌++◌, ◌==◌, if◌then◌else◌,
  suc, zero, ℕ, contains, Memᴰ,
}
use snakemake_storage_plugin.Graph.{Edge, Hop, Route, hop_source, hop_target}

-- A loop that collects what each element finds.
unfoldable pub collect {ℓ κ} : {A : Type ℓ} {B : Type κ} → (A → List B) → List A → List B
collect f [] = []
collect f (x ∷ xs) = f x ++ collect f xs

-- The inner loop: `(Hop(edge, True), Hop(edge, False))`.
abbrev pub both_ways : Edge → List Hop
both_ways e = record { edge = e; forward = true } ∷ record { edge = e; forward = false } ∷ []

-- The guard of the recursive call.
abbrev pub may_follow : String → List String → Hop → Bool
may_follow node seen h = hop_source h == node && not (contains (hop_target h) seen)

-- One hop of the inner loop: the recursive call, if the hop may be followed.
abbrev pub try_hop :
    (String → List Hop → List String → List Route)
    → String
    → List Hop
    → List String
    → Hop
    → List Route
try_hop next node hops seen h =
    if may_follow node seen h
    then next (hop_target h) (hops ++ h ∷ []) (hop_target h ∷ seen)
    else []

-- `node == target and hops`
abbrev pub arrived : String → String → List Hop → Bool
arrived target node hops = node == target && not (is_empty hops)

module _ (edges : List Edge) (source target : String) where
  -- `left` is `max_hops - len(hops)`; the hops so far and the seen names come with each call.
  unfoldable pub walk : ℕ → String → List Hop → List String → List Route
  unfolding collect contains
  walk zero node hops seen =
      if arrived target node hops then record { source = source; hops = hops } ∷ [] else []
  walk (suc left) node hops seen =
      if arrived target node hops
      then record { source = source; hops = hops } ∷ []
      else collect (λ e. collect (try_hop (walk left) node hops seen) (both_ways e)) edges

-- `_paths` on a graph that knows both entities.
unfoldable pub paths : List Edge → String → String → ℕ → List Route
unfolding walk
paths edges source target max_hops = walk edges source target max_hops source [] (source ∷ [])

-- What a route is: consecutive hops over the graph's edges.
abbrev pub IsWalk : List Edge → String → List Hop → String → Type 0
IsWalk edges a [] b = a ≡ b
IsWalk edges a (h ∷ hs) b =
    Memᴰ h.edge edges × (hop_source h ≡ a) × IsWalk edges (hop_target h) hs b

-- No hop enters a name that was seen before.
abbrev pub IsSimple : List String → List Hop → Type 0
IsSimple seen [] = Unit
IsSimple seen (h ∷ hs) = (contains (hop_target h) seen ≡ false) × IsSimple (hop_target h ∷ seen) hs

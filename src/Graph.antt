-- ===== src/Graph.antt =====
-- workflow/scripts/sqlsink/relations.py: entities, edges, hops, routes and the join graph. `Path`
-- of the source is `Route` here. The modules below hold the checks that build a graph, the search
-- for routes and the choice of one.
pub mod Check
pub mod Acyclic
pub mod Build
pub mod Search
pub mod Choice
mod Tests
use snakemake_storage_plugin.Base.{
  ◌≡◌, String, Bool, true, false, not, ◌&&◌, Option, none, some, List, [], ◌∷◌, map, ◌==◌, ◌<>◌,
  if◌then◌else◌, any, Memᴰ,
}

abbrev pub many_to_one : String
many_to_one = "many_to_one"

abbrev pub one_to_one : String
one_to_one = "one_to_one"

abbrev pub one_to_many : String
one_to_many = "one_to_many"

abbrev pub many_to_many : String
many_to_many = "many_to_many"

-- One constructor for each `raise`. `AmbiguousPathError` is `ambiguous_path`, `FanOutError` is
-- `fan_out_only`, every other one is a plain `RelationError`. `out_of_fuel` is the model's own.
pub data RelationError : Type 0 where
  duplicate_entity duplicate_edge unknown_entity not_joinable bad_cardinality :
      String → RelationError
  nullable_key key_arity self_reference : String → RelationError
  cycle : List String → RelationError
  no_path fan_out_only ambiguous_path : RelationError
  out_of_fuel : RelationError

pub record Entity : Type 0 where
  pub name : String
  pub primary_key : List String

pub record Edge : Type 0 where
  pub child : String
  pub parent : String
  pub columns : List String
  pub cardinality : String
  pub nullable : Bool
  pub name : Option String

-- `",".join(texts)`
unfoldable pub join_comma : List String → String
join_comma [] = ""
join_comma (x ∷ []) = x
join_comma (x ∷ y ∷ ys) = x <> "," <> join_comma (y ∷ ys)

unfoldable pub default_label : Edge → String
unfolding join_comma
default_label e = e.child <> "(" <> join_comma e.columns <> ")->" <> e.parent

-- `self.name or …`: a missing or empty name gives the default.
unfoldable pub label : Edge → String
unfolding default_label
label e = elim e.name [ none ↦ default_label e | some n ↦ if n == "" then default_label e else n ]

pub record Hop : Type 0 where
  pub edge : Edge
  pub forward : Bool

abbrev pub hop_source : Hop → String
hop_source h = if h.forward then h.edge.child else h.edge.parent

abbrev pub hop_target : Hop → String
hop_target h = if h.forward then h.edge.parent else h.edge.child

unfoldable pub hop_fan_out : Hop → Bool
hop_fan_out h = not h.forward && not (h.edge.cardinality == one_to_one)

pub record Route : Type 0 where
  pub source : String
  pub hops : List Hop

-- `self.hops[-1].target if self.hops else self.source`
unfoldable pub last_target : String → List Hop → String
last_target s [] = s
last_target s (h ∷ hs) = last_target (hop_target h) hs

unfoldable pub route_target : Route → String
unfolding last_target
route_target p = last_target p.source p.hops

unfoldable pub route_fan_out : Route → Bool
unfolding hop_fan_out any
route_fan_out p = any hop_fan_out p.hops

unfoldable pub route_cardinality : Route → String
unfolding route_fan_out
route_cardinality p = if route_fan_out p then one_to_many else many_to_one

unfoldable pub route_labels : Route → List String
unfolding label
route_labels p = map (λ h. label h.edge) p.hops

pub record JoinGraph : Type 0 where
  pub entities : List Entity
  pub edges : List Edge

-- A chain of edges, child to parent, of at least one edge.
pub data Leads (edges : List Edge) : String → String → Type 0 where
  one : (e : Edge) {a b : String} → Memᴰ e edges → e.child ≡ a → e.parent ≡ b → Leads edges a b
  step :
      (e : Edge) {a b c : String}
      → Memᴰ e edges
      → e.child ≡ a
      → e.parent ≡ b
      → Leads edges b c
      → Leads edges a c

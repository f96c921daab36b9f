-- ===== src/Graph/Check.antt =====
-- `JoinGraph.__post_init__`, `entity` and `_check_edge`: what a graph must satisfy to be built.
use mathlib.Core.List.Memᴰ
use snakemake_storage_plugin.Base.{
  ◌≡◌, refl, String, Bool, true, false, not, ◌||◌, Option, none, some, List, [], ◌∷◌, Memᴰ, ◌==◌,
  ◌=ℕ◌, if◌then◌else◌, contains, length, arith, eq_iff, eq_refl, Distinct, Bool-cases, inl, inr,
}
use snakemake_storage_plugin.Base.Result.{Result, ok, err, ◌>>=◌, ◌>>◌, raise_if, >>=-eq-ok}
use snakemake_storage_plugin.Graph.{
  Entity, Edge, RelationError, duplicate_entity, duplicate_edge, unknown_entity, not_joinable,
  bad_cardinality, nullable_key, key_arity, self_reference, label, many_to_one, one_to_one,
  many_to_many, cycle, out_of_fuel,
}

abbrev pub names : List Entity → List String
names [] = []
names (e ∷ es) = e.name ∷ names es

-- The loop that fills `by_name`.
unfoldable pub index_entities : List String → List Entity → Result RelationError Unit
unfolding contains
index_entities seen [] = ok tt
index_entities seen (e ∷ es) =
    if contains e.name seen
    then err (duplicate_entity e.name)
    else index_entities (e.name ∷ seen) es

unfoldable pub lookup_entity : String → List Entity → Option Entity
lookup_entity name [] = none
lookup_entity name (e ∷ es) = if e.name == name then some e else lookup_entity name es

-- `JoinGraph.entity`
unfoldable pub entity : List Entity → String → Result RelationError Entity
unfolding lookup_entity
entity entities name = elim (lookup_entity name entities) [
  | none ↦ err (unknown_entity name)
  | some e ↦ ok e
]

unfoldable pub check_edge : List Entity → Edge → Result RelationError Unit
unfolding label
check_edge entities edge = do
  child ← entity entities edge.child
  parent ← entity entities edge.parent
  raise_if (edge.cardinality == many_to_many) (not_joinable (label edge))
  raise_if (not (edge.cardinality == many_to_one || edge.cardinality == one_to_one))
      (bad_cardinality (label edge))
  raise_if edge.nullable (nullable_key (label edge))
  raise_if (not (length edge.columns =ℕ length parent.primary_key)) (key_arity (label edge))
  raise_if (child.name == parent.name) (self_reference (label edge))

-- The loop over the edges, with the labels seen so far.
unfoldable pub check_edges : List Entity → List String → List Edge → Result RelationError Unit
unfolding contains
check_edges entities labels [] = ok tt
check_edges entities labels (edge ∷ rest) =
    let later = check_edges entities (label edge ∷ labels) rest in
    do
      raise_if (contains (label edge) labels) (duplicate_edge (label edge))
      check_edge entities edge
      later

-- What an accepted edge satisfies.
pub record IsSound (entities : List Entity) (edge : Edge) : Type 0 where
  pub parent : Entity
  pub child_known : Memᴰ edge.child (names entities)
  pub parent_known : Memᴰ edge.parent (names entities)
  pub parent_found : lookup_entity edge.parent entities ≡ some parent
  pub not_null : edge.nullable ≡ false
  pub arity : length edge.columns ≡ length parent.primary_key
  pub to_one : (edge.cardinality == many_to_one || edge.cardinality == one_to_one) ≡ true

lookup_entity-mem :
    (name : String) (es : List Entity) (e : Entity)
    → lookup_entity name es ≡ some e
    → Memᴰ name (names es)
unfolding lookup_entity
lookup_entity-mem name [] e h = cc
lookup_entity-mem name (x ∷ xs) e h = elim (Bool-cases (x.name == name)) [
  | inl t ↦ Memᴰ.head (ground (arith, eq_iff x.name name))
  | inr f ↦ Memᴰ.tail (lookup_entity-mem name xs e (rw f at h))
]

entity-eq-ok :
    (es : List Entity) (name : String) (e : Entity)
    → entity es name ≡ ok e
    → lookup_entity name es ≡ some e
unfolding entity
entity-eq-ok es name e h = ground arith

pub check_edge-IsSound :
    (es : List Entity) (edge : Edge) → check_edge es edge ≡ ok tt → IsSound es edge
unfolding check_edge
check_edge-IsSound es edge h =
    let (child, ec, h1) = >>=-eq-ok (entity es edge.child) _ h in
    let (parent, ep, h2) = >>=-eq-ok (entity es edge.parent) _ h1 in
    let found = entity-eq-ok es edge.parent parent ep in
    record {
      parent = parent;
      child_known = lookup_entity-mem edge.child es child (entity-eq-ok es edge.child child ec);
      parent_known = lookup_entity-mem edge.parent es parent found;
      parent_found = found;
      not_null = ground arith;
      arity = ground arith;
      to_one = ground arith;
    }

pub check_edges-IsSound :
    (es : List Entity) (labels : List String) (edges : List Edge) (e : Edge)
    → check_edges es labels edges ≡ ok tt
    → Memᴰ e edges
    → IsSound es e
unfolding check_edges
check_edges-IsSound es labels [] e h m = elim m [ ]
check_edges-IsSound es labels (x ∷ xs) e h m =
    let (_, e1, h1) =
      >>=-eq-ok (raise_if (contains (label x) labels) (duplicate_edge (label x))) _ h in
    let (_, e2, h2) = >>=-eq-ok (check_edge es x) _ h1 in
    elim (Memᴰ.cases_cons m) [
      | inl same ↦ rw same (check_edge-IsSound es x e2)
      | inr later ↦ check_edges-IsSound es (label x ∷ labels) xs e h2 later
    ]

-- The errors that only the search for cycles raises.
abbrev pub is_search_error : RelationError → Bool
is_search_error (cycle _) = true
is_search_error out_of_fuel = true
is_search_error _ = false

pub index_entities-error :
    (seen : List String) (es : List Entity) (e : RelationError)
    → index_entities seen es ≡ err e
    → is_search_error e ≡ false
unfolding index_entities
index_entities-error seen [] e h = cc
index_entities-error seen (x ∷ xs) e h = elim (Bool-cases (contains x.name seen)) [
  | inl t ↦ let same : err (duplicate_entity x.name) ≡ err e = rw t at h in ground arith
  | inr f ↦ index_entities-error (x.name ∷ seen) xs e (rw f at h)
]

check_edge-error :
    (es : List Entity) (edge : Edge) (e : RelationError)
    → check_edge es edge ≡ err e
    → is_search_error e ≡ false
unfolding check_edge entity
check_edge-error es edge e h = ground arith

check_edges-step :
    (b : Bool) (n : RelationError) (c d : Result RelationError Unit) (e : RelationError)
    → (raise_if b n >> (c >> d)) ≡ err e
    → is_search_error n ≡ false
    → ((x : RelationError) → c ≡ err x → is_search_error x ≡ false)
    → ((x : RelationError) → d ≡ err x → is_search_error x ≡ false)
    → is_search_error e ≡ false
check_edges-step true n c d e h hn hc hd = ground arith
check_edges-step false n (err x) d e h hn hc hd = hc e h
check_edges-step false n (ok _) d e h hn hc hd = hd e h

pub check_edges-error :
    (es : List Entity) (labels : List String) (edges : List Edge) (e : RelationError)
    → check_edges es labels edges ≡ err e
    → is_search_error e ≡ false
unfolding check_edges
check_edges-error es labels [] e h = cc
check_edges-error es labels (x ∷ xs) e h =
    check_edges-step (contains (label x) labels) (duplicate_edge (label x)) (check_edge es x)
      (check_edges es (label x ∷ labels) xs) e h refl (λ y. check_edge-error es x y)
      (λ y. check_edges-error es (label x ∷ labels) xs y)

label_seen : (x : Edge) (labels : List String) → contains (label x) (label x ∷ labels) ≡ false → ⊥
unfolding contains
label_seen x labels h = cc (rw (eq_refl (label x)) at h)

label_unseen :
    (e x : Edge) (labels : List String)
    → contains (label e) (label x ∷ labels) ≡ false
    → contains (label e) labels ≡ false
unfolding contains
label_unseen e x labels h = ground arith

-- Two edges with one label are refused, so no edge is listed twice.
pub check_edges-Distinct :
    (es : List Entity) (labels : List String) (edges : List Edge)
    → check_edges es labels edges ≡ ok tt
    → Distinct edges × ((e : Edge) → Memᴰ e edges → contains (label e) labels ≡ false)
unfolding check_edges
check_edges-Distinct es labels [] h = (tt, λ e m. elim m [ ])
check_edges-Distinct es labels (x ∷ xs) h =
    let (_, e1, h1) =
      >>=-eq-ok (raise_if (contains (label x) labels) (duplicate_edge (label x))) _ h in
    let (_, e2, h2) = >>=-eq-ok (check_edge es x) _ h1 in
    let (d, fresh) = check_edges-Distinct es (label x ∷ labels) xs h2 in
    let new : contains (label x) labels ≡ false = ground arith in
    (
      (λ m. label_seen x labels (fresh x m), d),
      λ e m. elim (Memᴰ.cases_cons m) [
        | inl same ↦ rw same new
        | inr later ↦ label_unseen e x labels (fresh e later)
      ],
    )

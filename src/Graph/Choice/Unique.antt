-- ===== src/Graph/Choice/Unique.antt =====
-- What `path`, `reachable` and `ambiguous` answer, said of the walks of the graph.
use mathlib.Core.List.Memᴰ
use snakemake_storage_plugin.Base.{
  ◌≡◌, ◌≢◌, refl, sym, ap, ◌∙◌, eq_iff, ==_ne, String, Bool, true, false, Option, none, List, [],
  ◌∷◌, Memᴰ, ℕ, ◌≤◌, length, keep, mem-keep, keep-mem, arith, Bool-cases, inl, inr, ◌==◌, ◌⊎◌,
  Distinct, keep-Distinct,
}
use snakemake_storage_plugin.Base.Result.{Result, ok, err, Result-cases}
use snakemake_storage_plugin.Graph.{
  Entity, Edge, Route, RelationError, JoinGraph, no_path, unknown_entity, fan_out_only,
  ambiguous_path, many_to_one, route_fan_out, route_cardinality,
}
use snakemake_storage_plugin.Graph.Check.{entity, lookup_entity}
use snakemake_storage_plugin.Graph.Acyclic.{join_graph}
use snakemake_storage_plugin.Graph.Build.{join_graph-Distinct}
use snakemake_storage_plugin.Graph.Search.{paths, IsWalk, IsSimple}
use snakemake_storage_plugin.Graph.Search.Exact.{paths_exact}
use snakemake_storage_plugin.Graph.Search.Distinct.{paths-Distinct}
use snakemake_storage_plugin.Graph.Choice.{
  goes_via, is_safe, pick, choose, path, reachable_from, reachable,
}

-- A route from `source` to `target`: a simple walk of 1 to `max_hops` hops.
pub record IsRoute (edges : List Edge) (source target : String) (max_hops : ℕ) (p : Route)
    : Type 0 where
  pub from : p.source ≡ source
  pub walks : IsWalk edges source p.hops target
  pub simple : IsSimple (source ∷ []) p.hops
  pub short : length p.hops ≤ max_hops
  pub some_hop : p.hops ≢ []

-- A route that the caller's `via` and `allow_fan_out` admit.
pub record IsAdmitted (g : JoinGraph) (source target : String) (via : Option (List String))
    (allow : Bool) (max_hops : ℕ) (p : Route) : Type 0 where
  pub route : IsRoute g.edges source target max_hops p
  pub by_via : goes_via via p ≡ true
  pub safe : is_safe allow p ≡ true

abbrev choose_from : List Route → List Route → Result RelationError Route
choose_from [] ss = err no_path
choose_from (c ∷ cs) ss = pick ss

abbrev pub IsEntity : JoinGraph → String → Type 0
IsEntity g n = (e : Entity) × Memᴰ e g.entities × (e.name ≡ n)

entity-cases :
    (es : List Entity) (n : String)
    → ((a : Entity) × (entity es n ≡ ok a) × ((e : Entity) × Memᴰ e es × (e.name ≡ n)))
      ⊎ ((entity es n ≡ err (unknown_entity n)) × ((e : Entity) → Memᴰ e es → e.name ≢ n))
unfolding entity lookup_entity
entity-cases [] n = inr (refl, λ e m. elim m [ ])
entity-cases (x ∷ es) n = elim (Bool-cases (x.name == n)) [
  | inl t ↦ inl (x, rw (t, entity) refl, (x, Memᴰ.head refl, (eq_iff x.name n).0 t))
  | inr f ↦ elim (entity-cases es n) [
    | inl (a, e, (b, m, same)) ↦ inl (a, rw (f, entity) e, (b, Memᴰ.tail m, same))
    | inr (e, lacks) ↦ inr (
      rw (f, entity) e,
      λ b m. elim (Memᴰ.cases_cons m) [
        | inl q ↦ λ same. ==_ne x.name n f (ap (λ (w : Entity). w.name) (sym q) ∙ same)
        | inr k ↦ lacks b k
      ],
    )
  ]
]

module _ (g : JoinGraph) (source target : String) (via : Option (List String)) (allow : Bool)
    (max_hops : ℕ) where
  abbrev candidates : List Route
  candidates = keep (goes_via via) (paths g.edges source target max_hops)

  abbrev safe_ones : List Route
  safe_ones = keep (is_safe allow) candidates

  mem-candidates :
      (p : Route)
      → Memᴰ p candidates
      → IsRoute g.edges source target max_hops p × (goes_via via p ≡ true)
  mem-candidates p m =
      let (listed, ok_via) = mem-keep (goes_via via) (paths g.edges source target max_hops) m in
      let (a, b, c, d, e) = (paths_exact g.edges source target max_hops p).0 listed in
      (record { from = a; walks = b; simple = c; short = d; some_hop = e }, ok_via)

  candidates-mem :
      (p : Route)
      → IsRoute g.edges source target max_hops p
      → goes_via via p ≡ true
      → Memᴰ p candidates
  candidates-mem p r v =
      keep-mem (goes_via via) (paths g.edges source target max_hops)
        ((paths_exact g.edges source target max_hops p).1
          (r.from, r.walks, r.simple, r.short, r.some_hop))
        v

  mem-safe : (p : Route) → Memᴰ p safe_ones → IsAdmitted g source target via allow max_hops p
  mem-safe p m =
      let (c, s) = mem-keep (is_safe allow) candidates m in
      let (r, v) = mem-candidates p c in record { route = r; by_via = v; safe = s }

  safe-mem : (p : Route) → IsAdmitted g source target via allow max_hops p → Memᴰ p safe_ones
  safe-mem p a = keep-mem (is_safe allow) candidates (candidates-mem p a.route a.by_via) a.safe

  -- The error for an entity that the graph lacks: one of the two that were asked for.
  abbrev pub IsUnknown : Result RelationError Route → Type 0
  IsUnknown r =
      (n : String) × (r ≡ err (unknown_entity n))
      × ((n ≡ source) ⊎ (n ≡ target))
      × ((e : Entity) → Memᴰ e g.entities → e.name ≢ n)

  path-choose :
      (r : Result RelationError Route)
      → path g source target via allow max_hops ≡ r
      → ((IsEntity g source × IsEntity g target) × (choose allow candidates ≡ r)) ⊎ IsUnknown r
  unfolding path
  path-choose r h = elim (entity-cases g.entities source) [
    | inr (e, lacks) ↦ inr (source, rw e at (sym h), inl refl, lacks)
    | inl (a, e, known) ↦ elim (entity-cases g.entities target) [
      | inr (f, lacks) ↦ inr (target, rw (e, f) at (sym h), inr refl, lacks)
      | inl (b, f, known') ↦ inl ((known, known'), rw (e, f) at h)
    ]
  ]

  -- What an answer of `path` on two entities of the graph says. No other error is one.
  abbrev pub Answers : Result RelationError Route → Type 0
  Answers (ok p) =
      IsAdmitted g source target via allow max_hops p
      × ((q : Route) → IsAdmitted g source target via allow max_hops q → q ≡ p)
  Answers (err no_path) =
      (q : Route) → IsRoute g.edges source target max_hops q → goes_via via q ≡ false
  Answers (err fan_out_only) =
      ((q : Route) × IsRoute g.edges source target max_hops q × (goes_via via q ≡ true))
      × ((q : Route)
          → IsRoute g.edges source target max_hops q
          → goes_via via q ≡ true
          → (allow ≡ false) × (route_fan_out q ≡ true))
  Answers (err ambiguous_path) =
      (p q : Route) × IsAdmitted g source target via allow max_hops p
      × IsAdmitted g source target via allow max_hops q
      × (p ≢ q)
  Answers (err _) = true ≡ false

  -- With the candidates and the safe ones among them given as lists.
  choose-Answers :
      (cs ss : List Route)
      → candidates ≡ cs
      → safe_ones ≡ ss
      → Distinct ss
      → Answers (choose_from cs ss)
  choose-Answers [] ss ec es d = λ q iq. elim (Bool-cases (goes_via via q)) [
    | inl t ↦ absurd (Memᴰ.not-nil (rw ec at (candidates-mem q iq t)))
    | inr f ↦ f
  ]
  choose-Answers (c ∷ cs) [] ec es d =
      let (ic, vc) = mem-candidates c (rw ec (Memᴰ.head refl)) in
      (
        (c, ic, vc),
        λ q iq vq. elim (Bool-cases (is_safe allow q)) [
          | inl t ↦
              absurd (
                Memᴰ.not-nil (rw es at (safe-mem q (record { route = iq; by_via = vq; safe = t }))))
          | inr f ↦ ground arith
        ],
      )
  choose-Answers (c ∷ cs) (p ∷ []) ec es d =
      (mem-safe p (rw es (Memᴰ.head refl)), λ q a. Memᴰ.eq_of_singleton (rw es at (safe-mem q a)))
  choose-Answers (c ∷ cs) (p ∷ q ∷ rest) ec es d = (
    p,
    q,
    mem-safe p (rw es (Memᴰ.head refl)),
    mem-safe q (rw es (Memᴰ.tail (Memᴰ.head refl))),
    λ e. d.0 (Memᴰ.head e),
  )

  choose-eq : (cs : List Route) → choose allow cs ≡ choose_from cs (keep (is_safe allow) cs)
  choose-eq [] = refl
  choose-eq (c ∷ cs) = refl

  pub path-Answers :
      Distinct g.edges
      → ((IsEntity g source × IsEntity g target)
          × Answers (path g source target via allow max_hops))
        ⊎ IsUnknown (path g source target via allow max_hops)
  path-Answers d = elim (path-choose (path g source target via allow max_hops) refl) [
    | inr unknown ↦ inr unknown
    | inl (known, e) ↦ inl (
      known,
      rw (← e, choose-eq candidates)
          (choose-Answers candidates safe_ones refl refl (
            keep-Distinct (is_safe allow) candidates (
              keep-Distinct (goes_via via) (paths g.edges source target max_hops)
                (paths-Distinct g.edges source target d max_hops)))),
    )
  ]

-- On a graph that was built, the answer of `path` is right on every branch. Either it is the error
-- for an unknown entity, which names the source or the target, and the graph has no such entity. Or
-- both are entities of the graph, and a route is returned when it is the only admitted one; "no
-- path" when no simple walk within the hops satisfies `via`; "fan out" when there are such walks,
-- fan-out was not allowed and all of them multiply rows; "ambiguous" when two different routes are
-- admitted; and there is no other error.
pub path_right :
    (entities : List Entity) (edges : List Edge) (g : JoinGraph)
    → join_graph entities edges ≡ ok g
    → (source target : String) (via : Option (List String)) (allow : Bool) (max_hops : ℕ)
    → ((IsEntity g source × IsEntity g target)
        × Answers g source target via allow max_hops (path g source target via allow max_hops))
      ⊎ IsUnknown g source target via allow max_hops (path g source target via allow max_hops)
path_right entities edges g h source target via allow max_hops =
    path-Answers g source target via allow max_hops (join_graph-Distinct entities edges g h)

-- An answer other than that for an unknown entity.
pub answer_of :
    (entities : List Entity) (edges : List Edge) (g : JoinGraph)
    → join_graph entities edges ≡ ok g
    → (source target : String) (via : Option (List String)) (allow : Bool) (max_hops : ℕ)
    → (r : Result RelationError Route) → path g source target via allow max_hops ≡ r
    → ((n : String) → r ≢ err (unknown_entity n))
    → Answers g source target via allow max_hops r
answer_of entities edges g h source target via allow max_hops r found known =
    elim (path_right entities edges g h source target via allow max_hops) [
      | inl (_, a) ↦ rw found at a
      | inr (n, e, _, _) ↦ absurd (known n (sym found ∙ e))
    ]

mem-reachable_from :
    (g : JoinGraph) (source : String) (max_hops : ℕ) (es : List Entity) (n : String) (p : Route)
    → Memᴰ (n, p) (reachable_from g source max_hops es)
    → path g source n none false max_hops ≡ ok p
unfolding reachable_from
mem-reachable_from g source max_hops [] n p m = elim m [ ]
mem-reachable_from g source max_hops (e ∷ es) n p m = elim (Bool-cases (e.name == source)) [
  | inl t ↦ mem-reachable_from g source max_hops es n p (rw t at m)
  | inr f ↦ elim (Result-cases (path g source e.name none false max_hops)) [
    | inl (q, found) ↦ elim (Memᴰ.cases_cons (rw (f, found, reachable_from) at m)) [
      | inl same ↦
          let name : e.name ≡ n = ap (λ x. x.0) (sym same) in
          let route : q ≡ p = ap (λ x. x.1) (sym same) in rw (← name, ← route) found
      | inr later ↦ mem-reachable_from g source max_hops es n p later
    ]
    | inr (x, failed) ↦
        mem-reachable_from g source max_hops es n p (rw (f, failed, reachable_from) at m)
  ]
]

-- Every route that `reachable` reports keeps the grain: it is a simple walk to its entity with no
-- fan-out hop, so its cardinality is many-to-one, and no other such walk within the hops leads there.
pub reachable_keeps_grain :
    (entities : List Entity) (edges : List Edge) (g : JoinGraph)
    → join_graph entities edges ≡ ok g
    → (source : String) (max_hops : ℕ) (n : String) (p : Route)
    → Memᴰ (n, p) (reachable g source max_hops)
    → IsRoute g.edges source n max_hops p
      × (route_cardinality p ≡ many_to_one)
      × ((q : Route) → IsRoute g.edges source n max_hops q → route_fan_out q ≡ false → q ≡ p)
unfolding reachable route_cardinality
reachable_keeps_grain entities edges g h source max_hops n p m =
    let found = mem-reachable_from g source max_hops g.entities n p m in
    let (admitted, unique) =
      answer_of entities edges g h source n none false max_hops (ok p) found (λ x e. cc e) in
    let no_fan_out : route_fan_out p ≡ false = ground (arith, admitted.safe) in
    (
      admitted.route,
      rw no_fan_out,
      λ q r f. unique q (record { route = r; by_via = refl; safe = rw f }),
    )

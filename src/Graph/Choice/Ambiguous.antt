-- ===== src/Graph/Choice/Ambiguous.antt =====
-- What `ambiguous` reports.
use mathlib.Core.List.Memᴰ
use snakemake_storage_plugin.Base.{
  ◌≡◌, ◌≢◌, refl, ap, String, true, false, none, List, [], ◌∷◌, Memᴰ, ℕ, arith, Bool-cases, inl,
  inr, ◌==◌, ==_ne,
}
use snakemake_storage_plugin.Base.Result.{Result, ok, err}
use snakemake_storage_plugin.Graph.{
  Entity, Edge, Route, RelationError, JoinGraph, ambiguous_path, route_fan_out,
}
use snakemake_storage_plugin.Graph.Check.{names}
use snakemake_storage_plugin.Graph.Acyclic.{join_graph}
use snakemake_storage_plugin.Graph.Choice.{path, is_ambiguous, ambiguous_from, ambiguous}
use snakemake_storage_plugin.Graph.Choice.Unique.{IsRoute, IsAdmitted, answer_of}

is_ambiguous-eq : (r : Result RelationError Route) → is_ambiguous r ≡ true → r ≡ err ambiguous_path
is_ambiguous-eq (ok p) h = absurd (cc h)
is_ambiguous-eq (err ambiguous_path) h = refl
is_ambiguous-eq (err _) h = absurd (cc h)

mem-ambiguous_from :
    (g : JoinGraph) (source : String) (max_hops : ℕ) (es : List Entity) (n : String)
    → Memᴰ n (ambiguous_from g source max_hops es)
    → Memᴰ n (names es) × (n ≢ source) × (path g source n none false max_hops ≡ err ambiguous_path)
unfolding ambiguous_from
mem-ambiguous_from g source max_hops [] n m = elim m [ ]
mem-ambiguous_from g source max_hops (x ∷ es) n m = elim (Bool-cases (x.name == source)) [
  | inl t ↦
      let (k, far, e) = mem-ambiguous_from g source max_hops es n (rw t at m) in
      (Memᴰ.tail k, far, e)
  | inr f ↦ elim (Bool-cases (is_ambiguous (path g source x.name none false max_hops))) [
    | inr u ↦
        let (k, far, e) = mem-ambiguous_from g source max_hops es n (rw (f, u) at m) in
        (Memᴰ.tail k, far, e)
    | inl u ↦ elim (Memᴰ.cases_cons (rw (f, u) at m)) [
      | inr later ↦
          let (k, far, e) = mem-ambiguous_from g source max_hops es n later in (Memᴰ.tail k, far, e)
      | inl same ↦ rw same (
        Memᴰ.head refl,
        ==_ne x.name source f,
        is_ambiguous-eq (path g source x.name none false max_hops) u,
      )
    ]
  ]
]

no_fan_out :
    (g : JoinGraph) (source n : String) (max_hops : ℕ) (p : Route)
    → IsAdmitted g source n none false max_hops p
    → IsRoute g.edges source n max_hops p × (route_fan_out p ≡ false)
no_fan_out g source n max_hops p a = (a.route, ground (arith, a.safe))

-- On a graph that was built, each name that `ambiguous` reports is another entity of the graph, and
-- two different simple walks within the hops lead to it that both keep the grain.
pub ambiguous_has_two :
    (entities : List Entity) (edges : List Edge) (g : JoinGraph)
    → join_graph entities edges ≡ ok g
    → (source : String) (max_hops : ℕ) (n : String) → Memᴰ n (ambiguous g source max_hops)
    → Memᴰ n (names g.entities)
      × (n ≢ source)
      × ((p q : Route) × (IsRoute g.edges source n max_hops p × (route_fan_out p ≡ false))
          × (IsRoute g.edges source n max_hops q × (route_fan_out q ≡ false))
          × (p ≢ q))
unfolding ambiguous
ambiguous_has_two entities edges g h source max_hops n m =
    let (known, other, failed) = mem-ambiguous_from g source max_hops g.entities n m in
    let (p, q, ap, aq, differ) =
      answer_of entities edges g h source n none false max_hops (err ambiguous_path) failed
        (λ x e. cc e) in
    (
      known,
      other,
      (p, q, no_fan_out g source n max_hops p ap, no_fan_out g source n max_hops q aq, differ),
    )

-- ===== src/Graph/Acyclic/Real.antt =====
-- The error "cycle" is raised only for a graph that has one.
use mathlib.Core.List.Memᴰ
use snakemake_storage_plugin.Base.{
  ◌≡◌, refl, String, some, List, [], ◌∷◌, ◌++◌, Memᴰ, ◌==◌, suc, zero, ℕ, arith, eq_iff, Bool-cases,
  inl, inr,
}
use snakemake_storage_plugin.Base.Result.{Result, ok, err, ◌>>=◌}
use snakemake_storage_plugin.Graph.{Entity, Edge, RelationError, cycle, Leads, one, step}
use snakemake_storage_plugin.Graph.Check.{names}
use snakemake_storage_plugin.Graph.Acyclic.{
  active, Marks, mark_of, parents, visit_each, visit, check_acyclic, Mark-cases,
}
use snakemake_storage_plugin.Graph.Acyclic.Keeps.{visit-keeps, finish}

pub mem-parents :
    (edges : List Edge) (n p : String)
    → Memᴰ p (parents edges n)
    → (e : Edge) × Memᴰ e edges × (e.child ≡ n) × (e.parent ≡ p)
unfolding parents
mem-parents [] n p m = elim m [ ]
mem-parents (x ∷ xs) n p m = elim (Bool-cases (x.child == n)) [
  | inl t ↦ elim (Memᴰ.cases_cons (rw t at m)) [
    | inl same ↦ (x, Memᴰ.head refl, ground (arith, eq_iff x.child n), cc)
    | inr later ↦ let (e, a, b, c) = mem-parents xs n p later in (e, Memᴰ.tail a, b, c)
  ]
  | inr f ↦ let (e, a, b, c) = mem-parents xs n p (rw f at m) in (e, Memᴰ.tail a, b, c)
]

Leads-snoc :
    {edges : List Edge} {a b : String} (c : String)
    → Leads edges a b
    → Memᴰ c (parents edges b)
    → Leads edges a c
Leads-snoc {edges} {b = b} c (one e m child parent) q =
    let (x, mx, cx, px) = mem-parents edges b c q in step e m child parent (one x mx cx px)
Leads-snoc c (step e m child parent rest) q = step e m child parent (Leads-snoc c rest q)

-- Every active node leads to `node`.
abbrev Above : List Edge → Marks → String → Type 0
Above edges s node = (a : String) → mark_of s a ≡ some active → Leads edges a node

abbrev pub Cyclic : List Edge → Type 0
Cyclic edges = (n : String) × Leads edges n n

-- A visit leaves no more nodes active than it found.
abbrev Settles : Marks → Marks → Type 0
Settles s s' = (a : String) → mark_of s' a ≡ some active → mark_of s a ≡ some active

visit-Settles :
    (edges : List Edge) (fuel : ℕ) (trail : List String) (node : String) (s s' : Marks)
    → visit edges fuel node trail s ≡ ok s'
    → Settles s s'
unfolding mark_of
visit-Settles =
    visit-keeps Settles (λ s a q. q) (λ s t u f g a q. f a (g a q))
      (λ node s t fresh each b q. ground (arith, each b, eq_iff node b))

visit_each-Cyclic :
    (edges : List Edge) (v : String → Marks → Result RelationError Marks) (ns : List String)
    (s : Marks) (path : List String)
    → ((n : String) (s s' : Marks) → v n s ≡ ok s' → Settles s s')
    → ((n : String) (s : Marks)
        → Memᴰ n ns
        → Above edges s n
        → v n s ≡ err (cycle path)
        → Cyclic edges)
    → ((n : String) → Memᴰ n ns → Above edges s n)
    → visit_each v ns s ≡ err (cycle path)
    → Cyclic edges
unfolding visit_each
visit_each-Cyclic edges v [] s path keeps each above h = cc
visit_each-Cyclic edges v (n ∷ ns) s path keeps each above h =
    go (v n s) (λ e. each n s (Memᴰ.head refl) (above n (Memᴰ.head refl)) e)
      (λ t e r.
        visit_each-Cyclic edges v ns t path keeps (λ k u m. each k u (Memᴰ.tail m))
          (λ k m a q. above k (Memᴰ.tail m) a (keeps n s t e a q)) r)
      h
  where
    go :
        (r : Result RelationError Marks)
        → (r ≡ err (cycle path) → Cyclic edges)
        → ((t : Marks) → r ≡ ok t → visit_each v ns t ≡ err (cycle path) → Cyclic edges)
        → (r >>= visit_each v ns) ≡ err (cycle path)
        → Cyclic edges
    go (ok t) f g k = g t refl k
    go (err e) f g k = f k

Above-parent :
    (edges : List Edge) (node p : String) (s : Marks)
    → Above edges s node
    → Memᴰ p (parents edges node)
    → Above edges ((node, active) ∷ s) p
unfolding mark_of
Above-parent edges node p s above m a q = elim (Bool-cases (node == a)) [
  | inl same ↦
      let (e, me, ce, pe) = mem-parents edges node p m in
      one e me (ground (arith, eq_iff node a)) pe
  | inr other ↦ Leads-snoc p (above a (rw other at q)) m
]

finish-eq-err :
    (node : String) (r : Result RelationError Marks) (e : RelationError)
    → (r >>= finish node) ≡ err e
    → r ≡ err e
finish-eq-err node (ok t) e h = cc
finish-eq-err node (err x) e h = h

visit-Cyclic :
    (edges : List Edge) (fuel : ℕ) (trail : List String) (node : String) (s : Marks)
    (path : List String)
    → Above edges s node
    → visit edges fuel node trail s ≡ err (cycle path)
    → Cyclic edges
unfolding visit
visit-Cyclic edges zero trail node s path above h = cc
visit-Cyclic edges (suc fuel) trail node s path above h = elim (Mark-cases (mark_of s node)) [
  | inl fresh ↦
      visit_each-Cyclic edges (λ n. visit edges fuel n (trail ++ node ∷ [])) (parents edges node)
        ((node, active) ∷ s) path (λ n a b. visit-Settles edges fuel (trail ++ node ∷ []) n a b)
        (λ n t m up e. visit-Cyclic edges fuel (trail ++ node ∷ []) n t path up e)
        (λ n m. Above-parent edges node n s above m)
        (finish-eq-err node _ _ (rw (fresh, visit) at h))
  | inr (inl busy) ↦ (node, above node busy)
  | inr (inr closed) ↦ cc (rw (closed, visit) at h)
]

pub check_acyclic-Cyclic :
    (fuel : ℕ) (entities : List Entity) (edges : List Edge) (path : List String)
    → check_acyclic fuel entities edges ≡ err (cycle path)
    → Cyclic edges
unfolding check_acyclic mark_of
check_acyclic-Cyclic fuel entities edges path h =
    visit_each-Cyclic edges (λ n. visit edges fuel n []) (names entities) [] path
      (λ n a b. visit-Settles edges fuel [] n a b)
      (λ n t m up e. visit-Cyclic edges fuel [] n t path up e) (λ n m a q. cc) h

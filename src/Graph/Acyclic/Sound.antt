-- ===== src/Graph/Acyclic/Sound.antt =====
-- A graph that passes the check has no cycle: the finished nodes are listed after their parents.
use mathlib.Core.List.Memᴰ
use snakemake_storage_plugin.Base.{
  ◌≡◌, refl, sym, ap, String, some, List, [], ◌∷◌, ◌++◌, Memᴰ, ◌==◌, suc, zero, ℕ, arith, eq_iff,
  Bool-cases, inl, inr,
}
use snakemake_storage_plugin.Base.Result.{Result, ok, >>=-eq-ok}
use snakemake_storage_plugin.Graph.{Entity, Edge, RelationError, Leads, one, step}
use snakemake_storage_plugin.Graph.Check.{names}
use snakemake_storage_plugin.Graph.Acyclic.{
  Mark, active, finished, Marks, mark_of, parents, visit_each, visit, check_acyclic, Mark-cases,
}
use snakemake_storage_plugin.Graph.Acyclic.Keeps.{finish}

pub mark_of-mem :
    (s : Marks) (node : String) (m : Mark) → mark_of s node ≡ some m → Memᴰ (node, m) s
unfolding mark_of
mark_of-mem [] node m h = cc
mark_of-mem ((n, k) ∷ s) node m h = elim (Bool-cases (n == node)) [
  | inl t ↦ Memᴰ.head (ground (arith, eq_iff n node))
  | inr f ↦ Memᴰ.tail (mark_of-mem s node m (rw f at h))
]

pub parents-mem :
    (edges : List Edge) (e : Edge) → Memᴰ e edges → Memᴰ e.parent (parents edges e.child)
unfolding parents
parents-mem [] e m = elim m [ ]
parents-mem (x ∷ xs) e m = elim (Memᴰ.cases_cons m) [
  | inl same ↦ rw (same, (eq_iff x.child x.child).1 refl) (Memᴰ.head refl)
  | inr later ↦ elim (Bool-cases (x.child == e.child)) [
    | inl t ↦ rw t (Memᴰ.tail (parents-mem xs e later))
    | inr f ↦ rw f (parents-mem xs e later)
  ]
]

-- Where a node is finished, its parents were finished before.
abbrev pub Closed : List Edge → Marks → Type 0
Closed edges [] = Unit
Closed edges ((n, active) ∷ s) = Closed edges s
Closed edges ((n, finished) ∷ s) =
    ((p : String) → Memᴰ p (parents edges n) → Memᴰ (p, finished) s) × Closed edges s

-- What a visit that returns has done.
record Visited (edges : List Edge) (goals : List String) (s s' : Marks) : Type 0 where
  closed : Closed edges s'
  reached : (n : String) → Memᴰ n goals → Memᴰ (n, finished) s'
  kept : (x : String × Mark) → Memᴰ x s → Memᴰ x s'

visit_each-Visited :
    (edges : List Edge) (v : String → Marks → Result RelationError Marks) (ns : List String)
    (s s' : Marks)
    → ((n : String) (s s' : Marks) → Closed edges s → v n s ≡ ok s' → Visited edges (n ∷ []) s s')
    → Closed edges s
    → visit_each v ns s ≡ ok s'
    → Visited edges ns s s'
unfolding visit_each
visit_each-Visited edges v [] s s' each c h =
    let same : s ≡ s' = cc in
    rw (← same) (record { closed = c; reached = λ n m. elim m [ ]; kept = λ x m. m })
visit_each-Visited edges v (n ∷ ns) s s' each c h =
    let (t, e1, h1) = >>=-eq-ok (v n s) (visit_each v ns) h in
    let first = each n s t c e1 in
    let later = visit_each-Visited edges v ns t s' each first.closed h1 in
    record {
      closed = later.closed;
      reached = λ k m. elim (Memᴰ.cases_cons m) [
        | inl same ↦ later.kept (k, finished) (first.reached k (Memᴰ.head same))
        | inr more ↦ later.reached k more
      ];
      kept = λ x m. later.kept x (first.kept x m);
    }

-- `node` itself, once all its parents are finished.
visit-Visited_opened :
    (edges : List Edge) (node : String) (s t : Marks)
    → Visited edges (parents edges node) ((node, active) ∷ s) t
    → Visited edges (node ∷ []) s ((node, finished) ∷ t)
visit-Visited_opened edges node s t v = record {
  closed = (v.reached, v.closed);
  reached = λ n m. Memᴰ.head (ap (λ k. (k, finished)) (Memᴰ.eq_of_singleton m));
  kept = λ x m. Memᴰ.tail (v.kept x (Memᴰ.tail m));
}

visit-Visited :
    (edges : List Edge) (fuel : ℕ) (trail : List String) (node : String) (s s' : Marks)
    → Closed edges s
    → visit edges fuel node trail s ≡ ok s'
    → Visited edges (node ∷ []) s s'
unfolding visit
visit-Visited edges zero trail node s s' c h = cc
visit-Visited edges (suc fuel) trail node s s' c h = elim (Mark-cases (mark_of s node)) [
  | inl fresh ↦
      let (t, e, h1) = >>=-eq-ok _ (finish node) (rw (fresh, visit) at h) in
      let all =
        visit_each-Visited edges (λ n. visit edges fuel n (trail ++ node ∷ [])) (parents edges node)
          ((node, active) ∷ s) t (λ n a b. visit-Visited edges fuel (trail ++ node ∷ []) n a b) c
          e in
      let same : ((node, finished) ∷ t) ≡ s' = cc in
      rw (← same) (visit-Visited_opened edges node s t all)
  | inr (inl busy) ↦ cc (rw (busy, visit) at h)
  | inr (inr closed) ↦
      let same : s ≡ s' = cc (rw (closed, visit) at h) in
      rw (← same) (record {
        closed = c;
        reached = λ n m. rw (Memᴰ.eq_of_singleton m) (mark_of-mem s node finished closed);
        kept = λ x m. m;
      })
]

check_acyclic-Visited :
    (fuel : ℕ) (entities : List Entity) (edges : List Edge) (s : Marks)
    → check_acyclic fuel entities edges ≡ ok s
    → Visited edges (names entities) [] s
unfolding check_acyclic
check_acyclic-Visited fuel entities edges s h =
    visit_each-Visited edges (λ n. visit edges fuel n []) (names entities) [] s
      (λ n a b. visit-Visited edges fuel [] n a b) tt h

-- What is finished is closed under the edges.
Closed-parent :
    (edges : List Edge) (s : Marks) (n p : String)
    → Closed edges s
    → Memᴰ (n, finished) s
    → Memᴰ p (parents edges n)
    → Memᴰ (p, finished) s
Closed-parent edges [] n p c m q = elim m [ ]
Closed-parent edges ((k, active) ∷ s) n p c m q = elim (Memᴰ.cases_cons m) [
  | inl same ↦ absurd (cc same)
  | inr later ↦ Memᴰ.tail (Closed-parent edges s n p c later q)
]
Closed-parent edges ((k, finished) ∷ s) n p c m q = elim (Memᴰ.cases_cons m) [
  | inl same ↦ Memᴰ.tail (c.0 p (rw (sym (ap (λ x. x.0) same)) q))
  | inr later ↦ Memᴰ.tail (Closed-parent edges s n p c.1 later q)
]

parent-finished :
    (edges : List Edge) (s : Marks) (e : Edge)
    → Closed edges s
    → Memᴰ (e.child, finished) s
    → Memᴰ e edges
    → Memᴰ (e.parent, finished) s
parent-finished edges s e c f m = Closed-parent edges s e.child e.parent c f (parents-mem edges e m)

Leads-finished :
    {edges : List Edge} {n m : String} (s : Marks)
    → Leads edges n m
    → Closed edges s
    → Memᴰ (n, finished) s
    → Memᴰ (m, finished) s
Leads-finished {edges} s (one e m child parent) c f =
    rw (← parent) (parent-finished edges s e c (rw child f) m)
Leads-finished {edges} s (step e m child parent rest) c f =
    Leads-finished s rest c (rw (← parent) (parent-finished edges s e c (rw child f) m))

-- From a finished node no chain of edges leads back to it.
Closed-acyclic :
    {edges : List Edge} (s : Marks) (n : String)
    → Closed edges s
    → Memᴰ (n, finished) s
    → ¬ Leads edges n n
Closed-acyclic [] n c f l = elim f [ ]
Closed-acyclic ((k, active) ∷ s) n c f l = elim (Memᴰ.cases_cons f) [
  | inl same ↦ cc same
  | inr later ↦ Closed-acyclic s n c later l
]
Closed-acyclic {edges} ((k, finished) ∷ s) n c f l = elim (Memᴰ.cases_cons f) [
  | inl same ↦ Closed-acyclic s n c.1 (around (λ p. rw (ap (λ x. x.0) same) (c.0 p)) l) l
  | inr later ↦ Closed-acyclic s n c.1 later l
]
  where
    around :
        ((p : String) → Memᴰ p (parents edges n) → Memᴰ (p, finished) s)
        → Leads edges n n
        → Memᴰ (n, finished) s
    around up (one e m child parent) =
        rw (← parent) (up e.parent (rw (← child) (parents-mem edges e m)))
    around up (step e m child parent rest) =
        Leads-finished s rest c.1
          (rw (← parent) (up e.parent (rw (← child) (parents-mem edges e m))))

Leads-child :
    {edges : List Edge} {n m : String} → Leads edges n m → (e : Edge) × Memᴰ e edges × (e.child ≡ n)
Leads-child (one e m child parent) = (e, m, child)
Leads-child (step e m child parent rest) = (e, m, child)

-- Where every child is an entity, an accepted list of edges has no cycle.
pub check_acyclic-Leads :
    (fuel : ℕ) (entities : List Entity) (edges : List Edge) (s : Marks)
    → check_acyclic fuel entities edges ≡ ok s
    → ((e : Edge) → Memᴰ e edges → Memᴰ e.child (names entities))
    → (n : String) → ¬ Leads edges n n
check_acyclic-Leads fuel entities edges s h known n l =
    let (e, m, child) = Leads-child l in
    let v = check_acyclic-Visited fuel entities edges s h in
    Closed-acyclic s n v.closed (v.reached n (rw (← child) (known e m))) l

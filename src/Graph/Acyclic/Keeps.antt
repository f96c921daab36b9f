-- ===== src/Graph/Acyclic/Keeps.antt =====
-- A relation between the marks before and after a visit, from one rule for the node that a visit
-- opens and closes.
use snakemake_storage_plugin.Base.{◌≡◌, String, none, List, [], ◌∷◌, ◌++◌, ℕ, zero, suc, inl, inr}
use snakemake_storage_plugin.Base.Result.{Result, ok, >>=-eq-ok}
use snakemake_storage_plugin.Graph.{Edge, RelationError}
use snakemake_storage_plugin.Graph.Acyclic.{
  active, finished, Marks, mark_of, parents, visit_each, visit, Mark-cases,
}

abbrev pub finish : String → Marks → Result RelationError Marks
finish node t = ok ((node, finished) ∷ t)

module _ (R : Marks → Marks → Type 0) (R_refl : (s : Marks) → R s s)
    (R_trans : (s t u : Marks) → R s t → R t u → R s u) where
  pub visit_each-keeps :
      (v : String → Marks → Result RelationError Marks) (ns : List String) (s s' : Marks)
      → ((n : String) (s s' : Marks) → v n s ≡ ok s' → R s s')
      → visit_each v ns s ≡ ok s'
      → R s s'
  unfolding visit_each
  visit_each-keeps v [] s s' each h = let same : s ≡ s' = cc in rw (← same) (R_refl s)
  visit_each-keeps v (n ∷ ns) s s' each h =
      let (t, e1, h1) = >>=-eq-ok (v n s) (visit_each v ns) h in
      R_trans s t s' (each n s t e1) (visit_each-keeps v ns t s' each h1)

  pub visit-keeps :
      ((node : String) (s t : Marks)
        → mark_of s node ≡ none
        → R ((node, active) ∷ s) t
        → R s ((node, finished) ∷ t))
      → (edges : List Edge) (fuel : ℕ) (trail : List String) (node : String) (s s' : Marks)
      → visit edges fuel node trail s ≡ ok s'
      → R s s'
  unfolding visit
  visit-keeps rule edges zero trail node s s' h = cc
  visit-keeps rule edges (suc fuel) trail node s s' h = elim (Mark-cases (mark_of s node)) [
    | inl fresh ↦
        let (t, e, h1) = >>=-eq-ok _ (finish node) (rw (fresh, visit) at h) in
        let all =
          visit_each-keeps (λ n. visit edges fuel n (trail ++ node ∷ [])) (parents edges node)
            ((node, active) ∷ s) t (λ n a b. visit-keeps rule edges fuel (trail ++ node ∷ []) n a b)
            e in
        let same : ((node, finished) ∷ t) ≡ s' = cc in rw (← same) (rule node s t fresh all)
    | inr (inl busy) ↦ cc (rw (busy, visit) at h)
    | inr (inr closed) ↦ let same : s ≡ s' = cc (rw (closed, visit) at h) in rw (← same) (R_refl s)
  ]

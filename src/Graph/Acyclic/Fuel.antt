-- ===== src/Graph/Acyclic/Fuel.antt =====
-- The fuel is enough: each nested visit marks one more entity.
use mathlib.Core.List.Memᴰ
use snakemake_storage_plugin.Base.{
  ◌≡◌, ◌≢◌, refl, String, true, none, List, [], ◌∷◌, ◌++◌, Memᴰ, suc, zero, ℕ, ◌≤◌, ◌<◌, length,
  arith, eq_iff, eq_refl, inl, inr, is_some, if◌then◌else◌,
}
use snakemake_storage_plugin.Base.Result.{Result, ok, err, ◌>>=◌}
use snakemake_storage_plugin.Graph.{Entity, Edge, RelationError, out_of_fuel}
use snakemake_storage_plugin.Graph.Check.{names}
use snakemake_storage_plugin.Graph.Acyclic.{
  active, Marks, mark_of, parents, visit_each, visit, check_acyclic, enough, Mark-cases,
}
use snakemake_storage_plugin.Graph.Acyclic.Keeps.{visit-keeps, finish}

unmarked : Marks → List String → ℕ
unmarked s [] = 0
unmarked s (n ∷ ns) = let rest = unmarked s ns in if is_some (mark_of s n) then rest else suc rest

-- What is marked stays marked.
abbrev Grows : Marks → Marks → Type 0
Grows s t = (a : String) → is_some (mark_of s a) ≡ true → is_some (mark_of t a) ≡ true

visit-Grows :
    (edges : List Edge) (fuel : ℕ) (trail : List String) (node : String) (s s' : Marks)
    → visit edges fuel node trail s ≡ ok s'
    → Grows s s'
unfolding mark_of
visit-Grows =
    visit-keeps Grows (λ s a q. q) (λ s t u f g a q. g a (f a q))
      (λ node s t fresh each b q. ground (arith, each b, eq_iff node b))

unmarked-le : (s t : Marks) (ns : List String) → Grows s t → unmarked t ns ≤ unmarked s ns
unfolding unmarked
unmarked-le s t [] g = omega arith
unmarked-le s t (n ∷ ns) g = ground (arith, g n, unmarked-le s t ns g)

unmarked-le_suc :
    (s : Marks) (n : String) (ns : List String) → unmarked ((n, active) ∷ s) ns ≤ unmarked s ns
unfolding mark_of
unmarked-le_suc s n ns = unmarked-le s ((n, active) ∷ s) ns (λ a q. ground arith)

-- Marking a node that was not marked leaves one fewer.
unmarked-lt :
    (s : Marks) (n : String) (ns : List String)
    → Memᴰ n ns
    → mark_of s n ≡ none
    → unmarked ((n, active) ∷ s) ns < unmarked s ns
unfolding unmarked mark_of
unmarked-lt s n [] m h = elim m [ ]
unmarked-lt s n (k ∷ ns) m h = elim (Memᴰ.cases_cons m) [
  | inl same ↦ rw (← same) (ground (arith, eq_refl n, unmarked-le_suc s n ns))
  | inr later ↦ ground (arith, unmarked-lt s n ns later h, eq_iff n k)
]

module _ (edges : List Edge) (known : List String)
    (inside : (n p : String) → Memᴰ p (parents edges n) → Memᴰ p known) where
  visit_each-fuel :
      (v : String → Marks → Result RelationError Marks) (bound : ℕ) (ns : List String) (s : Marks)
      → ((n : String) (s s' : Marks) → v n s ≡ ok s' → Grows s s')
      → ((n : String) (s : Marks) → Memᴰ n ns → unmarked s known < bound → v n s ≢ err out_of_fuel)
      → unmarked s known < bound
      → visit_each v ns s ≢ err out_of_fuel
  unfolding visit_each
  visit_each-fuel v bound [] s keeps each room h = cc
  visit_each-fuel v bound (n ∷ ns) s keeps each room h =
      go (v n s) (each n s (Memᴰ.head refl) room)
        (λ t e.
          visit_each-fuel v bound ns t keeps (λ k u m. each k u (Memᴰ.tail m))
            (omega (arith, unmarked-le s t known (keeps n s t e))))
        h
    where
      go :
          (r : Result RelationError Marks)
          → r ≢ err out_of_fuel
          → ((t : Marks) → r ≡ ok t → visit_each v ns t ≢ err out_of_fuel)
          → (r >>= visit_each v ns) ≡ err out_of_fuel
          → ⊥
      go (ok t) f g k = g t refl k
      go (err e) f g k = f k

  finish-ne-fuel :
      (node : String) (r : Result RelationError Marks)
      → r ≢ err out_of_fuel
      → (r >>= finish node) ≢ err out_of_fuel
  finish-ne-fuel node (ok t) f h = cc
  finish-ne-fuel node (err x) f h = f h

  visit-fuel :
      (fuel : ℕ) (trail : List String) (node : String) (s : Marks)
      → Memᴰ node known
      → unmarked s known < fuel
      → visit edges fuel node trail s ≢ err out_of_fuel
  unfolding visit
  visit-fuel zero trail node s m room h = absurd (omega arith)
  visit-fuel (suc fuel) trail node s m room h = elim (Mark-cases (mark_of s node)) [
    | inl fresh ↦
        finish-ne-fuel node _
          (visit_each-fuel (λ n. visit edges fuel n (trail ++ node ∷ [])) fuel (parents edges node)
            ((node, active) ∷ s) (λ n a b. visit-Grows edges fuel (trail ++ node ∷ []) n a b)
            (λ n t p r. visit-fuel fuel (trail ++ node ∷ []) n t (inside node n p) r)
            (omega (arith, unmarked-lt s node known m fresh)))
          (rw (fresh, visit) at h)
    | inr (inl busy) ↦ cc (rw (busy, visit) at h)
    | inr (inr closed) ↦ cc (rw (closed, visit) at h)
  ]

unmarked-le_length : (s : Marks) (ns : List String) → unmarked s ns ≤ length ns
unfolding unmarked
unmarked-le_length s [] = omega arith
unmarked-le_length s (n ∷ ns) = ground (arith, unmarked-le_length s ns)

pub check_acyclic-fuel :
    (entities : List Entity) (edges : List Edge)
    → ((n p : String) → Memᴰ p (parents edges n) → Memᴰ p (names entities))
    → check_acyclic (enough entities) entities edges ≢ err out_of_fuel
unfolding check_acyclic
check_acyclic-fuel entities edges inside =
    let known = names entities in
    visit_each-fuel edges known inside (λ n. visit edges (enough entities) n []) (enough entities)
      known [] (λ n a b. visit-Grows edges (enough entities) [] n a b)
      (λ n t m r. visit-fuel edges known inside (enough entities) [] n t m r)
      (omega (arith, unmarked-le_length [] known))

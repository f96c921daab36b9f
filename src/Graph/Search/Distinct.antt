-- ===== src/Graph/Search/Distinct.antt =====
-- The search lists no route twice.
use mathlib.Core.List.Memᴰ
use mathlib.Core.List.{append_assoc}
use snakemake_storage_plugin.Base.{
  ◌≡◌, refl, sym, ap, ◌∙◌, String, List, [], ◌∷◌, ◌++◌, suc, zero, ℕ, Memᴰ, Bool-cases, inl, inr,
  Distinct, append-Distinct,
}
use snakemake_storage_plugin.Graph.{Edge, Hop, Route, hop_target}
use snakemake_storage_plugin.Graph.Search.{
  arrived, collect, both_ways, may_follow, try_hop, walk, paths,
}
use snakemake_storage_plugin.Graph.Search.Exact.{mem-collect, mem-both_ways, walk-Extends}

module _ {ℓ} {A B : Type ℓ} where
  collect-Distinct :
      (f : A → List B) (xs : List A)
      → Distinct xs
      → ((x : A) → Memᴰ x xs → Distinct (f x))
      → ((x y : A) (b : B) → Memᴰ x xs → Memᴰ y xs → Memᴰ b (f x) → Memᴰ b (f y) → x ≡ y)
      → Distinct (collect f xs)
  unfolding collect
  collect-Distinct f [] d each apart = tt
  collect-Distinct f (x ∷ xs) d each apart =
      append-Distinct (f x) (collect f xs) (each x (Memᴰ.head refl))
        (collect-Distinct f xs d.1 (λ y m. each y (Memᴰ.tail m))
          (λ y z b my mz. apart y z b (Memᴰ.tail my) (Memᴰ.tail mz)))
        (λ b m n.
          let (y, my, mb) = mem-collect f xs n in
          d.0 (Memᴰ.cast (apart x y b (Memᴰ.head refl) (Memᴰ.tail my) m mb) my))

both_ways-Distinct : (e : Edge) → Distinct (both_ways e)
both_ways-Distinct e = (λ m. cc (Memᴰ.eq_of_singleton m), (λ m. Memᴰ.not-nil m, tt))

-- The hop after the first ones tells two routes apart.
hop_after : (hops : List Hop) (h k : Hop) (r s : List Hop) → hops ++ h ∷ r ≡ hops ++ k ∷ s → h ≡ k
hop_after [] h k r s e = cc
hop_after (x ∷ xs) h k r s e = hop_after xs h k r s (cc)

module _ (edges : List Edge) (source target : String) (d : Distinct edges) where
  abbrev attempt : ℕ → String → List Hop → List String → Hop → List Route
  attempt left node hops seen = try_hop (walk edges source target left) node hops seen

  -- The routes that one hop finds begin with the hops so far and that hop.
  attempt-begins :
      (left : ℕ) (node : String) (hops : List Hop) (seen : List String) (h : Hop) (p : Route)
      → Memᴰ p (attempt left node hops seen h)
      → (r : List Hop) × (p.hops ≡ hops ++ h ∷ r)
  attempt-begins left node hops seen h p m = elim (Bool-cases (may_follow node seen h)) [
    | inl t ↦
        let e =
          walk-Extends edges source target left (hop_target h) (hops ++ h ∷ [])
            (hop_target h ∷ seen) p (rw t at m) in
        (e.rest, ap (λ (q : Route). q.hops) e.same ∙ append_assoc hops (h ∷ []) e.rest)
    | inr f ↦ absurd (Memᴰ.not-nil (rw f at m))
  ]

  same_hop :
      (left : ℕ) (node : String) (hops : List Hop) (seen : List String) (h k : Hop) (p : Route)
      → Memᴰ p (attempt left node hops seen h)
      → Memᴰ p (attempt left node hops seen k)
      → h ≡ k
  same_hop left node hops seen h k p m n =
      let (r, er) = attempt-begins left node hops seen h p m in
      let (s, es) = attempt-begins left node hops seen k p n in hop_after hops h k r s (sym er ∙ es)

  walk-Distinct :
      (left : ℕ) (node : String) (hops : List Hop) (seen : List String)
      → Distinct (walk edges source target left node hops seen)
  unfolding walk
  walk-Distinct zero node hops seen = elim (Bool-cases (arrived target node hops)) [
    | inl t ↦ rw t ((λ m. Memᴰ.not-nil m), tt)
    | inr f ↦ rw f tt
  ]
  walk-Distinct (suc left) node hops seen = elim (Bool-cases (arrived target node hops)) [
    | inl t ↦ rw t ((λ m. Memᴰ.not-nil m), tt)
    | inr f ↦ rw f (
        collect-Distinct (λ (e : Edge). collect (attempt left node hops seen) (both_ways e)) edges d
          (λ e me.
            collect-Distinct (attempt left node hops seen) (both_ways e) (both_ways-Distinct e)
              (λ h mh. elim (Bool-cases (may_follow node seen h)) [
                | inl t ↦
                    rw t (walk-Distinct left (hop_target h) (hops ++ h ∷ []) (hop_target h ∷ seen))
                | inr stay ↦ rw stay tt
              ])
              (λ h k p mh mk m n. same_hop left node hops seen h k p m n))
          (λ e e' p me me' m n.
            let (h, mh, m1) = mem-collect (attempt left node hops seen) (both_ways e) m in
            let (k, mk, m2) = mem-collect (attempt left node hops seen) (both_ways e') n in
            sym (mem-both_ways e h mh)
            ∙ ap (λ (x : Hop). x.edge) (same_hop left node hops seen h k p m1 m2)
            ∙ mem-both_ways e' k mk))
  ]

  pub paths-Distinct : (max_hops : ℕ) → Distinct (paths edges source target max_hops)
  unfolding paths
  paths-Distinct max_hops = walk-Distinct max_hops source [] (source ∷ [])

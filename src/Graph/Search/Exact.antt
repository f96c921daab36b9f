-- ===== src/Graph/Search/Exact.antt =====
-- The search finds exactly the simple walks within the number of hops.
use mathlib.Core.List.Memᴰ
use mathlib.Core.List.{append_assoc, append-nil}
use snakemake_storage_plugin.Base.{
  is_empty, ◌≡◌, ◌↔◌, ◌≢◌, refl, sym, ap, String, true, false, List, [], ◌∷◌, ◌++◌, ◌==◌, suc, zero,
  ℕ, ◌≤◌, contains, Memᴰ, length, arith, eq_iff, eq_refl, Bool-cases, inl, inr,
}
use snakemake_storage_plugin.Graph.{Edge, Hop, Route, hop_source, hop_target}
use snakemake_storage_plugin.Graph.Search.{
  arrived, collect, both_ways, may_follow, try_hop, walk, paths, IsWalk, IsSimple,
}

module _ {ℓ κ} {A : Type ℓ} {B : Type κ} where
  pub mem-collect :
      (f : A → List B) (xs : List A) {b : B}
      → Memᴰ b (collect f xs)
      → (x : A) × Memᴰ x xs × Memᴰ b (f x)
  unfolding collect
  mem-collect f [] m = elim m [ ]
  mem-collect f (x ∷ xs) m = elim (Memᴰ.append_cases (f x) m) [
    | inl here ↦ (x, Memᴰ.head refl, here)
    | inr there ↦ let (y, my, mb) = mem-collect f xs there in (y, Memᴰ.tail my, mb)
  ]

  collect-mem :
      (f : A → List B) (xs : List A) {x : A} {b : B}
      → Memᴰ x xs
      → Memᴰ b (f x)
      → Memᴰ b (collect f xs)
  unfolding collect
  collect-mem f [] m mb = elim m [ ]
  collect-mem f (y ∷ ys) (Memᴰ.head e) mb =
      Memᴰ.append_left (collect f ys) (let mb' : Memᴰ _ (f y) = rw e at mb in mb')
  collect-mem f (y ∷ ys) (Memᴰ.tail m) mb = Memᴰ.append_right (f y) (collect-mem f ys m mb)

pub mem-both_ways : (e : Edge) (h : Hop) → Memᴰ h (both_ways e) → h.edge ≡ e
mem-both_ways e h (Memᴰ.head q) = rw q
mem-both_ways e h (Memᴰ.tail (Memᴰ.head q)) = rw q
mem-both_ways e h (Memᴰ.tail (Memᴰ.tail m)) = elim m [ ]

both_ways-mem : (h : Hop) → Memᴰ h (both_ways h.edge)
both_ways-mem h = elim (Bool-cases h.forward) [
  | inl t ↦ Memᴰ.head (λ i. record { edge = h.edge; forward = t i })
  | inr f ↦ Memᴰ.tail (Memᴰ.head (λ i. record { edge = h.edge; forward = f i }))
]

-- The end of a simple walk of at least one hop was not seen before.
simple_end :
    (edges : List Edge) (seen : List String) (a : String) (h : Hop) (hs : List Hop) (b : String)
    → IsWalk edges a (h ∷ hs) b
    → IsSimple seen (h ∷ hs)
    → contains b seen ≡ false
unfolding contains
simple_end edges seen a h [] b w s = rw (← w.2) s.0
simple_end edges seen a h (k ∷ ks) b w s =
    ground (arith, simple_end edges (hop_target h ∷ seen) (hop_target h) k ks b w.2 s.1)

contains_head : (x : String) (xs : List String) → contains x (x ∷ xs) ≡ true
unfolding contains
contains_head x xs = rw (eq_refl x)

is_empty-ne : (hops : List Hop) → is_empty hops ≡ false → hops ≢ []
is_empty-ne [] h e = cc
is_empty-ne (x ∷ xs) h e = cc

ne-is_empty : (hops : List Hop) → hops ≢ [] → is_empty hops ≡ false
ne-is_empty [] h = absurd (h refl)
ne-is_empty (x ∷ xs) h = refl

arrived_at :
    (target node : String) (hops : List Hop)
    → node ≡ target
    → hops ≢ []
    → arrived target node hops ≡ true
arrived_at target node hops e some = ground (arith, eq_iff node target, ne-is_empty hops some)

not_arrived :
    (target node : String) (hops : List Hop) (seen : List String)
    → contains node seen ≡ true
    → contains target seen ≡ false
    → arrived target node hops ≡ false
not_arrived target node hops seen inside outside = elim (Bool-cases (node == target)) [
  | inl same ↦
      let e : node ≡ target = (eq_iff node target).0 same in
      let inside' : contains target seen ≡ true = rw (← e) inside in absurd (cc)
  | inr other ↦ rw other
]

module _ (edges : List Edge) (source target : String) where
  -- A route that extends the hops so far to the target.
  pub record Extends (left : ℕ) (node : String) (hops : List Hop) (seen : List String) (p : Route)
      : Type 0 where
    pub rest : List Hop
    pub same : p ≡ record { source = source; hops = hops ++ rest }
    pub walks : IsWalk edges node rest target
    pub simple : IsSimple seen rest
    pub short : length rest ≤ left
    pub some_hop : p.hops ≢ []

  arrived-Extends :
      (left : ℕ) (node : String) (hops : List Hop) (seen : List String) (p : Route)
      → arrived target node hops ≡ true
      → p ≡ record { source = source; hops = hops }
      → Extends left node hops seen p
  arrived-Extends left node hops seen p at_target same = record {
    rest = [];
    same = rw append-nil same;
    walks = ground (arith, eq_iff node target);
    simple = tt;
    short = omega arith;
    some_hop = λ e. is_empty-ne hops (ground arith) (cc (e, same));
  }

  step-Extends :
      (left : ℕ) (node : String) (hops : List Hop) (seen : List String) (p : Route) (h : Hop)
      → Memᴰ h.edge edges
      → may_follow node seen h ≡ true
      → Extends left (hop_target h) (hops ++ h ∷ []) (hop_target h ∷ seen) p
      → Extends (suc left) node hops seen p
  step-Extends left node hops seen p h known follow e = record {
    rest = h ∷ e.rest;
    same = rw (← append_assoc hops (h ∷ []) e.rest) e.same;
    walks = (known, ground (arith, eq_iff (hop_source h) node), e.walks);
    simple = (ground arith, e.simple);
    short = omega (arith, e.short);
    some_hop = e.some_hop;
  }

  pub walk-Extends :
      (left : ℕ) (node : String) (hops : List Hop) (seen : List String) (p : Route)
      → Memᴰ p (walk edges source target left node hops seen)
      → Extends left node hops seen p
  unfolding walk
  walk-Extends zero node hops seen p m = elim (Bool-cases (arrived target node hops)) [
    | inl t ↦ arrived-Extends zero node hops seen p t (Memᴰ.eq_of_singleton (rw t at m))
    | inr f ↦ absurd (Memᴰ.not-nil (rw f at m))
  ]
  walk-Extends (suc left) node hops seen p m = elim (Bool-cases (arrived target node hops)) [
    | inl t ↦ arrived-Extends (suc left) node hops seen p t (Memᴰ.eq_of_singleton (rw t at m))
    | inr f ↦
        let (e, me, m1) =
          mem-collect
            (λ (e : Edge).
              collect (try_hop (walk edges source target left) node hops seen) (both_ways e))
            edges (rw f at m) in
        let attempt = try_hop (walk edges source target left) node hops seen in
        let (h, mh, m2) = mem-collect attempt (both_ways e) m1 in
        elim (Bool-cases (may_follow node seen h)) [
          | inl follow ↦
              step-Extends left node hops seen p h (rw (mem-both_ways e h mh) me) follow (
                walk-Extends left (hop_target h) (hops ++ h ∷ []) (hop_target h ∷ seen) p
                  (rw follow at m2))
          | inr stay ↦ absurd (Memᴰ.not-nil (rw stay at m2))
        ]
  ]

  found :
      (left : ℕ) (node : String) (hops rest : List Hop) (seen : List String)
      → contains node seen ≡ true
      → IsWalk edges node rest target
      → IsSimple seen rest
      → length rest ≤ left
      → (hops ++ rest) ≢ []
      → Memᴰ
          (record { source = source; hops = hops ++ rest })
          (walk edges source target left node hops seen)
  unfolding walk
  found zero node hops [] seen inside w s short some =
      let some' : hops ≢ [] = rw append-nil at some in
      rw (arrived_at target node hops w some', append-nil) (Memᴰ.head refl)
  found zero node hops (h ∷ hs) seen inside w s short some = absurd (omega arith)
  found (suc left) node hops [] seen inside w s short some =
      let some' : hops ≢ [] = rw append-nil at some in
      rw (arrived_at target node hops w some', append-nil) (Memᴰ.head refl)
  found (suc left) node hops (h ∷ hs) seen inside w s short some =
      let away =
        not_arrived target node hops seen inside (simple_end edges seen node h hs target w s) in
      let follow : may_follow node seen h ≡ true = ground (arith, eq_iff (hop_source h) node) in
      let later =
        found left (hop_target h) (hops ++ h ∷ []) hs (hop_target h ∷ seen)
          (contains_head (hop_target h) seen) w.2 s.1 (omega arith) (rw append_assoc some) in
      let attempt = try_hop (walk edges source target left) node hops seen in
      rw away (
        collect-mem (λ (e : Edge). collect attempt (both_ways e)) edges w.0
          (collect-mem attempt (both_ways h.edge) (both_ways-mem h)
            (rw follow (rw (← append_assoc hops (h ∷ []) hs) later))))

-- `_paths` lists exactly the simple walks of at least one hop and at most `max_hops` hops from the
-- source to the target: routes over the edges of the graph, in either direction, that enter no
-- entity twice.
pub paths_exact :
    (edges : List Edge) (source target : String) (max_hops : ℕ) (p : Route)
    → Memᴰ p (paths edges source target max_hops) ↔ (
        (p.source ≡ source)
        × IsWalk edges source p.hops target
        × IsSimple (source ∷ []) p.hops
        × (length p.hops ≤ max_hops)
        × (p.hops ≢ []))
unfolding paths
paths_exact edges source target max_hops p = (
  λ m.
      let e = walk-Extends edges source target max_hops source [] (source ∷ []) p m in
      let same : p.hops ≡ e.rest = ap (λ (q : Route). q.hops) e.same in
      (
        ap (λ (q : Route). q.source) e.same,
        rw same e.walks,
        rw same e.simple,
        rw same e.short,
        e.some_hop,
      ),
  λ (from, walks, simple, short, some).
      let m =
        found edges source target max_hops source [] p.hops (source ∷ []) (contains_head source [])
          walks simple short some in
      let same : record { source = source; hops = p.hops } ≡ p =
        λ i. record { source = sym from i; hops = p.hops } in
      rw (← same) m,
)

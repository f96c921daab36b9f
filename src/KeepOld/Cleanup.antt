-- ===== src/KeepOld/Cleanup.antt =====
-- What `cleanup_kept_old` drops.
use snakemake_storage_plugin.Base.{
  ◌≡◌, refl, sym, ap, ◌∙◌, Bool, ◌||◌, String, Option, none, List, [], ◌∷◌, if◌then◌else◌, keep,
  map, inl, inr, arith,
}
use snakemake_storage_plugin.Base.Result.{ok}
use snakemake_storage_plugin.Sql.{
  Ref, same_ref, ref_in, Kind, table, view, matview, Relation, drop, drop_group,
}
use snakemake_storage_plugin.Sql.Server.{Server, IsServer}
use snakemake_storage_plugin.Sql.Exec.{
  execute, bind-ok, pure-ok, if-cases, gets, for_each, execute-relation,
}
use snakemake_storage_plugin.KeepOld.{Codec}
use snakemake_storage_plugin.KeepOld.Rollback.{
  KeptRelation, aside_ref, is_kind, select, list_kept, drop_some, drop_kind, cleanup_block,
}

-- Without those relations.
abbrev pub less : List Ref → Option Relation → Ref → Option Relation
less rs o x = if ref_in x rs then none else o

-- Each kept relation is of one of the kinds.
by_kinds :
    (x : Ref) (kept : List KeptRelation)
    → (ref_in x (map aside_ref (keep (is_kind table) kept))
        || (ref_in x (map aside_ref (keep (is_kind matview) kept))
            || ref_in x (map aside_ref (keep (is_kind view) kept))))
      ≡ ref_in x (map aside_ref kept)
unfolding ref_in keep
by_kinds x [] = refl
by_kinds x (k ∷ kept) = of_kind (by_kinds x kept) k.kind refl
  where
    first : Bool
    first = same_ref (aside_ref k) x

    of_kind :
        (ref_in x (map aside_ref (keep (is_kind table) kept))
            || (ref_in x (map aside_ref (keep (is_kind matview) kept))
                || ref_in x (map aside_ref (keep (is_kind view) kept))))
          ≡ ref_in x (map aside_ref kept)
        → (kind : Kind) → k.kind ≡ kind
        → (ref_in x (map aside_ref (keep (is_kind table) (k ∷ kept)))
            || (ref_in x (map aside_ref (keep (is_kind matview) (k ∷ kept)))
                || ref_in x (map aside_ref (keep (is_kind view) (k ∷ kept)))))
          ≡ (first || ref_in x (map aside_ref kept))
    of_kind ih table e = rw e (ground arith)
    of_kind ih view e = rw e (ground arith)
    of_kind ih matview e = rw e (ground arith)

module _ (S : Server) (laws : IsServer S) (C : Codec) where
  drop_each-relation :
      (kind : Kind) (ks : List KeptRelation) (s t : S.State) (x : Ref)
      → for_each (λ k. execute S (drop kind (aside_ref k))) ks s ≡ (ok tt, t)
      → S.relation t x ≡ less (map aside_ref ks) (S.relation s x) x
  unfolding for_each ref_in
  drop_each-relation kind [] s t x h = ap (λ z. S.relation z.1 x) (sym h)
  drop_each-relation kind (k ∷ ks) s t x h =
      let (_, u, h1, k1) = bind-ok _ _ s t tt h in
      drop_each-relation kind ks u t x k1
      ∙ ap (λ o. less (map aside_ref ks) o x) (execute-relation S laws _ s u h1 x)
      ∙ split (same_ref (aside_ref k) x) (ref_in x (map aside_ref ks)) (S.relation s x)
    where
      split :
          (a b : Bool) (o : Option Relation)
          → (if b then none else if a then none else o) ≡ (if a || b then none else o)
      split a b o = ground arith

  drop_kind-relation :
      (kind : Kind) (group : List KeptRelation) (s t : S.State) (x : Ref)
      → drop_some S C kind group s ≡ (ok tt, t)
      → S.relation t x ≡ less (map aside_ref group) (S.relation s x) x
  unfolding ref_in
  drop_kind-relation kind [] s t x h = ap (λ z. S.relation z.1 x) (sym h)
  drop_kind-relation kind (k ∷ group) s t x h = elim (if-cases S.is_postgresql _ _ s (ok tt, t) h) [
    | inl (_, h1) ↦ execute-relation S laws (drop_group kind (map aside_ref (k ∷ group))) s t h1 x
    | inr (_, h1) ↦ drop_each-relation kind (k ∷ group) s t x h1
  ]

-- If the block of `cleanup_kept_old` under the lock returns, the relations that it selected among
-- the kept ones are gone, and every other relation is what it was: on PostgreSQL, where each kind
-- is dropped by one statement, and on DuckDB, where each relation is.
pub cleanup_block_exact :
    (S : Server)
    → IsServer S
    → (C : Codec) (found : S.State → List (String × String × Kind)) (names : Option (List String))
      (schemas : List String) (s t : S.State) (dropped : List KeptRelation)
    → cleanup_block S C found names schemas s ≡ (ok dropped, t)
    → (x : Ref)
    → S.relation t x
      ≡ less (map aside_ref (select names (list_kept S C found schemas s))) (S.relation s x) x
unfolding cleanup_block drop_kind for_each
cleanup_block_exact S laws C found names schemas s t dropped h x =
    let (kept, s1, h1, k1) =
      bind-ok (gets (λ s. select names (list_kept S C found schemas s))) _ s t dropped h in
    let (_, s2, h2, k2) = bind-ok _ _ s1 t dropped k1 in
    let (_, u1, j1, i1) = bind-ok _ _ s1 s2 tt h2 in
    let (_, u2, j2, i2) = bind-ok _ _ u1 s2 tt i1 in
    let (_, u3, j3, i3) = bind-ok _ _ u2 s2 tt i2 in
    ap (λ z. S.relation z.1 x) (sym k2)
    ∙ ap (λ z. S.relation z.1 x) (sym i3)
    ∙ drop_kind-relation S laws C table (keep (is_kind table) kept) u2 u3 x j3
    ∙ ap (λ o. less (map aside_ref (keep (is_kind table) kept)) o x)
        (drop_kind-relation S laws C matview (keep (is_kind matview) kept) u1 u2 x j2
          ∙ ap (λ o. less (map aside_ref (keep (is_kind matview) kept)) o x)
              (drop_kind-relation S laws C view (keep (is_kind view) kept) s1 u1 x j1))
    ∙ nested (ref_in x (map aside_ref (keep (is_kind table) kept)))
        (ref_in x (map aside_ref (keep (is_kind matview) kept)))
        (ref_in x (map aside_ref (keep (is_kind view) kept))) (S.relation s1 x)
    ∙ ap (λ b. if b then none else S.relation s1 x) (by_kinds x kept)
    ∙ ap (λ z. less (map aside_ref kept) (S.relation z x) x) (sym (pure-ok h1).1)
    ∙ ap (λ ks. less (map aside_ref ks) (S.relation s x) x) (sym (pure-ok h1).0)
  where
    nested :
        (a b c : Bool) (o : Option Relation)
        → (if a then none else if b then none else if c then none else o)
          ≡ (if a || (b || c) then none else o)
    nested a b c o = ground arith

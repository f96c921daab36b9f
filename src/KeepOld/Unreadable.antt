-- ===== src/KeepOld/Unreadable.antt =====
-- The grants of a relation that is set aside.
use mathlib.Core.List.Memᴰ
use snakemake_storage_plugin.Base.{
  ◌≡◌, refl, sym, ap, ◌∙◌, Bool, true, false, not, ◌&&◌, String, Option, none, some, List, [], ◌∷◌,
  if◌then◌else◌, keep, mem-keep, contains, contains→mem, Bool-cases, inl, inr, arith, Memᴰ, any,
  map, mem-map, any-mem,
}
use snakemake_storage_plugin.Base.Result.{ok}
use snakemake_storage_plugin.Sql.{
  Ref, same_ref, same_ref_iff, Kind, Relation, set_comment, revoke_all, Grantee, everyone, role,
  same_grantee, same_grantee_iff,
}
use snakemake_storage_plugin.Sql.Effect.{change}
use snakemake_storage_plugin.Sql.Server.{Server, IsServer}
use snakemake_storage_plugin.Sql.Exec.{
  execute, bind-ok, pure-ok, if-cases, gets, for_each, execute-relation,
}
use snakemake_storage_plugin.KeepOld.{
  Codec, Grants, old_name, grantees, grants_of, is_table, kind_of, set_aside, park_kind, park_found,
  park, grant_target, grantee_name, grant_row,
}
use snakemake_storage_plugin.Sql.Keeps.{kept, Keeps-raise_if, Keeps-gets}
use snakemake_storage_plugin.KeepOld.Moves.{rename-moves}

-- Who has which privilege on the whole of a relation, besides its owner.
abbrev pub grants_in : Option Relation → List (Grantee × String)
grants_in none = []
grants_in (some r) = r.grants

-- What is left when all privileges of these grantees are revoked.
without_grantees : List String → List (Grantee × String) → List (Grantee × String)
without_grantees [] gs = gs
without_grantees (w ∷ ws) gs =
    without_grantees ws (keep (λ g. not (same_grantee g.0 (grant_target w))) gs)

-- Nothing is left to a grantee that is listed.
mem-without_grantees :
    (ws : List String) (gs : List (Grantee × String)) (g : Grantee × String)
    → Memᴰ g (without_grantees ws gs)
    → Memᴰ g gs × ((w : String) → Memᴰ w ws → ¬ (g.0 ≡ grant_target w))
unfolding without_grantees
mem-without_grantees [] gs g m = (m, λ w n. elim n [ ])
mem-without_grantees (w ∷ ws) gs g m =
    let left = keep (λ g. not (same_grantee g.0 (grant_target w))) gs in
    let (n, away) = mem-without_grantees ws left g m in
    let (there, other) = mem-keep (λ g. not (same_grantee g.0 (grant_target w))) gs n in
    (
      there,
      λ v k. elim (Memᴰ.cases_cons k) [
        | inl e ↦ λ same. differs g.0 (grant_target w) other (rw⁻¹ e same)
        | inr l ↦ away v l
      ],
    )
  where
    differs : (a b : Grantee) → not (same_grantee a b) ≡ true → ¬ (a ≡ b)
    differs a b h e = ground (arith, same_grantee_iff a b)

grantees-mem : (gs : Grants) (g : String × String) → Memᴰ g gs → Memᴰ g.0 (grantees gs)
unfolding grantees
grantees-mem [] g m = elim m [ ]
grantees-mem ((w, p) ∷ gs) g m = elim (Bool-cases (contains w (grantees gs))) [
  | inl e ↦ rw e (elim (Memᴰ.cases_cons m) [
    | inl q ↦ rw (ap (λ x. x.0) q) (contains→mem w (grantees gs) e)
    | inr n ↦ grantees-mem gs g n
  ])
  | inr e ↦ rw e (elim (Memᴰ.cases_cons m) [
    | inl q ↦ Memᴰ.head (ap (λ x. x.0) q)
    | inr n ↦ Memᴰ.tail (grantees-mem gs g n)
  ])
]

empty_of : (gs : List (Grantee × String)) → ((g : Grantee × String) → ¬ Memᴰ g gs) → gs ≡ []
empty_of [] no_one = refl
empty_of (g ∷ gs) no_one = absurd (no_one g (Memᴰ.head refl))

-- The grantee that a row of `_grants` names, unless it is a role named PUBLIC.
grant_target-grantee_name :
    (w : Grantee) → same_grantee w (role "PUBLIC") ≡ false → w ≡ grant_target (grantee_name w)
grant_target-grantee_name everyone h = refl
grant_target-grantee_name (role name) h = rw h refl

-- Revoking from everyone who has a grant leaves none.
no_grants_left :
    (gs : List (Grantee × String))
    → any (λ g. same_grantee g.0 (role "PUBLIC")) gs ≡ false
    → without_grantees (grantees (map grant_row gs)) gs ≡ []
no_grants_left gs free = empty_of _ λ g m.
    let (there, away) = mem-without_grantees (grantees (map grant_row gs)) gs g m in
    away (grantee_name g.0)
      (grantees-mem (map grant_row gs) (grant_row g) (mem-map grant_row g gs there))
      (grant_target-grantee_name g.0
        (any-mem (λ g. same_grantee g.0 (role "PUBLIC")) gs free there))

module _ (S : Server) (laws : IsServer S) where
  revoked :
      (x : Ref) (ws : List String) (s t : S.State)
      → for_each (λ who. execute S (revoke_all x (grant_target who))) ws s ≡ (ok tt, t)
      → grants_in (S.relation t x) ≡ without_grantees ws (grants_in (S.relation s x))
  unfolding for_each without_grantees keep
  revoked x [] s t h = ap (λ z. grants_in (S.relation z.1 x)) (sym h)
  revoked x (w ∷ ws) s t h =
      let (_, u, h1, k1) = bind-ok _ _ s t tt h in
      let self : same_ref x x ≡ true = (same_ref_iff x x).1 refl in
      revoked x ws u t k1
      ∙ ap (without_grantees ws) (
          ap grants_in
            (rw self at (execute-relation S laws (revoke_all x (grant_target w)) s u h1 x))
          ∙ changed (grant_target w) (S.relation s x))
    where
      changed :
          (w : Grantee) (o : Option Relation)
          → grants_in (
              change
                (λ rel. record rel { grants = keep (λ g. not (same_grantee g.0 w)) rel.grants })
                o)
            ≡ keep (λ g. not (same_grantee g.0 w)) (grants_in o)
      changed w none = refl
      changed w (some r) = refl

  comment-grants :
      (x : Ref) (k : Kind) (c : Option String) (s t : S.State)
      → execute S (set_comment k x c) s ≡ (ok tt, t)
      → grants_in (S.relation t x) ≡ grants_in (S.relation s x)
  comment-grants x k c s t h =
      let self : same_ref x x ≡ true = (same_ref_iff x x).1 refl in
      ap grants_in (rw self at (execute-relation S laws (set_comment k x c) s t h x))
      ∙ same (S.relation s x)
    where
      same :
          (o : Option Relation)
          → grants_in (change (λ rel. record rel { comment = c }) o) ≡ grants_in o
      same none = refl
      same (some r) = refl

  set_aside-grants :
      (C : Codec) (r : Ref) (k : Kind) (s t : S.State) (b : Bool)
      → S.is_postgresql ≡ true
      → any (λ g. same_grantee g.0 (role "PUBLIC")) (grants_in (S.relation s r)) ≡ false
      → set_aside S C r k s ≡ (ok b, t)
      → grants_in (S.relation t (record r { name = old_name r.name })) ≡ []
  unfolding set_aside
  set_aside-grants C r k s t b pg free h =
      let x = record r { name = old_name r.name } in
      let (g, s1, h1, k1) = bind-ok (gets (grants_of S C r)) _ s t b h in
      let (_, s2, h2, k2) = bind-ok _ _ s1 t b k1 in
      let (_, s3, h3, k3) = bind-ok _ _ s2 t b k2 in
      let (_, s4, h4, k4) = bind-ok _ _ s3 t b k3 in
      let read : g ≡ map grant_row (grants_in (S.relation s r)) =
        sym (pure-ok h1).0 ∙ by_dialect pg (S.relation s r) in
      let there : grants_in (S.relation s2 x) ≡ grants_in (S.relation s r) =
        ap grants_in (rename-moves S laws C r.schema k r.name (old_name r.name) s1 s2 h2)
        ∙ ap (λ z. grants_in (S.relation z r)) (sym (pure-ok h1).1) in
      ap (λ z. grants_in (S.relation z.1 x)) (sym k4)
      ∙ comment-grants x k _ s3 s4 h4
      ∙ revoked x (grantees g) s2 s3 h3
      ∙ ap (without_grantees (grantees g)) there
      ∙ ap (λ z. without_grantees (grantees z) (grants_in (S.relation s r))) read
      ∙ no_grants_left (grants_in (S.relation s r)) free
    where
      by_dialect :
          S.is_postgresql ≡ true
          → (o : Option Relation)
          → (elim o [
            | none ↦ []
            | some rel ↦ if S.is_postgresql then map grant_row rel.grants else []
          ])
            ≡ map grant_row (grants_in o)
      by_dialect pg none = refl
      by_dialect pg (some rel) = rw pg refl

park_kind-grants :
    (S : Server)
    → IsServer S
    → (C : Codec) (r : Ref) (kind : Kind) (s t : S.State) (b : Bool) → S.is_postgresql ≡ true
    → any (λ g. same_grantee g.0 (role "PUBLIC")) (grants_in (S.relation s r)) ≡ false
    → park_kind S C r kind s ≡ (ok b, t)
    → grants_in (S.relation t (record r { name = old_name r.name })) ≡ []
unfolding park_kind
park_kind-grants S laws C r kind s t b pg free h =
    let (_, s1, h1, k1) = bind-ok _ _ s t b h in
    let (o, s2, h2, k2) =
      bind-ok (gets (kind_of S C (record r { name = old_name r.name }))) _ s1 t b k1 in
    let (_, s3, h3, k3) = bind-ok _ _ s2 t b k2 in
    let look = λ (z : S.State). S.relation z r in
    let read1 : S.relation s1 r ≡ S.relation s r = kept (Keeps-raise_if look _ _) s h1 in
    let read2 : S.relation s2 r ≡ S.relation s1 r =
      kept (Keeps-gets look (kind_of S C (record r { name = old_name r.name }))) s1 h2 in
    let read3 : S.relation s3 r ≡ S.relation s2 r = kept (Keeps-raise_if look _ _) s2 h3 in
    elim (if-cases (not (is_table kind) && not S.is_postgresql) _ _ s3 (ok b, t) k3) [
      | inl (e, _) ↦ absurd (only_duckdb (is_table kind) (rw pg at e))
      | inr (_, h4) ↦
          set_aside-grants S laws C r kind s3 t b pg (rw (read3 ∙ read2 ∙ read1) free) h4
    ]
  where
    only_duckdb : (c : Bool) → ¬ ((not c && false) ≡ true)
    only_duckdb true e = cc
    only_duckdb false e = cc

-- On PostgreSQL, if `park` returns True, whether it was given a kind or looked for it, neither
-- everyone nor any role but the owner has a privilege on the whole of the relation that was set aside,
-- whoever had one on the live relation. The condition is that no role named PUBLIC had one. Privileges
-- on single columns are not part of it, and the privileges are those that the owner granted.
pub park_unreadable :
    (S : Server)
    → IsServer S
    → (C : Codec) (r : Ref) (kind : Option Kind) (s t : S.State) → S.is_postgresql ≡ true
    → any (λ g. same_grantee g.0 (role "PUBLIC")) (grants_in (S.relation s r)) ≡ false
    → park S C r kind s ≡ (ok true, t)
    → grants_in (S.relation t (record r { name = old_name r.name })) ≡ []
unfolding park
park_unreadable S laws C r (some kind) s t pg free h =
    park_kind-grants S laws C r kind s t true pg free h
park_unreadable S laws C r none s t pg free h =
    let (found, s1, h1, k1) = bind-ok (gets (kind_of S C r)) _ s t true h in
    let read : S.relation s1 r ≡ S.relation s r =
      kept (Keeps-gets (λ (z : S.State). S.relation z r) (kind_of S C r)) s h1 in
    by_kind found s1 (rw read free) k1
  where
    by_kind :
        (found : Option Kind) (s1 : S.State)
        → any (λ g. same_grantee g.0 (role "PUBLIC")) (grants_in (S.relation s1 r)) ≡ false
        → park_found S C r found s1 ≡ (ok true, t)
        → grants_in (S.relation t (record r { name = old_name r.name })) ≡ []
    by_kind none s1 free k = absurd (cc (ap (λ x. x.0) k))
    by_kind (some kind) s1 free k = park_kind-grants S laws C r kind s1 t true pg free k

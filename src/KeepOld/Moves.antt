-- ===== src/KeepOld/Moves.antt =====
-- What `park` and a rollback do to the relation that they move: its body stays, its grants go.
use text.Mathlib.TextLemmas.{append_cancel_right}
use text.Mathlib.TextPositions.{len-append}
use Prim.Native.String.{len}
use snakemake_storage_plugin.Base.{
  ◌≡◌, ◌≢◌, refl, sym, ap, ◌∙◌, Bool, true, false, String, Option, none, some, ◌==◌, ◌<>◌,
  if◌then◌else◌, ==_ne, eq_iff, arith,
}
use snakemake_storage_plugin.Base.Result.{ok}
use snakemake_storage_plugin.Sql.{
  Ref, Kind, Body, Relation, same_schema, same_schema_iff, same_ref, rename, set_comment,
  revoke_all, grant, Grantee,
}
use snakemake_storage_plugin.Sql.Effect.{change}
use snakemake_storage_plugin.Sql.Server.{Server, IsServer}
use snakemake_storage_plugin.Sql.Exec.{execute, bind-ok, pure-ok, execute-relation, gets}
use snakemake_storage_plugin.Sql.Keeps.{Keeps, kept, Keeps-execute, Keeps-relation, Keeps-for_each}
use snakemake_storage_plugin.KeepOld.{Codec, old_name, grantees, grants_of, set_aside, grant_target}
use snakemake_storage_plugin.KeepOld.Rollback.{tmp_prefix}

-- The relation of a schema by its name.
abbrev pub at : Option String → String → Ref
at schema name = record { schema = schema; name = name }

pub same_at : (sc : Option String) (a b : String) → same_ref (at sc a) (at sc b) ≡ (a == b)
same_at sc a b =
    let self : same_schema sc sc ≡ true = (same_schema_iff sc sc).1 refl in rw self refl

pub differ : (a b : String) → a ≢ b → (a == b) ≡ false
differ a b d = ground (arith, eq_iff a b)

pub self_eq : (a : String) → (a == a) ≡ true
self_eq a = ground (arith, eq_iff a a)

pub old_name-ne : (n : String) → old_name n ≢ n
old_name-ne n e = absurd (omega (arith, ap len e, len-append "__old__" n))

pub tmp-ne : (n : String) → (tmp_prefix <> n) ≢ n
tmp-ne n e = absurd (omega (arith, ap len e, len-append "__tmp__" n))

pub tmp-ne-old_name : (n : String) → (tmp_prefix <> n) ≢ old_name n
tmp-ne-old_name n e = ==_ne "__tmp__" "__old__" refl (append_cancel_right "__tmp__" "__old__" n e)

abbrev pub body_in : Option Relation → Option Body
body_in none = none
body_in (some r) = some r.body

-- A change of the comment or of the grants.
body-change :
    (f : Relation → Relation) (o : Option Relation) (b : Bool)
    → ((r : Relation) → (f r).body ≡ r.body)
    → body_in (if b then change f o else o) ≡ body_in o
body-change f none true same = refl
body-change f (some r) true same = ap some (same r)
body-change f o false same = refl

module _ (S : Server) (laws : IsServer S) where
  abbrev pub body : Ref → S.State → Option Body
  body x s = body_in (S.relation s x)

  pub set_comment-body :
      (x r : Ref) (k : Kind) (c : Option String) → Keeps (body x) (execute S (set_comment k r c))
  set_comment-body x r k c = Keeps-execute S (body x) _ λ s t h.
      ap body_in (laws.relation-run (set_comment k r c) s t h x)
      ∙ body-change _ (S.relation s x) (same_ref r x) (λ rel. refl)

  pub revoke_all-body : (x r : Ref) (who : Grantee) → Keeps (body x) (execute S (revoke_all r who))
  revoke_all-body x r who = Keeps-execute S (body x) _ λ s t h.
      ap body_in (laws.relation-run (revoke_all r who) s t h x)
      ∙ body-change _ (S.relation s x) (same_ref r x) (λ rel. refl)

  pub grant-body :
      (x r : Ref) (p : String) (who : Grantee) → Keeps (body x) (execute S (grant p r who))
  grant-body x r p who = Keeps-execute S (body x) _ λ s t h.
      ap body_in (laws.relation-run (grant p r who) s t h x)
      ∙ body-change _ (S.relation s x) (same_ref r x) (λ rel. refl)

  module _ (C : Codec) (sc : Option String) where
    -- A rename moves the relation.
    pub rename-moves :
        (k : Kind) (a b : String) (s t : S.State)
        → execute S (rename k (at sc a) b) s ≡ (ok tt, t)
        → S.relation t (at sc b) ≡ S.relation s (at sc a)
    rename-moves k a b s t h =
        rw (same_at sc b b, self_eq b) at (execute-relation S laws _ s t h (at sc b))

    -- It leaves every other name alone.
    pub rename-Keeps :
        (k : Kind) (a b c : String)
        → a ≢ c
        → b ≢ c
        → Keeps (λ s. S.relation s (at sc c)) (execute S (rename k (at sc a) b))
    rename-Keeps k a b c d e =
        Keeps-relation S laws (at sc c) _
          λ m. rw (same_at sc b c, differ b c e, same_at sc a c, differ a c d) refl

    pub rename-leaves :
        (k : Kind) (a b : String) (s t : S.State)
        → a ≢ b
        → execute S (rename k (at sc a) b) s ≡ (ok tt, t)
        → S.relation t (at sc a) ≡ none
    rename-leaves k a b s t d h =
        rw (same_at sc b a, differ b a (λ e. d (sym e)), same_at sc a a, self_eq a) at
          (execute-relation S laws _ s t h (at sc a))

    -- The relation that is set aside keeps its body under the kept name.
    pub set_aside-body :
        (n : String) (k : Kind) (s t : S.State) (b : Bool)
        → set_aside S C (at sc n) k s ≡ (ok b, t)
        → body (at sc (old_name n)) t ≡ body (at sc n) s
    unfolding set_aside
    set_aside-body n k s t b h =
        let x = at sc (old_name n) in
        let (g, s1, h1, k1) = bind-ok (gets (grants_of S C (at sc n))) _ s t b h in
        let (_, s2, h2, k2) = bind-ok _ _ s1 t b k1 in
        let (_, s3, h3, k3) = bind-ok _ _ s2 t b k2 in
        let (_, s4, h4, k4) = bind-ok _ _ s3 t b k3 in
        ap (λ z. body x z.1) (sym k4)
        ∙ kept (set_comment-body x x k _) s3 h4
        ∙ kept
            (Keeps-for_each (body x) _ (grantees g)
              (λ who m. revoke_all-body x x (grant_target who)))
            s2 h3
        ∙ ap body_in (rename-moves k n (old_name n) s1 s2 h2)
        ∙ ap (λ z. body (at sc n) z) (sym (pure-ok h1).1)

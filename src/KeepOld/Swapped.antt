-- ===== src/KeepOld/Swapped.antt =====
-- One turn of a rollback: the kept relation and the live one change places.
use snakemake_storage_plugin.Base.{
  ◌≡◌, ◌≢◌, refl, sym, ap, ◌∙◌, Bool, not, ◌&&◌, String, Option, none, some, if◌then◌else◌, inl,
  inr, ◌<>◌,
}
use snakemake_storage_plugin.Base.Result.{ok}
use snakemake_storage_plugin.Sql.{Ref, Kind, view, Body, Relation, drop, rename, set_comment}
use snakemake_storage_plugin.Sql.Server.{Server, IsServer}
use snakemake_storage_plugin.Sql.Exec.{execute, bind-ok, pure-ok, raise_if-ok, if-cases, gets, when}
use snakemake_storage_plugin.Sql.Keeps.{
  Keeps, kept, Keeps-relation, Keeps-bind, Keeps-for_each, Keeps-pure, Keeps-when, Keeps-raise_if,
}
use snakemake_storage_plugin.KeepOld.{
  Codec, old_name, seen_kind, is_table, park_kind, park, kind_of,
}
use snakemake_storage_plugin.KeepOld.Park.{park_kind-Keeps}
use snakemake_storage_plugin.KeepOld.Rollback.{
  KeptRelation, live_ref, aside_ref, tmp_prefix, comment_of, recorded_grants, restore_grants,
  park_current, swap_back,
}
use snakemake_storage_plugin.KeepOld.Moves.{
  at, body_in, body, differ, same_at, old_name-ne, tmp-ne, tmp-ne-old_name, set_comment-body,
  grant-body, rename-moves, rename-Keeps, rename-leaves, set_aside-body,
}

abbrev kind_in : Bool → Option Relation → Option Kind
kind_in postgresql none = none
kind_in postgresql (some r) = some (seen_kind postgresql r.kind)

abbrev is_dropped : Bool → Relation → Bool
is_dropped postgresql r = not (is_table (seen_kind postgresql r.kind)) && not postgresql

-- What is kept of a live relation that is set aside: its body, but nothing of a DuckDB view.
abbrev pub kept_body : Bool → Option Relation → Option Body
kept_body postgresql none = none
kept_body postgresql (some r) = if is_dropped postgresql r then none else some r.body

module _ (S : Server) (laws : IsServer S) (C : Codec) (sc : Option String) (n : String) where
  -- The live relation goes to the kept name, where nothing was.
  park_kind-body :
      (rel : Relation) (s t : S.State) (b : Bool)
      → S.relation s (at sc n) ≡ some rel
      → S.relation s (at sc (old_name n)) ≡ none
      → park_kind S C (at sc n) (seen_kind S.is_postgresql rel.kind) s ≡ (ok b, t)
      → body S laws (at sc (old_name n)) t ≡ kept_body S.is_postgresql (some rel)
  unfolding park_kind
  park_kind-body rel s t b there free h =
      let aside = at sc (old_name n) in
      let kind = seen_kind S.is_postgresql rel.kind in
      let (_, s1, h1, k1) = bind-ok _ _ s t b h in
      let (o, s2, h2, k2) = bind-ok (gets (kind_of S C aside)) _ s1 t b k1 in
      let (_, s3, h3, k3) = bind-ok _ _ s2 t b k2 in
      let same : s3 ≡ s =
        (raise_if-ok _ _ s2 s3 h3).1 ∙ sym (pure-ok h2).1 ∙ (raise_if-ok _ _ s s1 h1).1 in
      elim (if-cases (not (is_table kind) && not S.is_postgresql) _ _ s3 (ok b, t) k3) [
        | inl (e, h4) ↦
            let (_, s5, h5, k5) = bind-ok _ _ s3 t b h4 in
            let quiet = Keeps-relation S laws aside (drop view (at sc n)) λ c.
              rw (same_at sc n (old_name n), differ n (old_name n) (λ q. old_name-ne n (sym q)))
                refl in
            ap (λ z. body S laws aside z.1) (sym k5)
            ∙ ap body_in (kept quiet s3 h5)
            ∙ ap (body S laws aside) same
            ∙ rw (free, e) refl
        | inr (e, h4) ↦
            set_aside-body S laws C sc n kind s3 t b h4
            ∙ ap (body S laws (at sc n)) same
            ∙ rw (there, e) refl
      ]

  -- Another name of the schema is left alone.
  park_current-Keeps :
      (c : String) (o : Option Kind)
      → n ≢ c
      → old_name n ≢ c
      → Keeps (λ s. S.relation s (at sc c)) (park_current S C (at sc n) o)
  unfolding park
  park_current-Keeps c none d e = Keeps-pure _ tt
  park_current-Keeps c (some kind) d e =
      let far = differ (old_name n) c e in
      Keeps-bind _ _ _
        (park_kind-Keeps S C (λ s. S.relation s (at sc c)) (at sc n)
          (λ k. rename-Keeps S laws C sc k n (old_name n) c d e)
          (λ who. Keeps-relation S laws (at sc c) _ (λ m. rw (same_at sc (old_name n) c, far) refl))
          (λ k w. Keeps-relation S laws (at sc c) _ (λ m. rw (same_at sc (old_name n) c, far) refl))
          (Keeps-relation S laws (at sc c) _ (λ m. rw (same_at sc n c, differ n c d) refl)) kind)
        λ b. Keeps-pure _ tt

  park_current-body :
      (s t : S.State) (o : Option Relation)
      → S.relation s (at sc n) ≡ o
      → S.relation s (at sc (old_name n)) ≡ none
      → park_current S C (at sc n) (kind_in S.is_postgresql o) s ≡ (ok tt, t)
      → body S laws (at sc (old_name n)) t ≡ kept_body S.is_postgresql o
  unfolding park
  park_current-body s t none there free h =
      ap (λ z. body S laws (at sc (old_name n)) z.1) (sym h) ∙ ap body_in free
  park_current-body s t (some rel) there free h =
      let (b, u, h1, k1) = bind-ok _ _ s t tt h in
      ap (λ z. body S laws (at sc (old_name n)) z.1) (sym k1)
      ∙ park_kind-body rel s u b there free h1

  restore_grants-body :
      (x r : Ref) (c : Option String) → Keeps (body S laws x) (restore_grants S C r c)
  unfolding restore_grants
  restore_grants-body x r c =
      Keeps-bind _ _ _ (Keeps-raise_if _ _ _)
        λ _. Keeps-for_each _ _ (recorded_grants S C c) λ g m. grant-body S laws x r _ _

  kind_of-in :
      (o : Option Relation)
      → kind_in S.is_postgresql o
        ≡ elim o [ none ↦ none | some rel ↦ some (seen_kind S.is_postgresql rel.kind) ]
  kind_of-in none = refl
  kind_of-in (some rel) = refl

  -- A turn on the kept relation of `n`: where each of the two bodies ends up.
  pub swap_turn :
      (kind : Kind) (c : Option String) (s s1 s2 s3 s4 t : S.State)
      → execute S (rename kind (at sc (old_name n)) (tmp_prefix <> n)) s ≡ (ok tt, s1)
      → park_current S C (at sc n) (kind_of S C (at sc n) s1) s1 ≡ (ok tt, s2)
      → execute S (rename kind (at sc (tmp_prefix <> n)) n) s2 ≡ (ok tt, s3)
      → execute S (set_comment kind (at sc n) none) s3 ≡ (ok tt, s4)
      → when S.is_postgresql (restore_grants S C (at sc n) c) s4 ≡ (ok tt, t)
      → (body S laws (at sc n) t ≡ body S laws (at sc (old_name n)) s)
        × (body S laws (at sc (old_name n)) t ≡ kept_body S.is_postgresql (S.relation s (at sc n)))
  unfolding kind_of
  swap_turn kind c s s1 s2 s3 s4 t h1 h2 h3 h4 h5 =
      let old = old_name n in
      let temp = tmp_prefix <> n in
      let rest : (x : Ref) → body S laws x t ≡ body S laws x s3 = λ x.
        kept (Keeps-when _ S.is_postgresql _ (restore_grants-body x (at sc n) c)) s4 h5
        ∙ kept (set_comment-body S laws x (at sc n) kind none) s3 h4 in
      let live_kept : S.relation s1 (at sc n) ≡ S.relation s (at sc n) =
        kept (rename-Keeps S laws C sc kind old temp n (old_name-ne n) (tmp-ne n)) s h1 in
      let cleared : S.relation s1 (at sc old) ≡ none =
        rename-leaves S laws C sc kind old temp s s1 (λ e. tmp-ne-old_name n (sym e)) h1 in
      (
        rest (at sc n)
            ∙ ap body_in (rename-moves S laws C sc kind temp n s2 s3 h3)
            ∙ ap body_in (
                kept
                  (park_current-Keeps temp _ (λ e. tmp-ne n (sym e))
                    (λ e. tmp-ne-old_name n (sym e)))
                  s1 h2)
            ∙ ap body_in (rename-moves S laws C sc kind old temp s s1 h1),
        rest (at sc old)
            ∙ ap body_in (
                kept
                  (rename-Keeps S laws C sc kind temp n old (tmp-ne-old_name n)
                    (λ e. old_name-ne n (sym e)))
                  s2 h3)
            ∙ park_current-body s1 s2 (S.relation s1 (at sc n)) refl cleared (
                ap (λ k. park_current S C (at sc n) k s1) (kind_of-in (S.relation s1 (at sc n)))
                ∙ h2)
            ∙ ap (kept_body S.is_postgresql) live_kept,
      )

-- If a turn of the rollback returns, the body that was kept aside is the live one, and the body
-- that was live is the one kept aside, if it was not a DuckDB view, which is dropped.
pub swap_back_swaps :
    (S : Server)
    → IsServer S
    → (C : Codec) (k : KeptRelation) (s t : S.State) → swap_back S C k s ≡ (ok tt, t)
    → (body_in (S.relation t (live_ref k)) ≡ body_in (S.relation s (aside_ref k)))
      × (body_in (S.relation t (aside_ref k))
          ≡ kept_body S.is_postgresql (S.relation s (live_ref k)))
unfolding swap_back
swap_back_swaps S laws C k s t h =
    let (c, s0, h0, k0) = bind-ok (gets (comment_of S C (aside_ref k))) _ s t tt h in
    let (_, s1, h1, k1) = bind-ok _ _ s0 t tt k0 in
    let (o, s1', h2, k2) = bind-ok (gets (kind_of S C (live_ref k))) _ s1 t tt k1 in
    let (_, s2, h3, k3) = bind-ok _ _ s1' t tt k2 in
    let (_, s3, h4, k4) = bind-ok _ _ s2 t tt k3 in
    let (_, s4, h5, k5) = bind-ok _ _ s3 t tt k4 in
    let res =
      swap_turn S laws C (live_ref k).schema k.name k.kind c s0 s1 s2 s3 s4 t h1
        (ap (λ o. park_current S C (live_ref k) o s1) (pure-ok h2).0
          ∙ ap (park_current S C (live_ref k) o) (pure-ok h2).1
          ∙ h3)
        h4 h5 k5 in
    (
      res.0 ∙ ap (λ z. body_in (S.relation z (aside_ref k))) (sym (pure-ok h0).1),
      res.1 ∙ ap (λ z. kept_body S.is_postgresql (S.relation z (live_ref k))) (sym (pure-ok h0).1),
    )

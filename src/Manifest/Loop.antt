-- ===== src/Manifest/Loop.antt =====
-- What the loop of `_check_joins` over the joins does to its state.
use mathlib.Core.List.{append-nil, append_assoc}
use mathlib.Core.List.Memᴰ
use snakemake_storage_plugin.Base.{
  ap, ◌≡◌, refl, ◌∙◌, String, true, false, List, [], ◌∷◌, ◌==◌, Memᴰ, Distinct, contains, eq_refl,
  sym, map, ◌++◌, if◌then◌else◌, inl, inr,
}
use snakemake_storage_plugin.Base.Result.{ok, >>=-eq-ok}
use snakemake_storage_plugin.Manifest.{
  Component, Join, Joined, component, covers_key, check_join, check_each, to_edge, left_of,
}
use snakemake_storage_plugin.Manifest.Steps.{
  IsGrainSafe, edge_of, declared, Stepped, check_join-Stepped, component-name, kept_true,
  add_join-joined, add_join-to_one, add_join-other, add_join-reaches, add_join-edges, both_false,
  other_name,
}

module _ (components : List Component) (base : String) where
  -- What the loop does to the state: what was reached stays, no component that was joined becomes
  -- reached later.
  pub each-to_one :
      (js : List Join) (st st' : Joined)
      → check_each components base js st ≡ ok st'
      → (x : String) → contains x st.to_one ≡ true
      → contains x st'.to_one ≡ true
  unfolding check_each
  each-to_one [] st st' h x k = let same : st ≡ st' = cc h in rw⁻¹ same k
  each-to_one (j ∷ js) st st' h x k =
      let (u, e, h1) = >>=-eq-ok (check_join components base j st) _ h in
      let step = check_join-Stepped components base j st u e in
      each-to_one js u st' h1 x
        (rw step.added (add_join-to_one (left_of base j.left) j step.target st x k))

  step-joined :
      (j : Join) (st u : Joined)
      → Stepped components base j st u
      → (x : String) → contains x st.joined ≡ true
      → contains x u.joined ≡ true
  unfolding contains
  step-joined j st u step x k =
      rw (step.added, add_join-joined (left_of base j.left) j step.target st)
        (kept_true (step.target.name == x) _ k)

  each-other :
      (js : List Join) (st st' : Joined)
      → check_each components base js st ≡ ok st'
      → (x : String) → contains x st.joined ≡ true
      → contains x st'.to_one ≡ true
      → contains x st.to_one ≡ true
  unfolding check_each
  each-other [] st st' h x k reached = let same : st ≡ st' = cc h in rw same reached
  each-other (j ∷ js) st st' h x k reached =
      let (u, e, h1) = >>=-eq-ok (check_join components base j st) _ h in
      let step = check_join-Stepped components base j st u e in
      let before = each-other js u st' h1 x (step-joined j st u step x k) reached in
      add_join-other (left_of base j.left) j step.target st x
        (other_name x step.target.name st.joined k step.new) (rw step.added at before)

  pub each-closed :
      (js : List Join) (st st' : Joined)
      → check_each components base js st ≡ ok st'
      → (j : Join) → Memᴰ j js
      → (target : Component) → component components j.component ≡ ok target
      → covers_key j target ≡ true
      → contains (left_of base j.left) st'.to_one ≡ true
      → contains target.name st'.to_one ≡ true
  unfolding check_each
  each-closed [] st st' h j m target found covers reached = elim m [ ]
  each-closed (x ∷ js) st st' h j m target found covers reached =
      let (u, e, h1) = >>=-eq-ok (check_join components base x st) _ h in
      elim (Memᴰ.cases_cons m) [
        | inr k ↦ each-closed js u st' h1 j k target found covers reached
        | inl q ↦ first u e h1 (rw q at found) (rw q at covers) (rw q at reached)
      ]
    where
      first :
          (u : Joined)
          → check_join components base x st ≡ ok u
          → check_each components base js u ≡ ok st'
          → component components x.component ≡ ok target
          → covers_key x target ≡ true
          → contains (left_of base x.left) st'.to_one ≡ true
          → contains target.name st'.to_one ≡ true
      first u e h1 found covers reached =
          let step = check_join-Stepped components base x st u e in
          let left = left_of base x.left in
          let same : step.target ≡ target = cc (step.found, found) in
          let later =
            each-other js u st' h1 left (step-joined x st u step left step.left) reached in
          let before =
            add_join-other left x step.target st left
              (other_name left step.target.name st.joined step.left step.new)
              (rw step.added at later) in
          each-to_one js u st' h1 target.name
            (rw (step.added, same) (add_join-reaches left x target st covers before))

  -- Every component that is joined is a new one.
  pub each-Distinct :
      (js : List Join) (st st' : Joined)
      → check_each components base js st ≡ ok st'
      → Distinct (map (λ (j : Join). j.component) js)
        × ((x : String)
            → Memᴰ x (map (λ (j : Join). j.component) js)
            → contains x st.joined ≡ false)
  unfolding check_each contains
  each-Distinct [] st st' h = (tt, λ x m. elim m [ ])
  each-Distinct (j ∷ js) st st' h =
      let (u, e, h1) = >>=-eq-ok (check_join components base j st) _ h in
      let step = check_join-Stepped components base j st u e in
      let named : step.target.name ≡ j.component =
        component-name components j.component step.target step.found in
      let (different, new) = each-Distinct js u st' h1 in
      let joined : u.joined ≡ j.component ∷ st.joined =
        rw (step.added, add_join-joined (left_of base j.left) j step.target st, named) refl in
      let apart = λ (x : String) (m : Memᴰ x (map (λ (j : Join). j.component) js)).
        both_false (j.component == x) (contains x st.joined) (rw joined at (new x m)) in
      (
        ((λ m. cc ((apart j.component m).0, eq_refl j.component)), different),
        λ x m. elim (Memᴰ.cases_cons m) [
          | inl q ↦ rw (q, sym named) step.new
          | inr k ↦ (apart x k).1
        ],
      )

  pub each-safe :
      (js : List Join) (st st' : Joined)
      → check_each components base js st ≡ ok st'
      → (j : Join) → Memᴰ j js
      → IsGrainSafe components j
  unfolding check_each
  each-safe [] st st' h j m = elim m [ ]
  each-safe (x ∷ js) st st' h j m =
      let (u, e, h1) = >>=-eq-ok (check_join components base x st) _ h in
      let step = check_join-Stepped components base x st u e in
      elim (Memᴰ.cases_cons m) [
        | inl q ↦ rw q (step.target, step.found, step.safe)
        | inr k ↦ each-safe js u st' h1 j k
      ]

  pub each-edges :
      (js : List Join) (st st' : Joined)
      → check_each components base js st ≡ ok st'
      → st'.edges ≡ st.edges ++ declared components base js
  unfolding check_each declared
  each-edges [] st st' h = let same : st ≡ st' = cc h in rw⁻¹ same (sym (append-nil st.edges))
  each-edges (j ∷ js) st st' h =
      let (u, e, h1) = >>=-eq-ok (check_join components base j st) _ h in
      let step = check_join-Stepped components base j st u e in
      let left = left_of base j.left in
      let own = if covers_key j step.target then to_edge left j step.target ∷ [] else [] in
      let added : u.edges ≡ st.edges ++ own =
        rw (step.added) (add_join-edges left j step.target st) in
      let own_edges : own ++ declared components base js ≡ declared components base (j ∷ js) =
        ap (λ w. edge_of base j w ++ declared components base js) (sym step.found) in
      each-edges js u st' h1
      ∙ (ap (λ w. w ++ declared components base js) added
          ∙ (append_assoc st.edges own (declared components base js)
              ∙ ap (λ w. st.edges ++ w) (own_edges)))

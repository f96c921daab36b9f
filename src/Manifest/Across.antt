-- ===== src/Manifest/Across.antt =====
-- What `check_manifests` makes sure of across the datasets of a file.
use mathlib.Core.List.Memᴰ
use snakemake_storage_plugin.Base.{
  ◌≡◌, refl, sym, ap, ◌∙◌, Bool, true, false, not, ◌&&◌, String, Option, none, some, List, [], ◌∷◌,
  ◌++◌, ◌==◌, Memᴰ, Distinct, contains, mem→contains, has_duplicate-Distinct, Bool-cases, inl, inr,
  eq_iff, eq_refl, arith, ◌↔◌,
}
use snakemake_storage_plugin.Base.Result.{ok, raise_if, >>=-eq-ok}
use snakemake_storage_plugin.Base.Dict.{lookup, insert, lookup-insert}
use snakemake_storage_plugin.Sql.Effect.{same_option_iff}
use snakemake_storage_plugin.Manifest.{ManifestError, Component, Manifest}
use snakemake_storage_plugin.Manifest.Checks.{
  Placed, place_key, placed, names_of, physical_names, same_columns, same_declared, same_component,
  schema_clashes, definition_clashes, set_default, check_placed, check_manifests,
}

same_columns_iff : (a b : List String) → (same_columns a b ≡ true) ↔ (a ≡ b)
same_columns_iff [] [] = ground arith
same_columns_iff [] (y ∷ ys) = ground arith
same_columns_iff (x ∷ xs) [] = ground arith
same_columns_iff (x ∷ xs) (y ∷ ys) = ground (arith, eq_iff x y, same_columns_iff xs ys)

same_declared_iff : (a b : Option (List String)) → (same_declared a b ≡ true) ↔ (a ≡ b)
same_declared_iff none none = ground arith
same_declared_iff none (some y) = ground arith
same_declared_iff (some x) none = ground arith
same_declared_iff (some x) (some y) = ground (arith, same_columns_iff x y)

pub same_component-eq : (a b : Component) → same_component a b ≡ true → a ≡ b
same_component-eq a b h =
    let (h1, r1) = both_true _ _ h in
    let (h2, r2) = both_true _ _ r1 in
    let (h3, r3) = both_true _ _ r2 in
    let (h4, r4) = both_true _ _ r3 in
    let (h5, r5) = both_true _ _ r4 in
    let (h6, r6) = both_true _ _ r5 in
    let (h7, h8) = both_true _ _ r6 in
    cc (
      (eq_iff a.name b.name).0 h1,
      (eq_iff a.kind b.kind).0 h2,
      (same_columns_iff a.primary_key b.primary_key).0 h3,
      (same_option_iff a.source b.source).0 h4,
      (same_option_iff a.source_table b.source_table).0 h5,
      (same_option_iff a.priority b.priority).0 h6,
      (same_declared_iff a.columns b.columns).0 h7,
      (same_option_iff a.schema b.schema).0 h8,
    )
  where
    both_true : (p q : Bool) → (p && q) ≡ true → (p ≡ true) × (q ≡ true)
    both_true p q e = ground arith

-- The dictionaries know the component and where it is placed.
abbrev Known : List (String × String) → List (String × Component) → Placed → Type 0
Known schemas seen p = (lookup p.1.name schemas ≡ some p.0) × (lookup (place_key p) seen ≡ some p.1)

raise_if-passed : (b : Bool) (e : ManifestError) (u : Unit) → raise_if b e ≡ ok u → b ≡ false
raise_if-passed false e u h = refl
raise_if-passed true e u h = cc

set_default-keeps :
    (o : Option String) (k v j w : String) (d : List (String × String))
    → lookup k d ≡ o
    → lookup j d ≡ some w
    → lookup j (set_default o k v d) ≡ some w
set_default-keeps (some old) k v j w d e l = l
set_default-keeps none k v j w d e l = elim (Bool-cases (k == j)) [
  | inl t ↦
      let same : k ≡ j = (eq_iff k j).0 t in let gone : none ≡ some w = sym e ∙ rw same l in cc
  | inr f ↦ rw (lookup-insert k j v d, f) l
]

set_default-sets :
    (o : Option String) (k v : String) (d : List (String × String))
    → lookup k d ≡ o
    → schema_clashes o v ≡ false
    → lookup k (set_default o k v d) ≡ some v
set_default-sets (some old) k v d e fits = e ∙ ap some (same old v fits)
  where
    same : (a b : String) → not (a == b) ≡ false → a ≡ b
    same a b h = ground (arith, eq_iff a b)
set_default-sets none k v d e fits = rw (lookup-insert k k v d, eq_refl k) refl

insert-keeps :
    (o : Option Component) (k j : String) (c w : Component) (d : List (String × Component))
    → lookup k d ≡ o
    → definition_clashes o c ≡ false
    → lookup j d ≡ some w
    → lookup j (insert k c d) ≡ some w
insert-keeps o k j c w d e fits l = elim (Bool-cases (k == j)) [
  | inr f ↦ rw (lookup-insert k j c d, f) l
  | inl t ↦
      let same : k ≡ j = (eq_iff k j).0 t in
      rw (lookup-insert k j c d, t) (by_old o (sym e ∙ rw same l) fits)
]
  where
    by_old : (o : Option Component) → o ≡ some w → definition_clashes o c ≡ false → some c ≡ some w
    by_old none q fits = absurd (cc q)
    by_old (some x) q fits =
        let old : x ≡ w = cc q in
        let new : x ≡ c = same_component-eq x c (not-false _ fits) in ap some (sym new ∙ old)
      where
        not-false : (b : Bool) → not b ≡ false → b ≡ true
        not-false true z = refl
        not-false false z = cc

abbrev Checked :
    List String
    → List Placed
    → List (String × String)
    → List (String × Component)
    → List (String × String)
    → List (String × Component)
    → Type 0
Checked taken ps schemas seen schemas' seen' =
    ((q : Placed) → Known schemas seen q → Known schemas' seen' q)
    × ((p : Placed) → Memᴰ p ps → Known schemas' seen' p × (contains p.1.name taken ≡ false))

check_placed-Known :
    (taken : List String) (ps : List Placed) (schemas schemas' : List (String × String))
    (seen seen' : List (String × Component))
    → check_placed taken ps schemas seen ≡ ok (schemas', seen')
    → Checked taken ps schemas seen schemas' seen'
unfolding check_placed
check_placed-Known taken [] schemas schemas' seen seen' h =
    let a : schemas ≡ schemas' = cc h in
    let b : seen ≡ seen' = cc h in ((λ q k. rw (← a, ← b) k), (λ p m. elim m [ ]))
check_placed-Known taken (p ∷ ps) schemas schemas' seen seen' h =
    let (_, h1, k1) = >>=-eq-ok _ _ h in
    let (_, h2, k2) = >>=-eq-ok _ _ k1 in
    let (_, h3, k3) = >>=-eq-ok _ _ k2 in
    let fits_schema = raise_if-passed _ _ _ h1 in
    let fits_definition = raise_if-passed _ _ _ h2 in
    let free = raise_if-passed _ _ _ h3 in
    let (older, newer) = check_placed-Known taken ps _ schemas' _ seen' k3 in
    (
      λ q k. older q (
        set_default-keeps _ p.1.name p.0 q.1.name q.0 schemas refl k.0,
        insert-keeps _ (place_key p) (place_key q) p.1 q.1 seen refl fits_definition k.1,
      ),
      λ q m. elim (Memᴰ.cases_cons m) [
        | inl e ↦ rw e (
          older p (
            set_default-sets _ p.1.name p.0 schemas refl fits_schema,
            rw (lookup-insert (place_key p) (place_key p) p.1 seen, eq_refl (place_key p)) refl,
          ),
          free,
        )
        | inr n ↦ newer q n
      ],
    )

-- If `check_manifests` accepts the manifests of a file, then for any two components of its datasets
-- with one name: the names of the datasets are pairwise different, the two components have one
-- definition and one schema, and their name is not that of a dataset or of a table of a v1 dataset.
pub check_manifests_sound :
    (ms : List Manifest)
    → check_manifests ms ≡ ok tt
    → (a b : Placed) → Memᴰ a (placed ms)
    → Memᴰ b (placed ms)
    → a.1.name ≡ b.1.name
    → Distinct (names_of ms) × (a ≡ b) × (¬ Memᴰ a.1.name (physical_names ms ++ names_of ms))
unfolding check_manifests
check_manifests_sound ms h a b m n e =
    let (_, h1, k1) = >>=-eq-ok _ _ h in
    let (d, h2, k2) = >>=-eq-ok _ _ k1 in
    let (_, known) =
      check_placed-Known (physical_names ms ++ names_of ms) (placed ms) [] d.0 [] d.1 h2 in
    (
      has_duplicate-Distinct (names_of ms) (raise_if-passed _ _ _ h1),
      agree d.0 d.1 a b (known a m).0 (known b n).0 e,
      λ taken. cc (mem→contains a.1.name _ taken, (known a m).1),
    )
  where
    agree :
        (schemas : List (String × String)) (seen : List (String × Component)) (a b : Placed)
        → Known schemas seen a
        → Known schemas seen b
        → a.1.name ≡ b.1.name
        → a ≡ b
    agree schemas seen a b ka kb e =
        let schema : some a.0 ≡ some b.0 = sym ka.0 ∙ ap (λ n. lookup n schemas) e ∙ kb.0 in
        let place : a.0 ≡ b.0 = cc schema in
        let key : place_key a ≡ place_key b = rw (place, e) refl in
        let both : some a.1 ≡ some b.1 = sym ka.1 ∙ ap (λ k. lookup k seen) key ∙ kb.1 in
        let definition : a.1 ≡ b.1 = cc both in cc (place, definition)

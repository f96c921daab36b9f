-- ===== src/Publish/Tables/Staged.antt =====
-- The staged receipts that remain when those that are live already are demoted.
use snakemake_storage_plugin.Base.{
  ◌≡◌, refl, Bool, true, false, String, List, [], ◌∷◌, Memᴰ, Distinct, inl, inr, keep, map,
  Bool-cases, if◌then◌else◌,
}
use snakemake_storage_plugin.Meta.{staging_name}
use snakemake_storage_plugin.Publish.Tables.{Receipt, demote}
use snakemake_storage_plugin.Publish.Tables.Installs.{away, names_touched}

cons_sub :
    {A : Type 0} {x y : A} {xs ys : List A}
    → (Memᴰ y xs → Memᴰ y ys)
    → Memᴰ y (x ∷ xs)
    → Memᴰ y (x ∷ ys)
cons_sub f (Memᴰ.head e) = Memᴰ.head e
cons_sub f (Memᴰ.tail m) = Memᴰ.tail (f m)

module _ (p : Receipt → Bool) where
  abbrev pub demote_if : Receipt → Receipt
  demote_if r = if p r then demote r else r

  -- What is published is a part of the receipts.
  staged_sub :
      (b : Bool) (ts y : String) (rs : List Receipt)
      → Memᴰ y (names_touched b ts (keep (λ r. r.staged) (map demote_if rs)))
      → Memᴰ y (names_touched b ts rs)
  unfolding keep
  staged_sub b ts y [] m = m
  staged_sub b ts y (r ∷ rs) m = elim (Bool-cases (p r)) [
    | inl e ↦ Memᴰ.tail (Memᴰ.tail (Memᴰ.tail (staged_sub b ts y rs (rw e at m))))
    | inr e ↦ elim (Bool-cases r.staged) [
      | inr f ↦ Memᴰ.tail (Memᴰ.tail (Memᴰ.tail (staged_sub b ts y rs (rw (e, f) at m))))
      | inl f ↦ cons_sub (cons_sub (cons_sub (staged_sub b ts y rs))) (rw (e, f) at m)
    ]
  ]

  pub staged_mem :
      (r : Receipt) (rs : List Receipt)
      → Memᴰ r rs
      → r.staged ≡ true
      → p r ≡ false
      → Memᴰ r (keep (λ r. r.staged) (map demote_if rs))
  unfolding keep
  staged_mem r [] m st un = elim m [ ]
  staged_mem r (x ∷ rs) (Memᴰ.head e) st un = rw (← e) (rw (un, st) (Memᴰ.head refl))
  staged_mem r (x ∷ rs) (Memᴰ.tail m) st un = elim (Bool-cases (demote_if x).staged) [
    | inl e ↦ rw e (Memᴰ.tail (staged_mem r rs m st un))
    | inr e ↦ rw e (staged_mem r rs m st un)
  ]

  pub staged_Distinct :
      (b : Bool) (ts : String) (rs : List Receipt)
      → Distinct (names_touched b ts rs)
      → Distinct (names_touched b ts (keep (λ r. r.staged) (map demote_if rs)))
  unfolding keep
  staged_Distinct b ts [] d = tt
  staged_Distinct b ts (r ∷ rs) d =
      let rest = staged_Distinct b ts rs d.1.1.1 in
      elim (Bool-cases (p r)) [
        | inl e ↦ rw e rest
        | inr e ↦ elim (Bool-cases r.staged) [
          | inr f ↦ rw (e, f) rest
          | inl f ↦
              rw (e, f)
                (
                  (λ m. d.0 (cons_sub (cons_sub (staged_sub b ts r.table rs)) m)),
                  (
                    (λ m. d.1.0 (cons_sub (staged_sub b ts (staging_name r.table) rs) m)),
                    ((λ m. d.1.1.0 (staged_sub b ts (away b ts r.table) rs m)), rest),
                  ),
                )
        ]
      ]

-- ===== src/Publish/Merge.antt =====
-- `merge_component_receipts`: one receipt per component from the receipts of several datasets.
use mathlib.Core.List.Memᴰ
use snakemake_storage_plugin.Base.{
  ◌≡◌, refl, sym, ◌∙◌, true, not, ◌&&◌, String, Option, none, some, List, [], ◌∷◌, ◌==◌, Memᴰ, inl,
  inr, if◌then◌else◌, Bool-cases, eq_refl, eq_iff,
}
use snakemake_storage_plugin.Base.Result.{Result, ok, err, ◌>>=◌, >>=-eq-ok}
use snakemake_storage_plugin.Base.Dict.{lookup, insert, lookup-insert}
use snakemake_storage_plugin.Sql.Exec.{SinkError, publish_conflict}
use snakemake_storage_plugin.Publish.Receipts.{ComponentReceipt}

abbrev pub Merged : Type 0
Merged = List (String × ComponentReceipt)

-- The body of the loop, with what `merged.get(name)` gave.
unfoldable pub merge_with :
    ComponentReceipt → Option ComponentReceipt → Merged → Result SinkError Merged
merge_with r none merged = ok (insert r.component r merged)
merge_with r (some kept) merged =
    if not kept.staged && r.staged
    then ok (insert r.component r merged)
    else if kept.staged && (r.staged && not (kept.update_id == r.update_id))
    then err (publish_conflict r.component)
    else ok merged

unfoldable pub merge_into : List ComponentReceipt → Merged → Result SinkError Merged
unfolding merge_with lookup
merge_into [] merged = ok merged
merge_into (r ∷ rs) merged = merge_with r (lookup r.component merged) merged >>= merge_into rs

unfoldable pub merge_component_receipts : List ComponentReceipt → Result SinkError Merged
unfolding merge_into
merge_component_receipts rs = merge_into rs []

-- The dictionary has a staged receipt of the component with this version.
abbrev pub HasStaged : String → String → Merged → Type 0
HasStaged name update_id merged =
    (k : ComponentReceipt) × (lookup name merged ≡ some k)
    × (k.staged ≡ true)
    × (k.update_id ≡ update_id)

-- A staged receipt is not replaced.
kept_same :
    (r kept : ComponentReceipt) (d d' : Merged)
    → kept.staged ≡ true
    → merge_with r (some kept) d ≡ ok d'
    → d ≡ d'
unfolding merge_with
kept_same r kept d d' s h = elim (Bool-cases r.staged) [
  | inr t ↦ cc (rw (s, t) at h)
  | inl t ↦ elim (Bool-cases (kept.update_id == r.update_id)) [
    | inl u ↦ cc (rw (s, t, u) at h)
    | inr u ↦ absurd (cc (rw (s, t, u) at h))
  ]
]

-- Another component's entry stays.
entry_stays :
    (r : ComponentReceipt) (o : Option ComponentReceipt) (d d' : Merged) (name : String)
    (k : ComponentReceipt)
    → lookup r.component d ≡ o
    → ¬ (o ≡ some k)
    → insert r.component r d ≡ d'
    → lookup name d ≡ some k
    → lookup name d' ≡ some k
entry_stays r o d d' name k e other i l = elim (Bool-cases (r.component == name)) [
  | inl t ↦
      let same : r.component ≡ name = (eq_iff r.component name).0 t in
      absurd (other (sym e ∙ rw same l))
  | inr f ↦ rw (← i, lookup-insert r.component name r d, f) l
]

entry_new :
    (r : ComponentReceipt) (d d' : Merged)
    → insert r.component r d ≡ d'
    → r.staged ≡ true
    → HasStaged r.component r.update_id d'
entry_new r d d' i st =
    (r, rw (← i, lookup-insert r.component r.component r d, eq_refl r.component) refl, st, refl)

step_keeps :
    (r : ComponentReceipt) (o : Option ComponentReceipt) (d d' : Merged) (name : String)
    (k : ComponentReceipt)
    → lookup r.component d ≡ o
    → merge_with r o d ≡ ok d'
    → lookup name d ≡ some k
    → k.staged ≡ true
    → lookup name d' ≡ some k
unfolding merge_with
step_keeps r none d d' name k e h l st = entry_stays r none d d' name k e (λ q. cc) (cc h) l
step_keeps r (some kept) d d' name k e h l st = elim (Bool-cases kept.staged) [
  | inl s ↦ let same : d ≡ d' = kept_same r kept d d' s h in rw (← same) l
  | inr s ↦ elim (Bool-cases r.staged) [
    | inl t ↦
        let other : ¬ (some kept ≡ some k) = λ q. let p : kept ≡ k = cc q in cc (s, st, p) in
        entry_stays r (some kept) d d' name k e other (cc (rw (s, t) at h)) l
    | inr t ↦ let same : d ≡ d' = cc (rw (s, t) at h) in rw (← same) l
  ]
]

step_adds :
    (r : ComponentReceipt) (o : Option ComponentReceipt) (d d' : Merged)
    → lookup r.component d ≡ o
    → merge_with r o d ≡ ok d'
    → r.staged ≡ true
    → HasStaged r.component r.update_id d'
unfolding merge_with
step_adds r none d d' e h st = entry_new r d d' (cc h) st
step_adds r (some kept) d d' e h st = elim (Bool-cases kept.staged) [
  | inl s ↦ elim (Bool-cases (kept.update_id == r.update_id)) [
    | inl u ↦
        let same : d ≡ d' = kept_same r kept d d' s h in
        (kept, rw (← same) e, s, (eq_iff kept.update_id r.update_id).0 u)
    | inr u ↦ absurd (cc (rw (s, st, u) at h))
  ]
  | inr s ↦ entry_new r d d' (cc (rw (s, st) at h)) st
]

merge_keeps :
    (rs : List ComponentReceipt) (d d' : Merged) (name : String) (k : ComponentReceipt)
    → merge_into rs d ≡ ok d'
    → lookup name d ≡ some k
    → k.staged ≡ true
    → lookup name d' ≡ some k
unfolding merge_into
merge_keeps [] d d' name k h l st = let same : d ≡ d' = cc h in rw (← same) l
merge_keeps (r ∷ rs) d d' name k h l st =
    let (m, h1, h2) = >>=-eq-ok _ (merge_into rs) h in
    merge_keeps rs m d' name k h2 (step_keeps r _ d m name k refl h1 l st) st

merge_stages :
    (rs : List ComponentReceipt) (d d' : Merged) (r : ComponentReceipt)
    → merge_into rs d ≡ ok d'
    → Memᴰ r rs
    → r.staged ≡ true
    → HasStaged r.component r.update_id d'
unfolding merge_into
merge_stages [] d d' r h m st = elim m [ ]
merge_stages (x ∷ rs) d d' r h m st =
    let (w, h1, h2) = >>=-eq-ok _ (merge_into rs) h in
    elim (Memᴰ.cases_cons m) [
      | inl e ↦
          let (k, l, ks, ku) = step_adds x _ d w refl h1 (rw (← e) st) in
          rw e (k, merge_keeps rs w d' x.component k h2 l ks, ks, ku)
      | inr n ↦ merge_stages rs w d' r h2 n st
    ]

-- If `merge_component_receipts` returns, a staged receipt wins: for each staged receipt of the
-- input, the merged receipt of its component is staged and has the same version. So any two staged
-- receipts of one component that it accepts agree on the version.
pub merge_component_receipts_staged :
    (rs : List ComponentReceipt) (merged : Merged)
    → merge_component_receipts rs ≡ ok merged
    → (r : ComponentReceipt) → Memᴰ r rs
    → r.staged ≡ true
    → HasStaged r.component r.update_id merged
unfolding merge_component_receipts
merge_component_receipts_staged rs merged h r m st = merge_stages rs [] merged r h m st

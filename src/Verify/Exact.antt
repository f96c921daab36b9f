-- ===== src/Verify/Exact.antt =====
-- Every row of each relation counts once.
use snakemake_storage_plugin.Base.{◌≡◌, String, Bool, true, Option, none, some, List, contains}
use snakemake_storage_plugin.Verify.{
  HashedRow, Aggregate, EquivalenceResult, ◌⊕◌, aggregate, key_in,
}

-- The row's key is one of the keys, unless it is NULL.
abbrev pub is_listed : List String → Option String → Bool
is_listed keys none = true
is_listed keys (some k) = contains k keys

-- The totals after the batches, from those before.
abbrev Summed : List HashedRow → List String → Aggregate → Aggregate → Type 0
Summed rows keys before after = after ≡ before ⊕ aggregate (key_in keys) rows

-- Both totals are those of one query over all rows.
abbrev pub IsWhole : List HashedRow → List HashedRow → EquivalenceResult → Type 0
IsWhole original view r =
    (r.original ⊕ r.null_key_original ≡ aggregate (λ x. true) original)
    × (r.view ⊕ r.null_key_view ≡ aggregate (λ x. true) view)

-- ===== src/Verify/Tests.antt =====
-- Two relations with the keys `a` and `b`, one row of each without a key.
use snakemake_storage_plugin.Base.{
  pos, negsuc, ◌≡◌, ◌≤◌, length, refl, String, ℕ, true, none, some, List, [], ◌∷◌, contains, Memᴰ,
}
use snakemake_storage_plugin.Base.Result.{ok}
use snakemake_storage_plugin.Verify.{
  slices, no_rows, HashedRow, EquivalenceResult, aggregate, batches, take, drop, compare_each,
  compare_batched, equivalent,
}
use snakemake_storage_plugin.Verify.Bounds.{batches_bounded}
use snakemake_storage_plugin.Verify.Totals.{concat}

abbrev row_of : String → ℕ → HashedRow
row_of k h = record { key = some k; hash = h }

abbrev no_key : HashedRow
no_key = record { key = none; hash = 5 }

abbrev expanded : List HashedRow
expanded = row_of "a" 3 ∷ no_key ∷ row_of "b" 4 ∷ []

abbrev compared : List HashedRow
compared = row_of "b" 4 ∷ row_of "a" 3 ∷ no_key ∷ []

abbrev two_keys : List String
two_keys = "a" ∷ "b" ∷ []

abbrev result : EquivalenceResult
result = record {
  original = record { rows = 2; hashes = 7 };
  view = record { rows = 2; hashes = 7 };
  mismatched_batches = [];
  null_key_original = record { rows = 1; hashes = 5 };
  null_key_view = record { rows = 1; hashes = 5 };
}

ran : compare_batched expanded compared (λ b. 100) (some 512) two_keys (pos 1) ≡ ok result
unfolding compare_batched compare_each batches take drop aggregate contains
ran = refl

verdict : equivalent result ≡ true
verdict = refl

-- A negative batch size compares nothing, and the verdict is that the relations are equivalent.
abbrev other_table : List HashedRow
other_table = row_of "c" 9 ∷ []

nothing_compared :
    compare_batched expanded (no_key ∷ other_table) (λ b. 100) none two_keys (negsuc 0)
    ≡ ok (record result { original = no_rows; view = no_rows })
unfolding compare_batched compare_each aggregate contains
nothing_compared = refl

batches_bounded_example :
    (concat (slices (pos 1) two_keys) ≡ two_keys)
    × ((b : List String) → Memᴰ b (slices (pos 1) two_keys) → (1 ≤ length b) × (length b ≤ 1))
    × (slices (negsuc 0) two_keys ≡ [])
batches_bounded_example = batches_bounded 0 two_keys

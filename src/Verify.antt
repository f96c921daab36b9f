-- ===== src/Verify.antt =====
-- workflow/scripts/sqlsink/verify.py: the comparison of two relations in batches of keys. DuckDB's
-- scan of a relation is the list of its rows.
pub mod Totals
pub mod Exact
pub mod Bounds
mod Tests
use snakemake_storage_plugin.Base.{
  ℤ, pos, negsuc, ℕ, zero, suc, ◌+◌, String, Bool, true, false, not, ◌&&◌, Option, none, some, List,
  [], ◌∷◌, ◌++◌, if◌then◌else◌, ◌=ℕ◌, ltb, contains, is_empty, length,
}
use snakemake_storage_plugin.Base.Result.{Result, ok, err, ◌>>=◌, ◌>>◌, raise_if}

-- The key as VARCHAR, and the hash of the columns.
pub record HashedRow : Type 0 where
  pub key : Option String
  pub hash : ℕ

-- COUNT(*) and SUM(hash).
pub record Aggregate : Type 0 where
  pub rows : ℕ
  pub hashes : ℕ

pub data VerifyError : Type 0 where
  zero_division memory_error : VerifyError

pub record EquivalenceResult : Type 0 where
  pub original : Aggregate
  pub view : Aggregate
  pub mismatched_batches : List (List String × Aggregate × Aggregate)
  pub null_key_original : Aggregate
  pub null_key_view : Aggregate

abbrev pub no_rows : Aggregate
no_rows = record { rows = 0; hashes = 0 }

infixl 6 ◌⊕◌
abbrev pub ◌⊕◌ : Aggregate → Aggregate → Aggregate
a ⊕ b = record { rows = a.rows + b.rows; hashes = a.hashes + b.hashes }

abbrev pub same_aggregate : Aggregate → Aggregate → Bool
same_aggregate a b = a.rows =ℕ b.rows && a.hashes =ℕ b.hashes

abbrev pub single : HashedRow → Aggregate
single r = record { rows = 1; hashes = r.hash }

-- `SELECT COUNT(*), COALESCE(SUM(hash), 0) FROM … WHERE test`
unfoldable pub aggregate : (HashedRow → Bool) → List HashedRow → Aggregate
aggregate test [] = no_rows
aggregate test (r ∷ rs) = let rest = aggregate test rs in if test r then single r ⊕ rest else rest

abbrev pub key_test : List String → Option String → Bool
key_test ks none = false
key_test ks (some k) = contains k ks

abbrev pub key_in : List String → HashedRow → Bool
key_in ks r = key_test ks r.key

abbrev pub is_null : HashedRow → Bool
is_null r = elim r.key [ none ↦ true | some k ↦ false ]

-- `keys[:n]` and `keys[n:]`
unfoldable pub take : ℕ → List String → List String
take zero ks = []
take (suc n) [] = []
take (suc n) (k ∷ ks) = k ∷ take n ks

unfoldable pub drop : ℕ → List String → List String
drop zero ks = ks
drop (suc n) [] = []
drop (suc n) (k ∷ ks) = drop n ks

-- The slices for `index in range(0, len(keys), size)` with a size that is not negative, on as much fuel as there are keys.
unfoldable pub batches : ℕ → ℕ → List String → List (List String)
unfolding take drop
batches zero size ks = []
batches (suc fuel) size [] = []
batches (suc fuel) size (k ∷ ks) = take size (k ∷ ks) ∷ batches fuel size (drop size (k ∷ ks))

-- The batches for an integer `batch_size`: a range with a negative step is empty.
abbrev pub slices : ℤ → List String → List (List String)
slices (pos n) ks = batches (length ks) n ks
slices (negsuc n) ks = []

abbrev pub is_zero : ℤ → Bool
is_zero (pos n) = n =ℕ 0
is_zero (negsuc n) = false

abbrev pub exceeds : ℕ → Option ℕ → Bool
exceeds rss none = false
exceeds rss (some max) = ltb max rss

abbrev pub mismatch :
    List String → Aggregate → Aggregate → List (List String × Aggregate × Aggregate)
mismatch batch a b = if same_aggregate a b then [] else (batch, a, b) ∷ []

module _ (original view : List HashedRow) (rss : List String → ℕ) (max_rss_mb : Option ℕ) where
  -- One turn of the loop. `rss` is the peak that is read after the batch.
  abbrev pub compare_batch : List String → EquivalenceResult → EquivalenceResult
  compare_batch batch r = record r {
    original = r.original ⊕ aggregate (key_in batch) original;
    view = r.view ⊕ aggregate (key_in batch) view;
    mismatched_batches =
        r.mismatched_batches
        ++ mismatch batch (aggregate (key_in batch) original) (aggregate (key_in batch) view);
  }

  unfoldable pub compare_each :
      List (List String) → EquivalenceResult → Result VerifyError EquivalenceResult
  unfolding aggregate contains
  compare_each [] r = ok r
  compare_each (batch ∷ rest) r = do
    raise_if (exceeds (rss batch) max_rss_mb) memory_error
    compare_each rest (compare_batch batch r)

  abbrev pub before_batches : EquivalenceResult
  before_batches = record {
    original = no_rows;
    view = no_rows;
    mismatched_batches = [];
    null_key_original = aggregate is_null original;
    null_key_view = aggregate is_null view;
  }

  -- `compare_batched`, with the keys that the first query gave.
  unfoldable pub compare_batched : List String → ℤ → Result VerifyError EquivalenceResult
  unfolding compare_each batches
  compare_batched keys batch_size = do
    raise_if (is_zero batch_size) zero_division
    compare_each (slices batch_size keys) before_batches

-- `EquivalenceResult.equivalent`, of relations with the same columns.
abbrev pub equivalent : EquivalenceResult → Bool
equivalent r =
    same_aggregate r.original r.view
    && (is_empty r.mismatched_batches && same_aggregate r.null_key_original r.null_key_view)

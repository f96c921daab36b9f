-- ===== src/Verify/Bounds.antt =====
-- The size of the batches.
use snakemake_storage_plugin.Base.{
  refl, pos, negsuc, ◌≡◌, ℕ, zero, suc, ◌≤◌, String, List, [], ◌∷◌, length, arith, Memᴰ, inl, inr,
}
use mathlib.Core.List.Memᴰ
use snakemake_storage_plugin.Verify.{slices, take, drop, batches}
use snakemake_storage_plugin.Verify.Totals.{concat, concat-batches}

length-take : (n : ℕ) (ks : List String) → length (take n ks) ≤ n
unfolding take
length-take zero ks = omega arith
length-take (suc n) [] = omega arith
length-take (suc n) (k ∷ ks) = omega (arith, length-take n ks)

batch_length :
    (fuel n : ℕ) (ks b : List String)
    → Memᴰ b (batches fuel (suc n) ks)
    → (1 ≤ length b) × (length b ≤ suc n)
unfolding batches take drop
batch_length zero n ks b m = elim m [ ]
batch_length (suc fuel) n [] b m = elim m [ ]
batch_length (suc fuel) n (k ∷ ks) b m = elim (Memᴰ.cases_cons m) [
  | inl e ↦ rw e (omega arith, omega (arith, length-take n ks))
  | inr t ↦ batch_length fuel n (drop n ks) b t
]

-- For a positive batch size the batches are the keys in their order, and each holds at least one key
-- and at most that many; for a negative one there is no batch.
pub batches_bounded :
    (n : ℕ) (keys : List String)
    → (concat (slices (pos (suc n)) keys) ≡ keys)
      × ((b : List String)
          → Memᴰ b (slices (pos (suc n)) keys)
          → (1 ≤ length b) × (length b ≤ suc n))
      × (slices (negsuc n) keys ≡ [])
batches_bounded n keys =
    (concat-batches (length keys) n keys (omega arith), batch_length (length keys) n keys, refl)

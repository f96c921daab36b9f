-- ===== src/Verify/Totals.antt =====
-- The totals of the batches are those of one query over all keys.
use snakemake_storage_plugin.Base.{
  ◌≡◌, refl, sym, ap, ◌∙◌, ℕ, zero, suc, ◌≤◌, String, Bool, true, false, ◌&&◌, ◌||◌, Option, none,
  some, List, [], ◌∷◌, ◌++◌, ◌==◌, contains, length, has_duplicate, arith, Bool-cases, inl, inr,
  Memᴰ, eq_iff,
}
use snakemake_storage_plugin.Verify.{
  HashedRow, Aggregate, no_rows, ◌⊕◌, single, aggregate, key_test, key_in, take, drop, batches,
}

contains-append :
    (k : String) (xs ys : List String) → contains k (xs ++ ys) ≡ (contains k xs || contains k ys)
unfolding contains
contains-append k [] ys = refl
contains-append k (x ∷ xs) ys = rw (contains-append k xs ys) (ground arith)

take-drop : (n : ℕ) (ks : List String) → take n ks ++ drop n ks ≡ ks
unfolding take drop
take-drop zero ks = refl
take-drop (suc n) [] = refl
take-drop (suc n) (k ∷ ks) = ap (λ w. k ∷ w) (take-drop n ks)

length-drop : (n : ℕ) (ks : List String) → length (drop n ks) ≤ length ks
unfolding drop
length-drop zero ks = omega arith
length-drop (suc n) [] = omega arith
length-drop (suc n) (k ∷ ks) = omega (arith, length-drop n ks)

unfoldable pub concat : List (List String) → List String
concat [] = []
concat (b ∷ bs) = b ++ concat bs

-- With as much fuel as keys the batches are the keys.
pub concat-batches :
    (fuel n : ℕ) (ks : List String) → length ks ≤ fuel → concat (batches fuel (suc n) ks) ≡ ks
unfolding concat batches take drop
concat-batches zero n [] enough = refl
concat-batches zero n (k ∷ ks) enough = absurd (omega (arith, enough))
concat-batches (suc fuel) n [] enough = refl
concat-batches (suc fuel) n (k ∷ ks) enough =
    ap (λ w. k ∷ (take n ks ++ w))
      (concat-batches fuel n (drop n ks) (omega (arith, enough, length-drop n ks)))
    ∙ ap (λ w. k ∷ w) (take-drop n ks)

pub aggregate-same :
    (p q : HashedRow → Bool) (rs : List HashedRow)
    → ((r : HashedRow) → Memᴰ r rs → p r ≡ q r)
    → aggregate p rs ≡ aggregate q rs
unfolding aggregate
aggregate-same p q [] same = refl
aggregate-same p q (r ∷ rs) same =
    let rest = aggregate-same p q rs (λ x m. same x (Memᴰ.tail m)) in
    rw (same r (Memᴰ.head refl), rest) refl

pub both_equal :
    {m n k l : ℕ}
    → m ≡ n
    → k ≡ l
    → ◌≡◌ {A = Aggregate} (record { rows = m; hashes = k }) (record { rows = n; hashes = l })
both_equal e f = rw (e, f) refl

plus_swap : (a b c : Aggregate) → a ⊕ (b ⊕ c) ≡ b ⊕ (a ⊕ c)
plus_swap a b c = both_equal (omega arith) (omega arith)

pub plus_assoc : (a b c : Aggregate) → (a ⊕ b) ⊕ c ≡ a ⊕ (b ⊕ c)
plus_assoc a b c = both_equal (omega arith) (omega arith)

-- Two tests of which no row passes both.
pub aggregate-or :
    (p q : HashedRow → Bool) (rs : List HashedRow)
    → ((r : HashedRow) → (p r && q r) ≡ false)
    → aggregate (λ r. p r || q r) rs ≡ aggregate p rs ⊕ aggregate q rs
unfolding aggregate
aggregate-or p q [] apart = refl
aggregate-or p q (r ∷ rs) apart =
    let rest = aggregate-or p q rs apart in
    elim (Bool-cases (p r)) [
      | inl e ↦
          let f : q r ≡ false = other _ _ e (apart r) in
          rw (e, f, rest) (sym (plus_assoc (single r) (aggregate p rs) (aggregate q rs)))
      | inr e ↦ elim (Bool-cases (q r)) [
        | inl f ↦ rw (e, f, rest) (plus_swap (single r) (aggregate p rs) (aggregate q rs))
        | inr f ↦ rw (e, f, rest) refl
      ]
    ]
  where
    other : (a b : Bool) → a ≡ true → (a && b) ≡ false → b ≡ false
    other a b e h = ground arith

apart_keys :
    (xs ys : List String)
    → has_duplicate (xs ++ ys) ≡ false
    → (k : String) → (contains k xs && contains k ys) ≡ false
unfolding has_duplicate contains
apart_keys [] ys h k = refl
apart_keys (x ∷ xs) ys h k =
    let rest = apart_keys xs ys (ground arith) k in
    let new : contains x (xs ++ ys) ≡ false = ground arith in
    elim (Bool-cases (x == k)) [
      | inr e ↦ rw e rest
      | inl e ↦
          let same : x ≡ k = (eq_iff x k).0 e in
          rw (e, sym same) (right_false _ _ (sym (contains-append x xs ys) ∙ new))
    ]
  where
    right_false : (a b : Bool) → (a || b) ≡ false → b ≡ false
    right_false a b e = ground arith

pub tail_distinct :
    (xs ys : List String) → has_duplicate (xs ++ ys) ≡ false → has_duplicate ys ≡ false
unfolding has_duplicate
tail_distinct [] ys h = h
tail_distinct (x ∷ xs) ys h = tail_distinct xs ys (ground arith)

pub aggregate-append :
    (xs ys : List String) (rs : List HashedRow)
    → has_duplicate (xs ++ ys) ≡ false
    → aggregate (key_in (xs ++ ys)) rs ≡ aggregate (key_in xs) rs ⊕ aggregate (key_in ys) rs
aggregate-append xs ys rs h =
    aggregate-same _ _ rs (λ r m. at r.key)
    ∙ aggregate-or (key_in xs) (key_in ys) rs (λ r. apart r.key)
  where
    at : (k : Option String) → key_test (xs ++ ys) k ≡ (key_test xs k || key_test ys k)
    at none = refl
    at (some k) = contains-append k xs ys

    apart : (k : Option String) → (key_test xs k && key_test ys k) ≡ false
    apart none = refl
    apart (some k) = apart_keys xs ys h k

pub key_in-nothing : (rs : List HashedRow) → aggregate (key_in []) rs ≡ no_rows
unfolding aggregate contains
key_in-nothing [] = refl
key_in-nothing (r ∷ rs) = rw (at r.key) (key_in-nothing rs)
  where
    at : (k : Option String) → key_test [] k ≡ false
    at none = refl
    at (some k) = refl

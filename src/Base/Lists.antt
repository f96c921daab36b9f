-- ===== src/Base/Lists.antt =====
-- Lists over the native numbers, and the Python operations on them that the source uses.
use Prim.Native.Nat.{ℕ, suc, ◌+◌}
use Prim.Native.String.{String}
use mathlib.Core.Path.{◌≡◌, refl, ap}
use mathlib.Core.Logic.{inl, inr}
use mathlib.Core.Bool.{Bool, true, false, ◌&&◌, ◌||◌}
use mathlib.Core.List.{List, [], ◌∷◌, ◌++◌, map, Memᴰ}
use mathlib.Core.List.Memᴰ
use native.Mathlib.Omega.{arith}
use text.Mathlib.TextEquality.{eq_iff}
use text.Mathlib.Text.{starts_with}
use snakemake_storage_plugin.Base.Tests.{◌==◌, if◌then◌else◌, Bool-cases}

module _ {ℓ} {A : Type ℓ} where
  abbrev pub is_empty : List A → Bool
  is_empty [] = true
  is_empty (x ∷ xs) = false

  abbrev pub length : List A → ℕ
  length [] = 0
  length (x ∷ xs) = suc (length xs)

  pub length-append : (xs ys : List A) → length (xs ++ ys) ≡ length xs + length ys
  length-append [] ys = omega arith
  length-append (x ∷ xs) ys = omega (arith, length-append xs ys)

  -- Python's `any` and `all` over a generator, and a comprehension with a condition.
  unfoldable pub any : (A → Bool) → List A → Bool
  any p [] = false
  any p (x ∷ xs) = p x || any p xs

  unfoldable pub all : (A → Bool) → List A → Bool
  all p [] = true
  all p (x ∷ xs) = p x && all p xs

  unfoldable pub keep : (A → Bool) → List A → List A
  keep p [] = []
  keep p (x ∷ xs) = let rest = keep p xs in if p x then x ∷ rest else rest

  pub mem-keep :
      (p : A → Bool) {a : A} (xs : List A) → Memᴰ a (keep p xs) → Memᴰ a xs × (p a ≡ true)
  unfolding keep
  mem-keep p [] m = elim m [ ]
  mem-keep p {a} (x ∷ xs) m = elim (Bool-cases (p x)) [
    | inl h ↦ elim (Memᴰ.cases_cons (rw h at m)) [
      | inl e ↦ (Memᴰ.head e, rw e h)
      | inr r ↦ let (l, q) = mem-keep p xs r in (Memᴰ.tail l, q)
    ]
    | inr h ↦ let (l, r) = mem-keep p xs (rw h at m) in (Memᴰ.tail l, r)
  ]

  pub keep-mem : (p : A → Bool) {a : A} (xs : List A) → Memᴰ a xs → p a ≡ true → Memᴰ a (keep p xs)
  unfolding keep
  keep-mem p [] m h = elim m [ ]
  keep-mem p (x ∷ xs) (Memᴰ.head e) h = let hx : p x ≡ true = rw (← e) h in rw hx (Memᴰ.head e)
  keep-mem p (x ∷ xs) (Memᴰ.tail m) h = elim (Bool-cases (p x)) [
    | inl t ↦ rw t (Memᴰ.tail (keep-mem p xs m h))
    | inr t ↦ rw t (keep-mem p xs m h)
  ]

-- `x in xs` over texts.
unfoldable pub contains : String → List String → Bool
contains x [] = false
contains x (y ∷ ys) = y == x || contains x ys

pub contains→mem : (x : String) (xs : List String) → contains x xs ≡ true → Memᴰ x xs
unfolding contains
contains→mem x [] h = cc
contains→mem x (y ∷ ys) h = elim (Bool-cases (y == x)) [
  | inl e ↦ Memᴰ.head (ground (arith, eq_iff y x))
  | inr e ↦ Memᴰ.tail (contains→mem x ys (rw e at h))
]

pub mem→contains : (x : String) (xs : List String) → Memᴰ x xs → contains x xs ≡ true
unfolding contains
mem→contains x [] m = elim m [ ]
mem→contains x (y ∷ ys) (Memᴰ.head e) = ground (arith, eq_iff y x)
mem→contains x (y ∷ ys) (Memᴰ.tail m) = ground (arith, mem→contains x ys m)

-- `set(xs) <= set(ys)`.
unfoldable pub subset : List String → List String → Bool
subset xs ys = all (λ x. contains x ys) xs

-- `len(set(xs)) != len(xs)`: some element occurs twice.
unfoldable pub has_duplicate : List String → Bool
unfolding contains
has_duplicate [] = false
has_duplicate (x ∷ xs) = contains x xs || has_duplicate xs

-- No element occurs twice.
abbrev pub Distinct {ℓ} : {A : Type ℓ} → List A → Type ℓ
Distinct [] = Unit
Distinct (x ∷ xs) = (¬ Memᴰ x xs) × Distinct xs

module _ {ℓ} {A : Type ℓ} where
  pub keep-Distinct : (p : A → Bool) (xs : List A) → Distinct xs → Distinct (keep p xs)
  unfolding keep
  keep-Distinct p [] d = tt
  keep-Distinct p (x ∷ xs) d = elim (Bool-cases (p x)) [
    | inl t ↦ rw t ((λ m. d.0 (mem-keep p xs m).0), keep-Distinct p xs d.1)
    | inr f ↦ rw f (keep-Distinct p xs d.1)
  ]

  pub append-Distinct :
      (xs ys : List A)
      → Distinct xs
      → Distinct ys
      → ((a : A) → Memᴰ a xs → ¬ Memᴰ a ys)
      → Distinct (xs ++ ys)
  append-Distinct [] ys dx dy apart = dy
  append-Distinct (x ∷ xs) ys dx dy apart = (
    λ m. elim (Memᴰ.append_cases xs m) [ inl l ↦ dx.0 l | inr r ↦ apart x (Memᴰ.head refl) r ],
    append-Distinct xs ys dx.1 dy (λ a m. apart a (Memᴰ.tail m)),
  )

pub has_duplicate-Distinct : (xs : List String) → has_duplicate xs ≡ false → Distinct xs
unfolding has_duplicate
has_duplicate-Distinct [] h = tt
has_duplicate-Distinct (x ∷ xs) h = elim (Bool-cases (contains x xs)) [
  | inl e ↦ absurd (cc (rw e at h))
  | inr e ↦ ((λ m. cc (mem→contains x xs m)), has_duplicate-Distinct xs (rw e at h))
]

pub any-mem {ℓ} :
    {A : Type ℓ} (p : A → Bool) {a : A} (xs : List A) → any p xs ≡ false → Memᴰ a xs → p a ≡ false
unfolding any
any-mem p [] h m = elim m [ ]
any-mem p (x ∷ xs) h (Memᴰ.head e) = elim (Bool-cases (p x)) [
  | inl t ↦ absurd (cc (rw t at h))
  | inr f ↦ rw e f
]
any-mem p (x ∷ xs) h (Memᴰ.tail m) = elim (Bool-cases (p x)) [
  | inl t ↦ absurd (cc (rw t at h))
  | inr f ↦ any-mem p xs (rw f at h) m
]

pub mem-map : {A B : Type 0} (f : A → B) (a : A) (xs : List A) → Memᴰ a xs → Memᴰ (f a) (map f xs)
mem-map f a [] m = elim m [ ]
mem-map f a (x ∷ xs) (Memᴰ.head e) = Memᴰ.head (ap f e)
mem-map f a (x ∷ xs) (Memᴰ.tail m) = Memᴰ.tail (mem-map f a xs m)

-- `t in s`
unfoldable pub has_text : String → String → Bool
has_text t String.[] = false
has_text t (String.◌∷◌ c s) = starts_with (String.◌∷◌ c s) t || has_text t s

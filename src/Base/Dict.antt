-- ===== src/Base/Dict.antt =====
-- A Python dictionary with texts as keys, in the order of insertion.
use mathlib.Core.Path.{◌≡◌, refl, ap}
use native.Mathlib.Omega.{arith}
use text.Mathlib.TextEquality.{eq_iff}
use mathlib.Core.Option.{Option, none, some}
use mathlib.Core.Logic.{inl, inr}
use mathlib.Core.List.{List, [], ◌∷◌, map, Memᴰ}
use Prim.Native.String.{String}
use snakemake_storage_plugin.Base.Tests.{◌==◌, if◌then◌else◌, Bool-cases}

module _ {ℓ} {V : Type ℓ} where
  unfoldable pub lookup : String → List (String × V) → Option V
  lookup k [] = none
  lookup k ((j, v) ∷ d) = if j == k then some v else lookup k d

  -- `d[k] = v`: a key that is there keeps its place.
  unfoldable pub insert : String → V → List (String × V) → List (String × V)
  insert k v [] = (k, v) ∷ []
  insert k v ((j, w) ∷ d) = let rest = insert k v d in if j == k then (j, v) ∷ d else (j, w) ∷ rest

  unfoldable pub insert_all : List (String × V) → List (String × V) → List (String × V)
  unfolding insert
  insert_all [] d = d
  insert_all ((k, v) ∷ items) d = insert_all items (insert k v d)

-- `{key(x): value(x) for x in xs}`
abbrev pub dict_of {ℓ} : {A V : Type ℓ} → (A → String) → (A → V) → List A → List (String × V)
dict_of key value xs = insert_all (map (λ x. (key x, value x)) xs) []

abbrev pub keys {ℓ} : {V : Type ℓ} → List (String × V) → List String
keys d = map (λ (k, _). k) d

abbrev pub values {ℓ} : {V : Type ℓ} → List (String × V) → List V
values d = map (λ (_, v). v) d

module _ {ℓ} {V : Type ℓ} where
  insert-key : (k : String) (v : V) (d : List (String × V)) → Memᴰ k (keys (insert k v d))
  unfolding insert
  insert-key k v [] = Memᴰ.head refl
  insert-key k v ((j, w) ∷ d) = elim (Bool-cases (j == k)) [
    | inl e ↦ rw e (Memᴰ.head (ground (arith, eq_iff j k)))
    | inr e ↦ rw e (Memᴰ.tail (insert-key k v d))
  ]

  insert-keys :
      (k j : String) (v : V) (d : List (String × V))
      → Memᴰ j (keys d)
      → Memᴰ j (keys (insert k v d))
  unfolding insert
  insert-keys k j v [] m = elim m [ ]
  insert-keys k j v ((i, w) ∷ d) (Memᴰ.head e) = elim (Bool-cases (i == k)) [
    | inl f ↦ rw f (Memᴰ.head e)
    | inr f ↦ rw f (Memᴰ.head e)
  ]
  insert-keys k j v ((i, w) ∷ d) (Memᴰ.tail m) = elim (Bool-cases (i == k)) [
    | inl f ↦ rw f (Memᴰ.tail m)
    | inr f ↦ rw f (Memᴰ.tail (insert-keys k j v d m))
  ]

  insert_all-old :
      (items d : List (String × V)) (j : String)
      → Memᴰ j (keys d)
      → Memᴰ j (keys (insert_all items d))
  unfolding insert_all
  insert_all-old [] d j m = m
  insert_all-old ((k, v) ∷ items) d j m =
      insert_all-old items (insert k v d) j (insert-keys k j v d m)

  insert_all-keys :
      (items d : List (String × V)) (j : String)
      → Memᴰ j (keys items)
      → Memᴰ j (keys (insert_all items d))
  unfolding insert_all
  insert_all-keys [] d j m = elim m [ ]
  insert_all-keys ((k, v) ∷ items) d j (Memᴰ.head e) =
      insert_all-old items (insert k v d) j (rw e (insert-key k v d))
  insert_all-keys ((k, v) ∷ items) d j (Memᴰ.tail m) = insert_all-keys items (insert k v d) j m

  -- Each element's key is a key of the dictionary.
  pub dict_of-keys :
      {A : Type ℓ} (key : A → String) (value : A → V) (a : A) (xs : List A)
      → Memᴰ a xs
      → Memᴰ (key a) (keys (dict_of key value xs))
  dict_of-keys {A = A} key value a xs m =
      insert_all-keys (map (λ x. (key x, value x)) xs) [] (key a) (listed xs m)
    where
      listed : (xs : List A) → Memᴰ a xs → Memᴰ (key a) (keys (map (λ x. (key x, value x)) xs))
      listed [] m = elim m [ ]
      listed (x ∷ xs) (Memᴰ.head e) = Memᴰ.head (ap key e)
      listed (x ∷ xs) (Memᴰ.tail m) = Memᴰ.tail (listed xs m)

  pub lookup-insert :
      (k j : String) (v : V) (d : List (String × V))
      → lookup j (insert k v d) ≡ (if k == j then some v else lookup j d)
  unfolding lookup insert
  lookup-insert k j v [] = refl
  lookup-insert k j v ((i, w) ∷ d) =
      ground (arith, eq_iff k j, eq_iff i k, eq_iff i j, lookup-insert k j v d)

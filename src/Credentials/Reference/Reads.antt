-- ===== src/Credentials/Reference/Reads.antt =====
-- A reference that is written from its parts is read back as them.
use snakemake_storage_plugin.Base.{
  ◌≡◌, refl, ap, ◌∙◌, ℕ, Bool, true, false, not, ◌&&◌, List, [], ◌∷◌, ◌++◌, ◌=ℕ◌, is_empty, Option,
  none, some, get_or, arith,
}
use snakemake_storage_plugin.Base.Result.{ok}
use snakemake_storage_plugin.Credentials.Reference.{
  partition, extend, extend_first, split, any_empty, with_fragment, split_reference,
}

-- The text has no such character.
unfoldable pub lacks : ℕ → List ℕ → Bool
lacks c [] = true
lacks c (d ∷ s) = not (d =ℕ c) && lacks c s

-- Each key is one that a reference can name: not empty, without a dot and a question mark.
unfoldable pub is_path : List (List ℕ) → Bool
unfolding lacks
is_path [] = true
is_path (k ∷ ks) = (not (is_empty k) && (lacks b'.' k && lacks b'?' k)) && is_path ks

-- `".".join(keys)`
unfoldable pub join : List (List ℕ) → List ℕ
join [] = []
join (k ∷ []) = k
join (k ∷ l ∷ ks) = k ++ b'.' ∷ join (l ∷ ks)

both_true : (a b : Bool) → (a && b) ≡ true → (a ≡ true) × (b ≡ true)
both_true a b e = ground arith

same_code : (c : ℕ) → (c =ℕ c) ≡ true
same_code c = ground arith

denied : (a : Bool) → not a ≡ true → a ≡ false
denied a e = ground arith

partition-at :
    (sep : ℕ) (s rest : List ℕ)
    → lacks sep s ≡ true
    → partition sep (s ++ sep ∷ rest) ≡ record { before = s; found = true; after = rest }
unfolding partition lacks
partition-at sep [] rest h = rw (same_code sep) refl
partition-at sep (c ∷ s) rest h =
    let (far, there) = both_true (not (c =ℕ sep)) _ h in
    rw (denied (c =ℕ sep) far) (ap (extend c) (partition-at sep s rest there))

partition-none :
    (sep : ℕ) (s : List ℕ)
    → lacks sep s ≡ true
    → partition sep s ≡ record { before = s; found = false; after = [] }
unfolding partition lacks
partition-none sep [] h = refl
partition-none sep (c ∷ s) h =
    let (far, there) = both_true (not (c =ℕ sep)) _ h in
    rw (denied (c =ℕ sep) far) (ap (extend c) (partition-none sep s there))

split-lacks : (sep : ℕ) (s : List ℕ) → lacks sep s ≡ true → split sep s ≡ s ∷ []
unfolding split lacks
split-lacks sep [] h = refl
split-lacks sep (c ∷ s) h =
    let (far, there) = both_true (not (c =ℕ sep)) _ h in
    rw (denied (c =ℕ sep) far) (ap (extend_first c) (split-lacks sep s there))

split-at :
    (sep : ℕ) (s rest : List ℕ)
    → lacks sep s ≡ true
    → split sep (s ++ sep ∷ rest) ≡ s ∷ split sep rest
unfolding split lacks
split-at sep [] rest h = rw (same_code sep) refl
split-at sep (c ∷ s) rest h =
    let (far, there) = both_true (not (c =ℕ sep)) _ h in
    rw (denied (c =ℕ sep) far) (ap (extend_first c) (split-at sep s rest there))

lacks-append :
    (c : ℕ) (s rest : List ℕ) → lacks c s ≡ true → lacks c rest ≡ true → lacks c (s ++ rest) ≡ true
unfolding lacks
lacks-append c [] rest h k = k
lacks-append c (d ∷ s) rest h k =
    let (far, there) = both_true (not (d =ℕ c)) _ h in rw (far, lacks-append c s rest there k) refl

module _ (k : List ℕ) (ks : List (List ℕ)) (h : is_path (k ∷ ks) ≡ true) where
  first_key :
      (is_empty k ≡ false) × (lacks b'.' k ≡ true) × (lacks b'?' k ≡ true) × (is_path ks ≡ true)
  unfolding is_path
  first_key =
      let (here, rest) = both_true (not (is_empty k) && (lacks b'.' k && lacks b'?' k)) _ h in
      let (some_text, plain) = both_true (not (is_empty k)) _ here in
      let (no_dot, no_mark) = both_true (lacks b'.' k) _ plain in
      (denied (is_empty k) some_text, no_dot, no_mark, rest)

split-join :
    (k : List ℕ) (ks : List (List ℕ))
    → is_path (k ∷ ks) ≡ true
    → split b'.' (join (k ∷ ks)) ≡ k ∷ ks
unfolding join
split-join k [] h = let (_, no_dot, _, _) = first_key k [] h in split-lacks b'.' k no_dot
split-join k (l ∷ ks) h =
    let (_, no_dot, _, rest) = first_key k (l ∷ ks) h in
    split-at b'.' k (join (l ∷ ks)) no_dot ∙ ap (λ w. k ∷ w) (split-join l ks rest)

join-lacks :
    (k : List ℕ) (ks : List (List ℕ)) → is_path (k ∷ ks) ≡ true → lacks b'?' (join (k ∷ ks)) ≡ true
unfolding join lacks
join-lacks k [] h = let (_, _, no_mark, _) = first_key k [] h in no_mark
join-lacks k (l ∷ ks) h =
    let (_, _, no_mark, rest) = first_key k (l ∷ ks) h in
    lacks-append b'?' k (b'.' ∷ join (l ∷ ks)) no_mark (rw (join-lacks l ks rest) refl)

no_empty_key : (ks : List (List ℕ)) → is_path ks ≡ true → any_empty ks ≡ false
unfolding any_empty
no_empty_key [] h = refl
no_empty_key (k ∷ ks) h =
    let (some_text, _, _, rest) = first_key k ks h in rw (some_text, no_empty_key ks rest) refl

join-some :
    (k : List ℕ) (ks : List (List ℕ)) → is_empty k ≡ false → is_empty (join (k ∷ ks)) ≡ false
unfolding join
join-some [] ks h = cc h
join-some (c ∷ k) [] h = refl
join-some (c ∷ k) (l ∷ ks) h = refl

with_fragment-join :
    (path k : List ℕ) (ks : List (List ℕ)) (f : Bool) (q : List ℕ)
    → is_path (k ∷ ks) ≡ true
    → with_fragment path (record { before = join (k ∷ ks); found = f; after = q })
      ≡ ok (path, k ∷ ks, q)
with_fragment-join path k ks f q h =
    let (some_text, _, _, _) = first_key k ks h in
    rw (join-some k ks some_text, split-join k ks h, no_empty_key (k ∷ ks) h) refl

-- The reference of these parts.
unfoldable pub written : List ℕ → List (List ℕ) → Option (List ℕ) → List ℕ
unfolding join
written path [] none = path
written path [] (some query) = path ++ b'?' ∷ query
written path (k ∷ ks) none = path ++ b'#' ∷ join (k ∷ ks)
written path (k ∷ ks) (some query) = path ++ b'#' ∷ (join (k ∷ ks) ++ b'?' ∷ query)

mark : (query : List ℕ) → lacks b'#' query ≡ true → lacks b'#' (b'?' ∷ query) ≡ true
unfolding lacks
mark query q = rw q refl

-- `_split_reference` reads the reference that is written from a path, keys and a query as these
-- parts, when the path has no `#` and no `?`, no key is empty or has a dot or a `?`, and the query
-- has no `#`. A missing query is read as the empty one.
pub split_reference-written :
    (path : List ℕ) (keys : List (List ℕ)) (query : Option (List ℕ))
    → lacks b'#' path ≡ true
    → lacks b'?' path ≡ true
    → is_path keys ≡ true
    → lacks b'#' (get_or [] query) ≡ true
    → split_reference (written path keys query) ≡ ok (path, keys, get_or [] query)
unfolding split_reference written
split_reference-written path [] none a b k q =
    rw (partition-none b'#' path a, partition-none b'?' path b) refl
split_reference-written path [] (some query) a b k q =
    rw
      (
        partition-none b'#' (path ++ b'?' ∷ query)
            (lacks-append b'#' path (b'?' ∷ query) a (mark query q)),
        partition-at b'?' path query b,
      )
      refl
split_reference-written path (key ∷ keys) none a b k q =
    rw
      (
        partition-at b'#' path (join (key ∷ keys)) a,
        partition-none b'?' (join (key ∷ keys)) (join-lacks key keys k),
      )
      (with_fragment-join path key keys false [] k)
split_reference-written path (key ∷ keys) (some query) a b k q =
    rw
      (
        partition-at b'#' path (join (key ∷ keys) ++ b'?' ∷ query) a,
        partition-at b'?' (join (key ∷ keys)) query (join-lacks key keys k),
      )
      (with_fragment-join path key keys true query k)

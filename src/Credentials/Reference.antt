-- ===== src/Credentials/Reference.antt =====
-- `_split_reference`: the grammar of a reference, `PATH#a.b?query`. A text is the list of its
-- characters' codes.
pub mod Reads
mod Tests
use snakemake_storage_plugin.Base.{
  ℕ, Bool, true, false, ◌||◌, List, [], ◌∷◌, ◌++◌, if◌then◌else◌, ◌=ℕ◌, is_empty,
}
use snakemake_storage_plugin.Base.Result.{Result, ok, err}

pub data ReferenceError : Type 0 where
  empty_key : ReferenceError

-- What stands before the separator, whether it was found, and what follows it.
pub record Parts : Type 0 where
  pub before : List ℕ
  pub found : Bool
  pub after : List ℕ

abbrev pub extend : ℕ → Parts → Parts
extend c p = record p { before = c ∷ p.before }

-- `text.partition(sep)`
unfoldable pub partition : ℕ → List ℕ → Parts
partition sep [] = record { before = []; found = false; after = [] }
partition sep (c ∷ s) =
    let rest = partition sep s in
    if c =ℕ sep then record { before = []; found = true; after = s } else extend c rest

abbrev pub extend_first : ℕ → List (List ℕ) → List (List ℕ)
extend_first c [] = (c ∷ []) ∷ []
extend_first c (w ∷ ws) = (c ∷ w) ∷ ws

-- `text.split(sep)`
unfoldable pub split : ℕ → List ℕ → List (List ℕ)
split sep [] = [] ∷ []
split sep (c ∷ s) = let rest = split sep s in if c =ℕ sep then [] ∷ rest else extend_first c rest

unfoldable pub any_empty : List (List ℕ) → Bool
any_empty [] = false
any_empty (k ∷ ks) = is_empty k || any_empty ks

abbrev pub with_fragment : List ℕ → Parts → Result ReferenceError (List ℕ × List (List ℕ) × List ℕ)
with_fragment path p =
    if is_empty p.before || any_empty (split b'.' p.before)
    then err empty_key
    else ok (path, split b'.' p.before, p.after)

abbrev pub without_fragment : Parts → Result ReferenceError (List ℕ × List (List ℕ) × List ℕ)
without_fragment p = ok (p.before, [], p.after)

unfoldable pub split_reference : List ℕ → Result ReferenceError (List ℕ × List (List ℕ) × List ℕ)
unfolding partition split any_empty
split_reference ref =
    let p = partition b'#' ref in
    if p.found
    then with_fragment p.before (partition b'?' p.after)
    else without_fragment (partition b'?' ref)

-- ===== src/Credentials/Reference/Tests.antt =====
-- The reference `s#db.rw?p=1`.
use snakemake_storage_plugin.Base.{◌≡◌, refl, ℕ, some, List, [], ◌∷◌}
use snakemake_storage_plugin.Base.Result.{ok, err}
use snakemake_storage_plugin.Credentials.Reference.{split_reference, empty_key}
use snakemake_storage_plugin.Credentials.Reference.Reads.{
  lacks, is_path, written, split_reference-written,
}

abbrev file : List ℕ
file = b's' ∷ []

abbrev role : List (List ℕ)
role = (b'd' ∷ b'b' ∷ []) ∷ (b'r' ∷ b'w' ∷ []) ∷ []

abbrev port_query : List ℕ
port_query = b'p' ∷ b'=' ∷ b'1' ∷ []

split_reference-written_example :
    split_reference (written file role (some port_query)) ≡ ok (file, role, port_query)
unfolding lacks is_path
split_reference-written_example =
    split_reference-written file role (some port_query) refl refl refl refl

-- `s#` names no key.
no_key_named : split_reference (b's' ∷ b'#' ∷ []) ≡ err empty_key
unfolding split_reference
no_key_named = refl

-- ===== src/Ident/Tests.antt =====
-- A name with a quote in it.
use snakemake_storage_plugin.Base.{◌≡◌, refl, ℕ, some, List, [], ◌∷◌, ◌++◌}
use snakemake_storage_plugin.Ident.{quoted, qualified}
use snakemake_storage_plugin.Ident.Lexer.{
  read_quoted, read_quoted-quoted, reference, given_schema, qualified_reads,
}

-- a"b
abbrev odd_name : List ℕ
odd_name = b'a' ∷ b'"' ∷ b'b' ∷ []

read_quoted-quoted_example :
    read_quoted b'"' (quoted b'"' odd_name ++ b';' ∷ []) ≡ some (odd_name, b';' ∷ [])
read_quoted-quoted_example = read_quoted-quoted b'"' odd_name (b';' ∷ []) refl

qualified_reads_example :
    reference (read_quoted b'"' (qualified odd_name (some odd_name)))
    ≡ some (given_schema (some odd_name), odd_name)
qualified_reads_example = qualified_reads odd_name (some odd_name)

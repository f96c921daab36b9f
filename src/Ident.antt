-- ===== src/Ident.antt =====
-- workflow/scripts/sqlsink/sqlident.py: the quoting of identifiers and literals. A text is the list
-- of its characters' codes.
pub mod Lexer
mod Tests
use snakemake_storage_plugin.Base.{
  ℕ, Bool, true, false, ◌&&◌, ◌||◌, Option, none, some, List, [], ◌∷◌, ◌++◌, if◌then◌else◌, ◌=ℕ◌,
  all,
}
use snakemake_storage_plugin.Base.Text.{between}

-- `text.replace(quote, quote + quote)`
unfoldable pub doubled : ℕ → List ℕ → List ℕ
doubled quote [] = []
doubled quote (c ∷ cs) =
    let rest = doubled quote cs in if c =ℕ quote then quote ∷ quote ∷ rest else c ∷ rest

abbrev pub quoted : ℕ → List ℕ → List ℕ
quoted quote s = quote ∷ (doubled quote s ++ quote ∷ [])

abbrev pub quote_ident : List ℕ → List ℕ
quote_ident = quoted b'"'

abbrev pub quote_literal : List ℕ → List ℕ
quote_literal = quoted b'\''

-- A missing or empty schema is left out.
abbrev pub qualified : List ℕ → Option (List ℕ) → List ℕ
qualified name none = quote_ident name
qualified name (some []) = quote_ident name
qualified name (some (c ∷ cs)) = quote_ident (c ∷ cs) ++ b'.' ∷ quote_ident name

abbrev is_letter : ℕ → Bool
is_letter c = between b'a' b'z' c || (between b'A' b'Z' c || c =ℕ b'_')

-- `[A-Za-z_][A-Za-z0-9_]*` on the whole text
unfoldable pub is_plain_ident : List ℕ → Bool
unfolding all
is_plain_ident [] = false
is_plain_ident (c ∷ cs) = is_letter c && all (λ d. is_letter d || between b'0' b'9' d) cs

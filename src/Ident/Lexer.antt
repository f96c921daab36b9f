-- ===== src/Ident/Lexer.antt =====
-- How SQL reads quoted texts, and that it reads back what was quoted.
use snakemake_storage_plugin.Base.{
  ◌≡◌, refl, sym, ap, ◌∙◌, ℕ, Bool, true, false, Option, none, some, List, [], ◌∷◌, ◌++◌,
  if◌then◌else◌, ◌=ℕ◌, arith, Bool-cases, inl, inr,
}
use snakemake_storage_plugin.Ident.{doubled, quoted, quote_ident, qualified}

-- The text before the closing quote, in which a doubled quote stands for one, and what follows it.
abbrev pub read_char : ℕ → Option (List ℕ × List ℕ) → Option (List ℕ × List ℕ)
read_char c none = none
read_char c (some (s, rest)) = some (c ∷ s, rest)

unfoldable pub read_body : ℕ → List ℕ → Option (List ℕ × List ℕ)
read_body quote [] = none
read_body quote (c ∷ []) = if c =ℕ quote then some ([], []) else none
read_body quote (c ∷ d ∷ ds) =
    let past_both = read_body quote ds in
    let past_one = read_body quote (d ∷ ds) in
    if c =ℕ quote
    then (if d =ℕ quote then read_char quote past_both else some ([], d ∷ ds))
    else read_char c past_one

abbrev pub read_quoted : ℕ → List ℕ → Option (List ℕ × List ℕ)
read_quoted quote [] = none
read_quoted quote (c ∷ cs) = if c =ℕ quote then read_body quote cs else none

abbrev pub starts_with : ℕ → List ℕ → Bool
starts_with quote [] = false
starts_with quote (c ∷ cs) = c =ℕ quote

same_code : (c : ℕ) → (c =ℕ c) ≡ true
same_code c = ground arith

read_body-other :
    (quote c : ℕ) (cs : List ℕ)
    → (c =ℕ quote) ≡ false
    → read_body quote (c ∷ cs) ≡ read_char c (read_body quote cs)
unfolding read_body
read_body-other quote c [] h = rw h refl
read_body-other quote c (d ∷ ds) h = rw h refl

read_body-doubled :
    (quote : ℕ) (s rest : List ℕ)
    → starts_with quote rest ≡ false
    → read_body quote ((doubled quote s ++ quote ∷ []) ++ rest) ≡ some (s, rest)
unfolding read_body doubled
read_body-doubled quote [] [] apart = rw (same_code quote) refl
read_body-doubled quote [] (d ∷ ds) apart = rw (same_code quote, apart) refl
read_body-doubled quote (c ∷ cs) rest apart = elim (Bool-cases (c =ℕ quote)) [
  | inl e ↦
      let same : c ≡ quote = ground arith in
      rw (e, same_code quote, read_body-doubled quote cs rest apart) (rw same refl)
  | inr e ↦ rw e (
      read_body-other quote c ((doubled quote cs ++ quote ∷ []) ++ rest) e
      ∙ ap (read_char c) (read_body-doubled quote cs rest apart))
]

-- SQL reads a quoted text back as the text itself, whatever quotes it holds, and goes on right after
-- it, when what follows does not begin with the same quote.
pub read_quoted-quoted :
    (quote : ℕ) (s rest : List ℕ)
    → starts_with quote rest ≡ false
    → read_quoted quote (quoted quote s ++ rest) ≡ some (s, rest)
read_quoted-quoted quote s rest apart = rw (same_code quote) (read_body-doubled quote s rest apart)

-- A reference: a quoted name, or a quoted schema, a dot and a quoted name.
abbrev pub after_schema : List ℕ → Option (List ℕ × List ℕ) → Option (Option (List ℕ) × List ℕ)
after_schema schema none = none
after_schema schema (some (name, [])) = some (some schema, name)
after_schema schema (some (name, _)) = none

abbrev pub reference : Option (List ℕ × List ℕ) → Option (Option (List ℕ) × List ℕ)
reference none = none
reference (some (name, [])) = some (none, name)
reference (some (schema, c ∷ cs)) =
    if c =ℕ b'.' then after_schema schema (read_quoted b'"' cs) else none

-- None for the empty schema, which is no schema to `qualified`.
abbrev pub given_schema : Option (List ℕ) → Option (List ℕ)
given_schema (some []) = none
given_schema schema = schema

append_nil : (xs : List ℕ) → xs ++ [] ≡ xs
append_nil [] = refl
append_nil (x ∷ xs) = ap (λ r. x ∷ r) (append_nil xs)

alone : (name : List ℕ) → read_quoted b'"' (quote_ident name) ≡ some (name, [])
alone name =
    ap (read_quoted b'"') (sym (append_nil (quote_ident name)))
    ∙ read_quoted-quoted b'"' name [] refl

-- SQL reads what `qualified` renders as a reference to the same schema and the same name, whatever
-- characters, quotes and dots included, the two hold.
pub qualified_reads :
    (name : List ℕ) (schema : Option (List ℕ))
    → reference (read_quoted b'"' (qualified name schema)) ≡ some (given_schema schema, name)
qualified_reads name none = ap reference (alone name)
qualified_reads name (some []) = ap reference (alone name)
qualified_reads name (some (c ∷ cs)) =
    ap reference (read_quoted-quoted b'"' (c ∷ cs) (b'.' ∷ quote_ident name) refl)
    ∙ ap (after_schema (c ∷ cs)) (alone name)

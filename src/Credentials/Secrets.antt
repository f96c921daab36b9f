-- ===== src/Credentials/Secrets.antt =====
-- What `_build` takes from the record and what a query may change.
use snakemake_storage_plugin.Base.{
  ◌≡◌, refl, sym, ap, ◌∙◌, String, Bool, true, false, not, ◌&&◌, Option, none, some, List, [], ◌∷◌,
  ◌==◌, if◌then◌else◌, has_text, contains, is_some, ◌⊎◌, inl, inr, Bool-cases, arith, eq_iff,
  eq_refl, is_empty,
}
use snakemake_storage_plugin.Base.Result.{ok, raise_if, >>=-eq-ok}
use snakemake_storage_plugin.Base.Dict.{lookup, insert, lookup-insert}
use snakemake_storage_plugin.Credentials.{
  YamlValue, text, CredentialsError, Outside, PgCredentials, Record, aliases, overridable,
  secret_fields, merge_path, remove, renamed, take_alias, take_ca, apply_alias, apply_aliases,
  use_ca, query_pairs, override, is_given, with_mode, required_text, optional_text, read_port,
  check_texts, unknown_in, missing_in, from_mapping, build, secret_in_query,
}

pub raise_if-passed : (b : Bool) (e : CredentialsError) (u : Unit) → raise_if b e ≡ ok u → b ≡ false
raise_if-passed true e u h = cc h
raise_if-passed false e u h = refl

pub lookup-remove :
    (k j : String) (rec : Record)
    → lookup j (remove k rec) ≡ (if k == j then none else lookup j rec)
unfolding lookup remove
lookup-remove k j [] = ground (arith, eq_iff k j)
lookup-remove k j ((i, w) ∷ rec) =
    ground (arith, eq_iff k j, eq_iff i k, eq_iff i j, lookup-remove k j rec)

renamed-other :
    (from to j : String) (v : YamlValue) (rec : Record)
    → (from == j) ≡ false
    → (to == j) ≡ false
    → lookup j (renamed from to v rec) ≡ lookup j rec
renamed-other from to j v rec f t =
    lookup-insert to j v (remove from rec) ∙ rw t (lookup-remove from j rec ∙ rw f refl)

-- A field that neither name of an alias has.
apply_alias-other :
    (alias canonical j : String) (rec rec' : Record)
    → apply_alias alias canonical rec ≡ ok rec'
    → (alias == j) ≡ false
    → (canonical == j) ≡ false
    → lookup j rec' ≡ lookup j rec
unfolding apply_alias
apply_alias-other alias canonical j rec rec' h a c = found (lookup alias rec) h
  where
    found :
        (v : Option YamlValue)
        → take_alias alias canonical rec v ≡ ok rec'
        → lookup j rec' ≡ lookup j rec
    found none e = cc e
    found (some v) e =
        let (u, e1, e2) = >>=-eq-ok (raise_if (is_some (lookup canonical rec)) _) _ e in
        cc (e2, renamed-other alias canonical j v rec a c)

-- The canonical field is the one that was there, or the alias's.
apply_alias-canonical :
    (alias canonical : String) (rec rec' : Record)
    → apply_alias alias canonical rec ≡ ok rec'
    → (lookup canonical rec' ≡ lookup canonical rec) ⊎ (lookup canonical rec' ≡ lookup alias rec)
unfolding apply_alias
apply_alias-canonical alias canonical rec rec' h = found (lookup alias rec) h
  where
    found :
        (v : Option YamlValue)
        → take_alias alias canonical rec v ≡ ok rec'
        → (lookup canonical rec' ≡ lookup canonical rec) ⊎ (lookup canonical rec' ≡ v)
    found none e = inl (cc e)
    found (some v) e =
        let (u, e1, e2) = >>=-eq-ok (raise_if (is_some (lookup canonical rec)) _) _ e in
        let put : lookup canonical (renamed alias canonical v rec) ≡ some v =
          lookup-insert canonical canonical v (remove alias rec) ∙ rw (eq_refl canonical) refl in
        inr (cc (e2, put))

override-secret :
    (j : String)
    → contains j secret_fields ≡ true
    → (pairs : List (String × String)) (rec rec' : Record) → override pairs rec ≡ ok rec'
    → lookup j rec' ≡ lookup j rec
unfolding override
override-secret j secret [] rec rec' h = cc h
override-secret j secret ((name, value) ∷ pairs) rec rec' h =
    let (u, e1, h1) =
      >>=-eq-ok (raise_if (contains name secret_fields) (secret_in_query name)) _ h in
    let (w, e2, h2) = >>=-eq-ok (raise_if (not (contains name overridable)) _) _ h1 in
    override-secret j secret pairs (insert name (text value) rec) rec' h2
    ∙ (lookup-insert name j (text value) rec ∙ rw (other (raise_if-passed _ _ u e1)) refl)
  where
    other : contains name secret_fields ≡ false → (name == j) ≡ false
    other public = elim (Bool-cases (name == j)) [
      | inr f ↦ f
      | inl e ↦ let same : name ≡ j = (eq_iff name j).0 e in absurd (cc (secret, public, same))
    ]

use_ca-other :
    (out : Outside) (j : String) (rec rec' : Record)
    → use_ca out rec ≡ ok rec'
    → ("ca" == j) ≡ false
    → ("sslrootcert" == j) ≡ false
    → lookup j rec' ≡ lookup j rec
unfolding use_ca
use_ca-other out j rec rec' h a c = found (lookup "ca" rec) h
  where
    found : (v : Option YamlValue) → take_ca out rec v ≡ ok rec' → lookup j rec' ≡ lookup j rec
    found none e = cc e
    found (some (text pem)) e =
        let (u, e1, e2) = >>=-eq-ok (raise_if (not (has_text "-----BEGIN" pem)) _) _ e in
        cc (e2, renamed-other "ca" "sslrootcert" j (text (out.ca_file pem)) rec a c)
    found (some _) e = cc e

with_mode-other :
    (j : String) (rec : Record) → ("sslmode" == j) ≡ false → lookup j (with_mode rec) ≡ lookup j rec
unfolding with_mode
with_mode-other j rec s =
    elim (Bool-cases
      (is_given (lookup "sslrootcert" rec) && not (is_given (lookup "sslmode" rec)))) [
        | inl e ↦ rw e (lookup-insert "sslmode" j (text "verify-full") rec ∙ rw s refl)
        | inr e ↦ rw e refl
      ]

required_text-ok :
    (key s : String) (v : Option YamlValue) → required_text key v ≡ ok s → v ≡ some (text s)
required_text-ok key s (some (text r)) h = cc h
required_text-ok key s none h = cc h
required_text-ok key s (some _) h = cc h

-- What the fields of the credentials are in the record, all of which was checked.
pub from_mapping-ok :
    (out : Outside) (rec : Record) (c : PgCredentials)
    → from_mapping out rec ≡ ok c
    → (lookup "user" rec ≡ some (text c.user))
      × (lookup "password" rec ≡ some (text c.password))
      × (c.sslrootcert ≡ optional_text (lookup "sslrootcert" rec))
      × (c.sslmode ≡ optional_text (lookup "sslmode" rec))
      × (check_texts rec ≡ ok tt)
unfolding from_mapping
from_mapping-ok out rec c h =
    let (_, _, h1) = >>=-eq-ok (raise_if (not (is_empty (unknown_in rec))) _) _ h in
    let (_, _, h2) = >>=-eq-ok (raise_if (not (is_empty (missing_in rec))) _) _ h1 in
    let (_, _, h3) = >>=-eq-ok (read_port out (lookup "port" rec)) _ h2 in
    let (_, e4, h4) = >>=-eq-ok (check_texts rec) _ h3 in
    let (_, _, h5) = >>=-eq-ok (required_text "host" (lookup "host" rec)) _ h4 in
    let (_, _, h6) = >>=-eq-ok (required_text "dbname" (lookup "dbname" rec)) _ h5 in
    let (user, e7, h7) = >>=-eq-ok (required_text "user" (lookup "user" rec)) _ h6 in
    let (password, e8, h8) = >>=-eq-ok (required_text "password" (lookup "password" rec)) _ h7 in
    let u : user ≡ c.user = cc h8 in
    let p : password ≡ c.password = cc h8 in
    (
      required_text-ok "user" user _ e7 ∙ ap (λ s. some (text s)) u,
      required_text-ok "password" password _ e8 ∙ ap (λ s. some (text s)) p,
      cc h8,
      cc h8,
      e4,
    )

-- The fields that no query may set keep their value from the merged record to the credentials.
after_aliases :
    (out : Outside) (rec r1 r2 : Record) (pairs : List (String × String))
    → use_ca out rec ≡ ok r1
    → override pairs r1 ≡ ok r2
    → (j : String) → contains j secret_fields ≡ true
    → ("ca" == j) ≡ false
    → ("sslrootcert" == j) ≡ false
    → ("sslmode" == j) ≡ false
    → lookup j (with_mode r2) ≡ lookup j rec
after_aliases out rec r1 r2 pairs h1 h2 j secret a b s =
    with_mode-other j r2 s
    ∙ (override-secret j secret pairs r1 r2 h2 ∙ use_ca-other out j rec r1 h1 a b)

apply_aliases-secrets :
    (rec rec' : Record)
    → apply_aliases aliases rec ≡ ok rec'
    → (lookup "password" rec' ≡ lookup "password" rec)
      × ((lookup "user" rec' ≡ lookup "user" rec) ⊎ (lookup "user" rec' ≡ lookup "username" rec))
unfolding apply_aliases
apply_aliases-secrets rec rec' h =
    let (r1, e1, h1) = >>=-eq-ok (apply_alias "database" "dbname" rec) _ h in
    let (r2, e2, h2) = >>=-eq-ok (apply_alias "username" "user" r1) _ h1 in
    let (r3, e3, h3) = >>=-eq-ok (apply_alias "ca_path" "sslrootcert" r2) _ h2 in
    let last : r3 ≡ rec' = cc h3 in
    rw⁻¹ last (
      apply_alias-other "ca_path" "sslrootcert" "password" r2 r3 e3 refl refl
          ∙ (apply_alias-other "username" "user" "password" r1 r2 e2 refl refl
              ∙ apply_alias-other "database" "dbname" "password" rec r1 e1 refl refl),
      elim (apply_alias-canonical "username" "user" r1 r2 e2) [
        | inl e ↦ inl (
            apply_alias-other "ca_path" "sslrootcert" "user" r2 r3 e3 refl refl
            ∙ (e ∙ apply_alias-other "database" "dbname" "user" rec r1 e1 refl refl))
        | inr e ↦ inr (
            apply_alias-other "ca_path" "sslrootcert" "user" r2 r3 e3 refl refl
            ∙ (e ∙ apply_alias-other "database" "dbname" "username" rec r1 e1 refl refl))
      ],
    )

listed_user : contains "user" secret_fields ≡ true
unfolding contains
listed_user = refl

listed_password : contains "password" secret_fields ≡ true
unfolding contains
listed_password = refl

-- If `_build` returns credentials, the merge along the path returned a record, the password is
-- that record's `password` and the user is its `user` or its `username`, whatever the query is.
pub build_secrets :
    (out : Outside) (document : YamlValue) (path : List String) (query : String) (c : PgCredentials)
    → build out document path query ≡ ok c
    → (rec : Record) × (merge_path document path ≡ ok rec)
      × (lookup "password" rec ≡ some (text c.password))
      × ((lookup "user" rec ≡ some (text c.user)) ⊎ (lookup "username" rec ≡ some (text c.user)))
unfolding build
build_secrets out document path query c h =
    let (rec, e1, h1) = >>=-eq-ok (merge_path document path) _ h in
    let (canonical, e2, h2) = >>=-eq-ok (apply_aliases aliases rec) _ h1 in
    let (rooted, e3, h3) = >>=-eq-ok (use_ca out canonical) _ h2 in
    let (pairs, e4, h4) = >>=-eq-ok (query_pairs out query) _ h3 in
    let (overridden, e5, h5) = >>=-eq-ok (override pairs rooted) _ h4 in
    let (user, password, _, _, _) = from_mapping-ok out (with_mode overridden) c h5 in
    let (same_password, same_user) = apply_aliases-secrets rec canonical e2 in
    let after_user = after_aliases out canonical rooted overridden pairs e3 e5 "user" in
    let after_password = after_aliases out canonical rooted overridden pairs e3 e5 "password" in
    (
      rec,
      e1,
      sym same_password ∙ (sym (after_password listed_password refl refl refl) ∙ password),
      elim same_user [
        | inl e ↦ inl (sym e ∙ (sym (after_user listed_user refl refl refl) ∙ user))
        | inr e ↦ inr (sym e ∙ (sym (after_user listed_user refl refl refl) ∙ user))
      ],
    )

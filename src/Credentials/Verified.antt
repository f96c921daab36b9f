-- ===== src/Credentials/Verified.antt =====
-- A connection with a certificate authority has a TLS mode.
use snakemake_storage_plugin.Base.{
  ◌≡◌, refl, String, Bool, true, false, not, ◌&&◌, ◌||◌, Option, none, some, List, [], ◌∷◌, eq_iff,
  ◌==◌, is_some, inl, inr, Bool-cases, arith,
}
use snakemake_storage_plugin.Base.Result.{ok, raise_if, >>=-eq-ok}
use snakemake_storage_plugin.Base.Dict.{lookup, lookup-insert}
use snakemake_storage_plugin.Credentials.Secrets.{raise_if-passed, from_mapping-ok}
use snakemake_storage_plugin.Credentials.{
  YamlValue, text, null, Outside, PgCredentials, Record, aliases, merge_path, apply_aliases, use_ca,
  query_pairs, override, is_given, with_mode, optional_text, build, is_valid, check_texts,
}

valid-text :
    (key : String) (v : YamlValue)
    → is_valid key v ≡ true
    → is_given (some v) ≡ true
    → is_some (optional_text (some v)) ≡ true
valid-text key (text s) valid given = refl
valid-text key null valid given = cc given
valid-text key _ valid given = cc valid

-- A given field of a record that was checked is a text.
check_texts-text :
    (key : String) (rec : Record) (u : Unit)
    → check_texts rec ≡ ok u
    → (key == "port") ≡ false
    → is_given (lookup key rec) ≡ true
    → is_some (optional_text (lookup key rec)) ≡ true
unfolding check_texts lookup
check_texts-text key [] u h far given = cc given
check_texts-text key ((k, v) ∷ rec) u h far given =
    let checked = not (k == "port" || is_valid k v) in
    let (w, e, rest) = >>=-eq-ok (raise_if checked _) _ h in
    let passed = raise_if-passed checked _ w e in
    elim (Bool-cases (k == key)) [
      | inr f ↦ rw f (check_texts-text key rec u rest far (rw f at given))
      | inl f ↦
          let same : k ≡ key = (eq_iff k key).0 f in
          let valid : is_valid k v ≡ true = left_false (k == "port") _ passed (rw same far) in
          rw f (valid-text k v valid (rw f at given))
    ]
  where
    left_false : (a b : Bool) → not (a || b) ≡ false → a ≡ false → b ≡ true
    left_false a b e f = ground arith

text-given : (v : Option YamlValue) → is_some (optional_text v) ≡ true → is_given v ≡ true
text-given (some (text s)) h = refl
text-given none h = cc h
text-given (some null) h = cc h
text-given (some _) h = refl

with_mode-given :
    (rec : Record)
    → is_given (lookup "sslrootcert" (with_mode rec)) ≡ true
    → is_given (lookup "sslmode" (with_mode rec)) ≡ true
unfolding with_mode
with_mode-given rec h =
    elim (Bool-cases
      (is_given (lookup "sslrootcert" rec) && not (is_given (lookup "sslmode" rec)))) [
        | inl e ↦ rw (e, lookup-insert "sslmode" "sslmode" (text "verify-full") rec) refl
        | inr e ↦ rw e (both _ _ e (rw e at h))
      ]
  where
    both : (a b : Bool) → (a && not b) ≡ false → a ≡ true → b ≡ true
    both a b e f = ground arith

-- If `_build` returns credentials with a certificate authority, they have a TLS mode.
pub build_verified :
    (out : Outside) (document : YamlValue) (path : List String) (query : String) (c : PgCredentials)
    → build out document path query ≡ ok c
    → is_some c.sslrootcert ≡ true
    → is_some c.sslmode ≡ true
unfolding build
build_verified out document path query c h rooted =
    let (rec, _, h1) = >>=-eq-ok (merge_path document path) _ h in
    let (canonical, _, h2) = >>=-eq-ok (apply_aliases aliases rec) _ h1 in
    let (certified, _, h3) = >>=-eq-ok (use_ca out canonical) _ h2 in
    let (pairs, _, h4) = >>=-eq-ok (query_pairs out query) _ h3 in
    let (overridden, _, h5) = >>=-eq-ok (override pairs certified) _ h4 in
    let (_, _, root, mode, checked) = from_mapping-ok out (with_mode overridden) c h5 in
    let given = text-given _ (rw root at rooted) in
    rw mode (
      check_texts-text "sslmode" (with_mode overridden) tt checked refl
        (with_mode-given overridden given))

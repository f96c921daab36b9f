-- ===== src/Credentials.antt =====
-- workflow/scripts/sqlsink/credentials.py: from a decrypted document to the credentials of one role.
pub mod Secrets
pub mod Verified
pub mod Reference
mod Tests
use snakemake_storage_plugin.Base.{
  ℤ, pos, negsuc, ℕ, String, Bool, true, false, not, ◌&&◌, ◌||◌, Option, none, some, List, [], ◌∷◌,
  ◌==◌, if◌then◌else◌, has_text, contains, any, keep, is_some, is_empty,
}
use snakemake_storage_plugin.Base.Result.{Result, ok, err, ◌>>=◌, ◌>>◌, raise_if}
use snakemake_storage_plugin.Base.Dict.{lookup, insert, insert_all, keys}

-- What YAML and JSON give. `other` stands for the rest, lists, dates and fractions, as it is written.
mutual
  pub data YamlValue : Type 0 where
    text other : String → YamlValue
    number : ℤ → YamlValue
    flag : Bool → YamlValue
    null : YamlValue
    mapping : Mapping → YamlValue

  pub data Mapping : Type 0 where
    empty : Mapping
    entry : String → YamlValue → Mapping → Mapping

pub data CredentialsError : Type 0 where
  no_key not_a_mapping bad_ca malformed_query bad_port : CredentialsError
  same_field : String → String → CredentialsError
  secret_in_query unknown_query_key not_text : String → CredentialsError
  unknown_keys missing_keys : List String → CredentialsError

-- Python's `int`, `parse_qsl` of a query, and the private file that holds a certificate.
pub record Outside : Type 0 where
  pub int : YamlValue → Option ℤ
  pub parse_qsl : String → Option (List (String × String))
  pub ca_file : String → String

pub record PgCredentials : Type 0 where
  pub host : String
  pub dbname : String
  pub user : String
  pub password : String
  pub port : ℤ
  pub sslmode : Option String
  pub sslrootcert : Option String
  pub sslcert : Option String
  pub sslkey : Option String
  pub options : Option String
  pub hostaddr : Option String

abbrev pub Record : Type 0
Record = List (String × YamlValue)

abbrev pub query_keys : List String
query_keys = "hostaddr" ∷ "sslmode" ∷ "sslrootcert" ∷ "sslcert" ∷ "sslkey" ∷ "options" ∷ []

abbrev pub aliases : List (String × String)
aliases = ("database", "dbname") ∷ ("username", "user") ∷ ("ca_path", "sslrootcert") ∷ []

abbrev pub overridable : List String
overridable =
    "host" ∷ "hostaddr" ∷ "port" ∷ "sslmode" ∷ "sslrootcert" ∷ "sslcert" ∷ "sslkey" ∷ "options"
    ∷ "dbname" ∷ []

abbrev pub secret_fields : List String
secret_fields = "user" ∷ "username" ∷ "password" ∷ "ca" ∷ []

abbrev known : List String
known =
    "host" ∷ "dbname" ∷ "user" ∷ "password" ∷ "port" ∷ "sslmode" ∷ "sslrootcert" ∷ "sslcert"
    ∷ "sslkey" ∷ "options" ∷ "hostaddr" ∷ []

abbrev required : List String
required = "host" ∷ "dbname" ∷ "user" ∷ "password" ∷ []

-- `node[k]`
unfoldable pub child : String → Mapping → Option YamlValue
child k empty = none
child k (entry j v m) = let rest = child k m in if j == k then some v else rest

abbrev pub step : YamlValue → String → Result CredentialsError YamlValue
step (mapping m) k = elim (child k m) [ none ↦ err no_key | some v ↦ ok v ]
step _ k = err no_key

unfoldable pub levels_along : YamlValue → List String → Result CredentialsError (List YamlValue)
unfolding child
levels_along node [] = ok []
levels_along node (k ∷ ks) = do
  next ← step node k
  levels ← levels_along next ks
  ok (next ∷ levels)

abbrev add_scalar : String → YamlValue → Record → Record
add_scalar k (mapping m) rest = rest
add_scalar k v rest = (k, v) ∷ rest

-- The fields of a level that are no mappings.
unfoldable pub scalars : Mapping → Record
scalars empty = []
scalars (entry k v m) = add_scalar k v (scalars m)

unfoldable pub merge_levels : List YamlValue → Record → Result CredentialsError Record
unfolding scalars insert_all
merge_levels [] merged = ok merged
merge_levels (mapping m ∷ levels) merged = merge_levels levels (insert_all (scalars m) merged)
merge_levels (_ ∷ levels) merged = err not_a_mapping

-- `_merge_path`
unfoldable pub merge_path : YamlValue → List String → Result CredentialsError Record
unfolding levels_along merge_levels
merge_path document [] = merge_levels (document ∷ []) []
merge_path document (k ∷ ks) = do levels ← levels_along document (k ∷ ks); merge_levels levels []

-- `del d[k]`
unfoldable pub remove : String → Record → Record
remove k [] = []
remove k ((j, v) ∷ d) = let rest = remove k d in if j == k then rest else (j, v) ∷ rest

-- The field `from` of the value under the name `to`.
abbrev pub renamed : String → String → YamlValue → Record → Record
renamed from to v rec = insert to v (remove from rec)

abbrev pub take_alias : String → String → Record → Option YamlValue → Result CredentialsError Record
take_alias alias canonical rec none = ok rec
take_alias alias canonical rec (some v) = do
  raise_if (is_some (lookup canonical rec)) (same_field alias canonical)
  ok (renamed alias canonical v rec)

unfoldable pub apply_alias : String → String → Record → Result CredentialsError Record
unfolding lookup insert remove
apply_alias alias canonical rec = take_alias alias canonical rec (lookup alias rec)

unfoldable pub apply_aliases : List (String × String) → Record → Result CredentialsError Record
unfolding apply_alias
apply_aliases [] rec = ok rec
apply_aliases ((alias, canonical) ∷ rest) rec = do
  rec' ← apply_alias alias canonical rec
  apply_aliases rest rec'

-- `_materialise_ca`, and the field that takes the place of `ca`.
abbrev pub take_ca : Outside → Record → Option YamlValue → Result CredentialsError Record
take_ca out rec none = ok rec
take_ca out rec (some (text pem)) = do
  raise_if (not (has_text "-----BEGIN" pem)) bad_ca
  ok (renamed "ca" "sslrootcert" (text (out.ca_file pem)) rec)
take_ca out rec (some _) = err bad_ca

unfoldable pub use_ca : Outside → Record → Result CredentialsError Record
unfolding lookup insert remove has_text
use_ca out rec = take_ca out rec (lookup "ca" rec)

abbrev pub query_pairs : Outside → String → Result CredentialsError (List (String × String))
query_pairs out query =
    if query == ""
    then ok []
    else elim (out.parse_qsl query) [ none ↦ err malformed_query | some pairs ↦ ok pairs ]

unfoldable pub override : List (String × String) → Record → Result CredentialsError Record
unfolding contains insert
override [] rec = ok rec
override ((name, value) ∷ pairs) rec = do
  raise_if (contains name secret_fields) (secret_in_query name)
  raise_if (not (contains name overridable)) (unknown_query_key name)
  override pairs (insert name (text value) rec)

-- `rec.get(name) is not None`
abbrev pub is_given : Option YamlValue → Bool
is_given none = false
is_given (some null) = false
is_given (some _) = true

unfoldable pub with_mode : Record → Record
unfolding lookup insert
with_mode rec =
    if is_given (lookup "sslrootcert" rec) && not (is_given (lookup "sslmode" rec))
    then insert "sslmode" (text "verify-full") rec
    else rec

abbrev pub read_int : Outside → YamlValue → Result CredentialsError ℤ
read_int out (flag b) = err bad_port
read_int out v = elim (out.int v) [ none ↦ err bad_port | some n ↦ ok n ]

abbrev pub read_port : Outside → Option YamlValue → Result CredentialsError ℤ
read_port out none = ok (pos 5432)
read_port out (some v) = read_int out v

abbrev pub is_valid : String → YamlValue → Bool
is_valid key (text s) = true
is_valid key null = contains key query_keys
is_valid key _ = false

unfoldable pub check_texts : Record → Result CredentialsError Unit
unfolding contains
check_texts [] = ok tt
check_texts ((key, v) ∷ values) = do
  raise_if (not (key == "port" || is_valid key v)) (not_text key)
  check_texts values

-- A value that was checked.
abbrev pub required_text : String → Option YamlValue → Result CredentialsError String
required_text key (some (text s)) = ok s
required_text key _ = err (not_text key)

abbrev pub optional_text : Option YamlValue → Option String
optional_text (some (text s)) = some s
optional_text _ = none

abbrev pub unknown_in : Record → List String
unknown_in rec = keep (λ k. not (contains k known)) (keys rec)

abbrev pub missing_in : Record → List String
missing_in rec = keep (λ k. not (is_some (lookup k rec))) required

-- `PgCredentials.from_mapping`, of a dictionary.
unfoldable pub from_mapping : Outside → Record → Result CredentialsError PgCredentials
unfolding check_texts lookup contains keep
from_mapping out rec = do
  raise_if (not (is_empty (unknown_in rec))) (unknown_keys (unknown_in rec))
  raise_if (not (is_empty (missing_in rec))) (missing_keys (missing_in rec))
  port ← read_port out (lookup "port" rec)
  check_texts rec
  host ← required_text "host" (lookup "host" rec)
  dbname ← required_text "dbname" (lookup "dbname" rec)
  user ← required_text "user" (lookup "user" rec)
  password ← required_text "password" (lookup "password" rec)
  ok (record {
    host = host;
    dbname = dbname;
    user = user;
    password = password;
    port = port;
    sslmode = optional_text (lookup "sslmode" rec);
    sslrootcert = optional_text (lookup "sslrootcert" rec);
    sslcert = optional_text (lookup "sslcert" rec);
    sslkey = optional_text (lookup "sslkey" rec);
    options = optional_text (lookup "options" rec);
    hostaddr = optional_text (lookup "hostaddr" rec);
  })

-- `_build`
unfoldable pub build :
    Outside → YamlValue → List String → String → Result CredentialsError PgCredentials
unfolding merge_path apply_aliases use_ca override with_mode from_mapping
build out document path query = do
  merged ← merge_path document path
  renamed ← apply_aliases aliases merged
  rooted ← use_ca out renamed
  pairs ← query_pairs out query
  overridden ← override pairs rooted
  from_mapping out (with_mode overridden)

-- ===== src/Credentials/Tests.antt =====
-- A document of secrets with one role of one database.
use snakemake_storage_plugin.Base.{
  ◌≡◌, refl, String, true, none, some, List, [], ◌∷◌, Option, contains, keep, has_text, is_some,
  ◌⊎◌,
}
use snakemake_storage_plugin.Base.Result.{ok}
use snakemake_storage_plugin.Base.Dict.{lookup, insert, insert_all}
use snakemake_storage_plugin.Credentials.{
  ℤ, pos, YamlValue, text, number, mapping, entry, empty, Outside, PgCredentials, Record, child,
  levels_along, scalars, merge_levels, merge_path, remove, apply_alias, apply_aliases, use_ca,
  override, with_mode, check_texts, from_mapping, build,
}
use snakemake_storage_plugin.Credentials.Secrets.{build_secrets}
use snakemake_storage_plugin.Credentials.Verified.{build_verified}

abbrev number_of : YamlValue → Option ℤ
number_of (number n) = some n
number_of _ = none

abbrev python : Outside
python = record {
  int = number_of;
  parse_qsl = λ q. some (("hostaddr", "127.0.0.1") ∷ []);
  ca_file = λ pem. "/run/ca.pem";
}

abbrev loader : YamlValue
loader = mapping (entry "username" (text "loader_role") (entry "password" (text "secret") empty))

abbrev document : YamlValue
document = mapping (
    entry "analytics"
      (mapping (
        entry "host" (text "pg.example.net") (
          entry "port" (number (pos 20184)) (
            entry "database" (text "superset")
              (entry "ca" (text "-----BEGIN CERTIFICATE-----") (entry "loader" loader empty))))))
      empty)

abbrev loader_path : List String
loader_path = "analytics" ∷ "loader" ∷ []

abbrev expected : PgCredentials
expected = record {
  host = "pg.example.net";
  dbname = "superset";
  user = "loader_role";
  password = "secret";
  port = pos 20184;
  sslmode = some "verify-full";
  sslrootcert = some "/run/ca.pem";
  sslcert = none;
  sslkey = none;
  options = none;
  hostaddr = some "127.0.0.1";
}

built : build python document loader_path "hostaddr=127.0.0.1" ≡ ok expected
unfolding build merge_path levels_along child merge_levels scalars insert_all insert lookup remove
    apply_aliases apply_alias use_ca has_text override contains with_mode check_texts from_mapping
    keep
built = refl

build_secrets_example :
    (rec : Record) × (merge_path document loader_path ≡ ok rec)
    × (lookup "password" rec ≡ some (text "secret"))
    × ((lookup "user" rec ≡ some (text "loader_role"))
        ⊎ (lookup "username" rec ≡ some (text "loader_role")))
build_secrets_example =
    build_secrets python document loader_path "hostaddr=127.0.0.1" expected built

build_verified_example : is_some expected.sslmode ≡ true
build_verified_example =
    build_verified python document loader_path "hostaddr=127.0.0.1" expected built refl

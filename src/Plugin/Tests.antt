-- ===== src/Plugin/Tests.antt =====
-- A table that is live and a newer version of it that is staged.
use mathlib.Core.List.Memᴰ
use snakemake_storage_plugin.Base.{
  ◌≡◌, refl, sym, ap, ◌∙◌, ◌==◌, ℕ, zero, suc, String, true, false, Option, none, some, List, [],
  ◌∷◌, Memᴰ, map, contains, if◌then◌else◌, Bool-cases, inl, inr, eq_iff,
}
use snakemake_storage_plugin.Base.Result.{ok}
use snakemake_storage_plugin.Sql.{
  table, loaded, MarkerTable, table_updates, staged_updates, dataset_updates, contour_updates,
  component_updates, Row, text, moment,
}
use snakemake_storage_plugin.Sql.Effect.{text_in, column}
use snakemake_storage_plugin.Sql.Memory.{Memory, postgresql_memory}
use snakemake_storage_plugin.Meta.{marker_table_name, table_exists}
use snakemake_storage_plugin.Stage.{File}
use snakemake_storage_plugin.Planning.{Queries, key_column, snapshot, read_planning_state}
use snakemake_storage_plugin.Planning.Reads.{IsReading, json_row, is_typed}
use snakemake_storage_plugin.Plugin.{staged_object, exists_with_state, mtime_with_state}
use snakemake_storage_plugin.Plugin.Agrees.{exists_agrees}

-- Every name is a table here, in every schema, and `orders` has a row in two marker tables.
abbrev live_row : Row
live_row =
    ("table_name", text "orders") ∷ ("update_id", text "v1") ∷ ("published_at", moment 5) ∷ []

abbrev staged_row : Row
staged_row = ("table_name", text "orders") ∷ ("update_id", text "v2") ∷ ("staged_at", moment 6) ∷ []

abbrev row_in : MarkerTable → Option Row
row_in table_updates = some live_row
row_in staged_updates = some staged_row
row_in _ = none

abbrev restaged : Memory
restaged = record {
  catalog = λ r. some (record { kind = table; body = loaded 3; comment = none; grants = [] });
  rows = λ m k. if "orders" == k then row_in m else none;
  links = [];
}

-- The first character of the first text, in front of the second.
abbrev with_first : String → String → String
with_first String.[] s = s
with_first (String.◌∷◌ c t) s = String.◌∷◌ c s

-- Times are written as so many strokes.
unfoldable strokes : ℕ → String
strokes zero = ""
strokes (suc n) = with_first "1" (strokes n)

unfoldable strokes_in : String → ℕ
strokes_in String.[] = 0
strokes_in (String.◌∷◌ c s) = suc (strokes_in s)

strokes_back : (n : ℕ) → strokes_in (strokes n) ≡ n
unfolding strokes strokes_in
strokes_back zero = refl
strokes_back (suc n) = ap suc (strokes_back n)

abbrev json_in : Option Row → List Row
json_in none = []
json_in (some row) = json_row strokes row ∷ []

abbrev queries : Queries postgresql_memory
queries = record {
  existing = λ s.
      map marker_table_name (
        table_updates ∷ staged_updates ∷ dataset_updates ∷ contour_updates ∷ component_updates
        ∷ []);
  json_rows = λ s m. json_in (row_in m);
  acl = λ s role schema name. false;
  from_iso = strokes_in;
}

all_listed :
    (m : MarkerTable)
    → contains (marker_table_name m) (queries.existing restaged)
      ≡ table_exists postgresql_memory m restaged
unfolding contains table_exists
all_listed table_updates = refl
all_listed staged_updates = refl
all_listed dataset_updates = refl
all_listed contour_updates = refl
all_listed component_updates = refl

row_found :
    (m : MarkerTable) (k : String) (row : Row)
    → postgresql_memory.marker restaged m k ≡ some row
    → ("orders" ≡ k) × (row_in m ≡ some row)
row_found m k row h = elim (Bool-cases ("orders" == k)) [
  | inl e ↦ ((eq_iff "orders" k).0 e, rw e at h)
  | inr e ↦ absurd (cc (rw e at h))
]

typed_rows : (m : MarkerTable) (row : Row) → row_in m ≡ some row → is_typed row ≡ true
unfolding is_typed
typed_rows table_updates row h = let same : live_row ≡ row = cc h in rw⁻¹ same refl
typed_rows staged_updates row h = let same : staged_row ≡ row = cc h in rw⁻¹ same refl
typed_rows dataset_updates row h = cc h
typed_rows contour_updates row h = cc h
typed_rows component_updates row h = cc h

-- The JSON of the row, under the key `orders`.
row_key :
    (m : MarkerTable) (key : String) (row : Row)
    → key_column m ≡ some key
    → row_in m ≡ some row
    → text_in key (some (json_row strokes row)) ≡ some "orders"
unfolding json_row column
row_key table_updates key row e h =
    let column_name : "table_name" ≡ key = cc e in
    let same : live_row ≡ row = cc h in rw⁻¹ (column_name, same) refl
row_key staged_updates key row e h =
    let column_name : "table_name" ≡ key = cc e in
    let same : staged_row ≡ row = cc h in rw⁻¹ (column_name, same) refl
row_key dataset_updates key row e h = cc h
row_key contour_updates key row e h = cc h
row_key component_updates key row e h = cc h

json_given : (o : Option Row) (row : Row) → o ≡ some row → Memᴰ (json_row strokes row) (json_in o)
json_given none row h = cc h
json_given (some r) row h = let same : r ≡ row = cc h in rw same (Memᴰ.head refl)

json_only :
    (o : Option Row) (j : Row)
    → Memᴰ j (json_in o)
    → (row : Row) × (o ≡ some row) × (j ≡ json_row strokes row)
json_only none j m = elim m [ ]
json_only (some r) j m = (r, refl, Memᴰ.eq_of_singleton m)

restaged-IsReading : IsReading postgresql_memory queries restaged
restaged-IsReading = record {
  iso = strokes;
  reads_iso = strokes_back;
  tables = all_listed;
  typed = λ m k row h. typed_rows m row (row_found m k row h).1;
  given = λ m key k row e h.
      let (named, found) = row_found m k row h in
      (json_given (row_in m) row found, row_key m key row e found ∙ ap some named);
  only = λ m key k j e n f.
      let (row, found, is_json) = json_only (row_in m) j n in
      let named : "orders" ≡ k = cc (row_key m key row e found, f, is_json) in
      (row, rw (sym named) found, is_json);
}

abbrev v2_file : File
v2_file = record { update_id = "v2"; parquet_sha256 = "ab"; row_count = 3 }

restaged_read :
    read_planning_state postgresql_memory queries [] restaged
    ≡ ok (snapshot postgresql_memory queries [] restaged)
unfolding read_planning_state
restaged_read = refl

exists_agrees_example :
    (exists_with_state postgresql_memory
        (some (snapshot postgresql_memory queries [] restaged))
        staged_object
        "orders"
        (some v2_file)
        restaged
      ≡ exists_with_state postgresql_memory none staged_object "orders" (some v2_file) restaged)
    × (mtime_with_state postgresql_memory
          (some (snapshot postgresql_memory queries [] restaged))
          staged_object
          "orders"
          restaged
        ≡ mtime_with_state postgresql_memory none staged_object "orders" restaged)
exists_agrees_example =
    exists_agrees postgresql_memory queries [] restaged
      (snapshot postgresql_memory queries [] restaged) restaged-IsReading restaged_read
      staged_object "orders" (some v2_file) refl refl

-- ===== src/Planning/Reads.antt =====
-- The marker rows of a snapshot are those of the database.
use mathlib.Core.List.Memᴰ
use snakemake_storage_plugin.Base.{
  ◌≡◌, refl, sym, ap, ◌∙◌, String, Bool, true, false, not, ◌&&◌, Option, none, some, List, [], ◌∷◌,
  ℕ, Memᴰ, ◌==◌, if◌then◌else◌, contains, eq_iff, eq_refl, arith, Bool-cases, inl, inr,
}
use snakemake_storage_plugin.Base.Dict.{lookup, insert, lookup-insert}
use snakemake_storage_plugin.Sql.{MarkerTable, Row, Value, text, number, moment}
use snakemake_storage_plugin.Sql.Effect.{text_in}
use snakemake_storage_plugin.Sql.Server.{Server}
use snakemake_storage_plugin.Meta.{fetch_one, table_exists, marker_table_name}
use snakemake_storage_plugin.Planning.{
  key_column, is_datetime, Queries, parsed, decode, read_rows, read_marker,
}

-- `to_jsonb` of a value, with a time as the text `iso` writes.
abbrev pub json : (ℕ → String) → Value → Value
json iso (moment n) = text (iso n)
json iso v = v

unfoldable pub json_row : (ℕ → String) → Row → Row
json_row iso [] = []
json_row iso ((c, v) ∷ row) = (c, json iso v) ∷ json_row iso row

-- A value of its column's type: the times are in the columns that hold times, and no text is.
abbrev pub fits : String → Value → Bool
fits c (text v) = not (is_datetime c)
fits c (moment n) = is_datetime c
fits c (number n) = true

unfoldable pub is_typed : Row → Bool
is_typed [] = true
is_typed ((c, v) ∷ row) = fits c v && is_typed row

-- What PostgreSQL documents of the queries: the catalog lists the marker tables that exist, and a
-- marker table, whose key is its primary key, gives each of its rows as JSON, and only those; and
-- what Python documents of `fromisoformat`.
pub record IsReading (S : Server) (Q : Queries S) (s : S.State) : Type 0 where
  pub iso : ℕ → String
  pub reads_iso : (n : ℕ) → Q.from_iso (iso n) ≡ n
  pub tables :
      (m : MarkerTable) → contains (marker_table_name m) (Q.existing s) ≡ table_exists S m s
  pub typed :
      (m : MarkerTable) (k : String) (row : Row) → S.marker s m k ≡ some row → is_typed row ≡ true
  pub given :
      (m : MarkerTable) (key k : String) (row : Row)
      → key_column m ≡ some key
      → S.marker s m k ≡ some row
      → Memᴰ (json_row iso row) (Q.json_rows s m) × (text_in key (some (json_row iso row)) ≡ some k)
  pub only :
      (m : MarkerTable) (key k : String) (j : Row)
      → key_column m ≡ some key
      → Memᴰ j (Q.json_rows s m)
      → text_in key (some j) ≡ some k
      → (row : Row) × (S.marker s m k ≡ some row) × (j ≡ json_row iso row)

module _ (S : Server) (Q : Queries S) where
  parsed-json :
      (iso : ℕ → String)
      → ((n : ℕ) → Q.from_iso (iso n) ≡ n)
      → (c : String) (v : Value) → fits c v ≡ true
      → parsed S Q c (json iso v) ≡ v
  parsed-json iso back c (text v) h = rw (not_so (is_datetime c) h) refl
    where
      not_so : (b : Bool) → not b ≡ true → b ≡ false
      not_so b e = ground arith
  parsed-json iso back c (moment n) h = rw (h, back n) refl
  parsed-json iso back c (number n) h = refl

  decode-json_row :
      (iso : ℕ → String)
      → ((n : ℕ) → Q.from_iso (iso n) ≡ n)
      → (row : Row) → is_typed row ≡ true
      → decode S Q (json_row iso row) ≡ row
  unfolding decode json_row is_typed
  decode-json_row iso back [] h = refl
  decode-json_row iso back ((c, v) ∷ row) h =
      let (here, rest) = both (fits c v) _ h in
      rw (parsed-json iso back c v here, decode-json_row iso back row rest) refl
    where
      both : (a b : Bool) → (a && b) ≡ true → (a ≡ true) × (b ≡ true)
      both a b e = ground arith

  -- When every row under `k` decodes to the same one, that is what is read, if there is one.
  read_rows-same :
      (key k : String) (js : List Row) (rows : List (String × Row)) (o : Option Row)
      → ((j : Row) → Memᴰ j js → text_in key (some j) ≡ some k → some (decode S Q j) ≡ o)
      → lookup k rows ≡ o
      → lookup k (read_rows S Q key js rows) ≡ o
  unfolding read_rows
  read_rows-same key k [] rows o same start = start
  read_rows-same key k (j ∷ js) rows o same start =
      let ih = λ (r : List (String × Row)) (st : lookup k r ≡ o).
        read_rows-same key k js r o (λ x m. same x (Memᴰ.tail m)) st in
      by_key ih (text_in key (some j)) (same j (Memᴰ.head refl))
    where
      by_key :
          ((r : List (String × Row)) → lookup k r ≡ o → lookup k (read_rows S Q key js r) ≡ o)
          → (w : Option String) → (w ≡ some k → some (decode S Q j) ≡ o)
          → lookup k (elim w [
            | none ↦ read_rows S Q key js rows
            | some i ↦ read_rows S Q key js (insert i (decode S Q j) rows)
          ])
            ≡ o
      by_key ih none first = ih rows start
      by_key ih (some i) first = elim (Bool-cases (i == k)) [
        | inl e ↦
            ih (insert i (decode S Q j) rows)
              (lookup-insert i k (decode S Q j) rows ∙ (rw e (first (ap some ((eq_iff i k).0 e)))))
        | inr e ↦
            ih (insert i (decode S Q j) rows) (lookup-insert i k (decode S Q j) rows ∙ (rw e start))
      ]

  -- It is read, when there is one.
  read_rows-mem :
      (key k : String) (js : List Row) (rows : List (String × Row)) (v : Row)
      → ((j : Row) → Memᴰ j js → text_in key (some j) ≡ some k → decode S Q j ≡ v)
      → (x : Row) → Memᴰ x js
      → text_in key (some x) ≡ some k
      → lookup k (read_rows S Q key js rows) ≡ some v
  unfolding read_rows
  read_rows-mem key k [] rows v same x m e = elim m [ ]
  read_rows-mem key k (j ∷ js) rows v same x m e =
      let later = λ (y : Row) (n : Memᴰ y js). same y (Memᴰ.tail n) in
      elim (Memᴰ.cases_cons m) [
        | inl q ↦
            let here : text_in key (some j) ≡ some k = rw q at e in
            let first : decode S Q j ≡ v = same j (Memᴰ.head refl) here in
            at_key (text_in key (some j)) here (
              read_rows-same key k js (insert k (decode S Q j) rows) (some v)
                (λ y n f. ap some (later y n f))
                (lookup-insert k k (decode S Q j) rows ∙ rw (eq_refl k, first) refl))
        | inr n ↦ by_key (text_in key (some j)) (λ r. read_rows-mem key k js r v later x n e)
      ]
    where
      at_key :
          (w : Option String)
          → w ≡ some k
          → lookup k (read_rows S Q key js (insert k (decode S Q j) rows)) ≡ some v
          → lookup k (elim w [
            | none ↦ read_rows S Q key js rows
            | some i ↦ read_rows S Q key js (insert i (decode S Q j) rows)
          ])
            ≡ some v
      at_key none f put = absurd (cc f)
      at_key (some i) f put = let same_key : i ≡ k = cc f in rw same_key put

      by_key :
          (w : Option String)
          → ((r : List (String × Row)) → lookup k (read_rows S Q key js r) ≡ some v)
          → lookup k (elim w [
            | none ↦ read_rows S Q key js rows
            | some i ↦ read_rows S Q key js (insert i (decode S Q j) rows)
          ])
            ≡ some v
      by_key none ih = ih rows
      by_key (some i) ih = ih (insert i (decode S Q j) rows)

  -- A marker row of the snapshot is that of the database, its times included.
  pub read_marker-fetch_one :
      (s : S.State)
      → IsReading S Q s
      → (m : MarkerTable) (key k : String) → key_column m ≡ some key
      → read_marker S Q s m (key_column m) k ≡ fetch_one S m k s
  unfolding fetch_one lookup
  read_marker-fetch_one s reading m key k e =
      rw (e, reading.tables m) (when_there (table_exists S m s))
    where
      decoded :
          (j : Row)
          → Memᴰ j (Q.json_rows s m)
          → text_in key (some j) ≡ some k
          → some (decode S Q j) ≡ S.marker s m k
      decoded j n f =
          let (row, found, is_json) = reading.only m key k j e n f in
          rw is_json (
            ap some
              (decode-json_row reading.iso reading.reads_iso row (reading.typed m k row found))
            ∙ sym found)

      by_row :
          (o : Option Row)
          → S.marker s m k ≡ o
          → lookup k (read_rows S Q key (Q.json_rows s m) []) ≡ o
      by_row none f =
          read_rows-same key k (Q.json_rows s m) [] none (λ j n g. decoded j n g ∙ f) refl
      by_row (some row) f =
          let (n, g) = reading.given m key k row e f in
          read_rows-mem key k (Q.json_rows s m) [] row (λ j l q. cc (decoded j l q, f))
            (json_row reading.iso row) n g

      when_there :
          (b : Bool)
          → (if b then lookup k (read_rows S Q key (Q.json_rows s m) []) else none)
            ≡ (if b then S.marker s m k else none)
      when_there true = by_row (S.marker s m k) refl
      when_there false = refl

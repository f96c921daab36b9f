-- ===== src/Engine.antt =====
-- workflow/scripts/sqlsink/engine.py: the settings of a publish, the lock timeout and the upsert.
-- `environ` is `os.environ.get`. Digits outside ASCII are not modelled.
pub mod Upsert
use mathlib.Core.List.{reverse}
use snakemake_storage_plugin.Base.{
  ℕ, String, Bool, true, false, not, ◌&&◌, ◌||◌, Option, none, some, List, [], ◌∷◌, ◌++◌,
  if◌then◌else◌, is_some, map,
}
use snakemake_storage_plugin.Base.Result.{Result, ok, err}
use snakemake_storage_plugin.Base.Text.{codes, is_space, drop_while, strip, lower, among, between}
use snakemake_storage_plugin.Sql.{
  MarkerTable, Row, Value, moment, set_lock_timeout, insert_row, update_row, upsert_row,
}
use snakemake_storage_plugin.Sql.Server.{Server}
use snakemake_storage_plugin.Sql.Exec.{
  Exec, SinkError, value_error, execute, ◌>>=◌, ◌>>◌, when, gets, lift, pure,
}

abbrev pub Environ : Type 0
Environ = String → Option String

abbrev is_blank : List ℕ → Bool
is_blank [] = true
is_blank (c ∷ cs) = false

abbrev is_digit : ℕ → Bool
is_digit = between b'0' b'9'

-- `^\d+\s*(us|ms|s|min|h|d)?$` on a stripped text.
unfoldable pub is_lock_timeout : List ℕ → Bool
unfolding drop_while is_space among
is_lock_timeout [] = false
is_lock_timeout (c ∷ cs) =
    is_digit c
    && among (drop_while is_space (drop_while is_digit cs))
        ("" ∷ "us" ∷ "ms" ∷ "s" ∷ "min" ∷ "h" ∷ "d" ∷ [])

-- The value's text, else the environment's.
abbrev given_or : Option String → Option String → Option String
given_or (some v) e = some v
given_or none e = e

unfoldable pub check_lock_timeout : List ℕ → Result SinkError (Option (List ℕ))
unfolding is_lock_timeout
check_lock_timeout [] = ok none
check_lock_timeout (c ∷ cs) =
    if is_lock_timeout (c ∷ cs) then ok (some (c ∷ cs)) else err value_error

unfoldable pub resolve_lock_timeout : Option String → Environ → Result SinkError (Option (List ℕ))
unfolding check_lock_timeout strip codes
resolve_lock_timeout value environ = elim (given_or value (environ "SQLSINK_LOCK_TIMEOUT")) [
  | none ↦ ok none
  | some v ↦ check_lock_timeout (strip (codes v))
]

abbrev bool_true : List String
bool_true = "1" ∷ "true" ∷ "yes" ∷ "on" ∷ []

abbrev bool_false : List String
bool_false = "0" ∷ "false" ∷ "no" ∷ "off" ∷ []

unfoldable pub resolve_keep_old : Option Bool → Environ → Bool
unfolding strip lower among codes
resolve_keep_old (some value) environ = value
resolve_keep_old none environ = elim (environ "SQLSINK_KEEP_OLD") [
  | none ↦ false
  | some raw ↦ among (lower (strip (codes raw))) bool_true
]

unfoldable pub check_analyze : List ℕ → Result SinkError Bool
unfolding among lower
check_analyze [] = ok true
check_analyze (c ∷ cs) =
    let normalized = lower (c ∷ cs) in
    if among normalized bool_true
    then ok true
    else if among normalized bool_false
    then ok false
    else err value_error

unfoldable pub resolve_analyze : Option Bool → Environ → Result SinkError Bool
unfolding check_analyze strip codes
resolve_analyze (some value) environ = ok value
resolve_analyze none environ = elim (environ "SQLSINK_ANALYZE") [
  | none ↦ ok true
  | some raw ↦ check_analyze (strip (codes raw))
]

-- `now_cols` has one name or none at every call.
abbrev pub with_now : Option String → ℕ → Row → Row
with_now none now values = values
with_now (some col) now values = (col, moment now) ∷ values

module _ (S : Server) where
  abbrev pub set_timeout : Option (List ℕ) → Exec S.State Unit
  set_timeout none = pure tt
  set_timeout (some value) = when S.is_postgresql (execute S (set_lock_timeout value))

  -- `apply_lock_timeout` with a value that was not resolved before.
  unfoldable pub apply_given_timeout : Environ → Option String → Exec S.State Unit
  unfolding resolve_lock_timeout
  apply_given_timeout environ value = do
    resolved ← lift (resolve_lock_timeout value environ)
    set_timeout resolved

  -- With what the caller's own `resolve_lock_timeout` returned. It is resolved again: a text stays
  -- what it is, and for None the environment is asked once more.
  unfoldable pub apply_lock_timeout : Environ → Option (List ℕ) → Exec S.State Unit
  apply_lock_timeout environ none = do
    resolved ← lift (resolve_lock_timeout none environ)
    set_timeout resolved
  apply_lock_timeout environ (some value) = set_timeout (some value)

  -- On PostgreSQL a new row has its time from the column's `server_default=func.now()`.
  unfoldable pub upsert_by_pk : MarkerTable → String → Row → Option String → Exec S.State Unit
  upsert_by_pk t key values now_col = do
    now ← gets S.now
    let row = with_now now_col now values
    if S.is_postgresql then execute S (upsert_row t key row) else do
      existing ← gets (λ s. S.marker s t key)
      if is_some existing
          then execute S (update_row t key row)
          else execute S (insert_row t key row)

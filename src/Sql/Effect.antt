-- ===== src/Sql/Effect.antt =====
-- What SQL documents of a statement that succeeds: the catalog and the marker rows after it.
use snakemake_storage_plugin.Base.{
  ◌≡◌, ◌↔◌, arith, eq_iff, String, Bool, true, false, ◌&&◌, ◌||◌, Option, none, some, [], ◌∷◌, ◌==◌,
  if◌then◌else◌, contains, keep, any, List, not, ℕ,
}
use snakemake_storage_plugin.Sql.{
  drop_group, ref_in, Link, same_link, delete_links, delete_link, insert_link, Ref, same_ref,
  same_grantee, table, defined, loaded, Relation, MarkerTable, table_updates, staged_updates,
  dataset_updates, contour_updates, component_updates, Value, text, number, Row, Statement, rename,
  drop, moment, drop_if_exists, create, create_empty, load_rows, set_comment, revoke_all, grant,
  insert_row, update_row, upsert_row, touch_rows, delete_rows, create_markers,
}

abbrev pub Catalog : Type 0
Catalog = Ref → Option Relation

abbrev pub Markers : Type 0
Markers = MarkerTable → String → Option Row

abbrev pub same_marker_table : MarkerTable → MarkerTable → Bool
same_marker_table table_updates table_updates = true
same_marker_table staged_updates staged_updates = true
same_marker_table dataset_updates dataset_updates = true
same_marker_table contour_updates contour_updates = true
same_marker_table component_updates component_updates = true
same_marker_table _ _ = false

-- The names of the tables that metadata.py declares.
abbrev pub is_marker_name : String → Bool
is_marker_name n = contains n (
    "_pipeline_meta_table_updates" ∷ "_pipeline_meta_staged_updates"
    ∷ "_pipeline_meta_dataset_updates" ∷ "_pipeline_meta_staged_dataset_updates"
    ∷ "_pipeline_meta_contour_updates" ∷ "_pipeline_meta_staged_contour_updates"
    ∷ "_pipeline_meta_component_updates" ∷ "_pipeline_meta_staged_component_updates"
    ∷ "_pipeline_meta_dataset_components" ∷ [])

abbrev pub change : (Relation → Relation) → Option Relation → Option Relation
change f none = none
change f (some r) = some (f r)

abbrev pub created_if_missing : Option String → String → Option Relation → Option Relation
created_if_missing (some schema) n o = o
created_if_missing none n (some rel) = some rel
created_if_missing none n none =
    if is_marker_name n
    then some (record { kind = table; body = loaded 0; comment = none; grants = [] })
    else none

abbrev pub relation_after : Statement → Catalog → Catalog
relation_after (rename _ r new) c x =
    if same_ref (record r { name = new }) x then c r else if same_ref r x then none else c x
relation_after (drop _ r) c x = if same_ref r x then none else c x
relation_after (drop_group _ rs) c x = if ref_in x rs then none else c x
relation_after (drop_if_exists _ r) c x = if same_ref r x then none else c x
relation_after (create kind r select) c x =
    if same_ref r x
    then some (record { kind = kind; body = defined select; comment = none; grants = [] })
    else c x
relation_after (create_empty r) c x =
    if same_ref r x
    then some (record { kind = table; body = loaded 0; comment = none; grants = [] })
    else c x
relation_after (load_rows r n) c x =
    if same_ref r x then change (λ rel. record rel { body = loaded n }) (c x) else c x
relation_after (set_comment _ r words) c x =
    if same_ref r x then change (λ rel. record rel { comment = words }) (c x) else c x
relation_after (revoke_all r who) c x =
    if same_ref r x
    then change (λ rel. record rel { grants = keep (λ g. not (same_grantee g.0 who)) rel.grants })
        (c x)
    else c x
relation_after (grant privilege r who) c x =
    if same_ref r x
    then change (λ rel. record rel { grants = (who, privilege) ∷ rel.grants }) (c x)
    else c x
relation_after create_markers c x = created_if_missing x.schema x.name (c x)
relation_after _ c x = c x

-- The value of a column in a row.
unfoldable pub column : String → Row → Option Value
column c [] = none
column c ((d, v) ∷ row) = if d == c then some v else column c row

-- The text in a column of a row, where there is one.
abbrev pub text_in : String → Option Row → Option String
text_in col none = none
text_in col (some row) = elim (column col row) [ some (text t) ↦ some t | _ ↦ none ]

abbrev pub same_option : Option String → Option String → Bool
same_option none none = true
same_option (some a) (some b) = a == b
same_option _ _ = false

pub same_option_iff : (a b : Option String) → (same_option a b ≡ true) ↔ (a ≡ b)
same_option_iff none none = ground arith
same_option_iff none (some b) = ground arith
same_option_iff (some a) none = ground arith
same_option_iff (some a) (some b) = ground (arith, eq_iff a b)

-- The number in a column of a row; 0 where there is none.
abbrev pub number_in : String → Option Row → ℕ
number_in col none = 0
number_in col (some row) = elim (column col row) [ some (number n) ↦ n | _ ↦ 0 ]

-- The time in a column of a row; 0 where there is none.
abbrev pub moment_in : String → Option Row → ℕ
moment_in col none = 0
moment_in col (some row) = elim (column col row) [ some (moment n) ↦ n | _ ↦ 0 ]

-- The given values in front of the row's own: the first value of a column counts.
abbrev pub assign : Row → Option Row → Row
assign values none = values
assign values (some row) = prepend values row
  where
    prepend : Row → Row → Row
    prepend [] row = row
    prepend (v ∷ vs) row = v ∷ prepend vs row

-- An UPDATE of no row changes nothing.
abbrev pub assign_row : Row → Option Row → Option Row
assign_row values none = none
assign_row values (some row) = some (assign values (some row))

-- `now` is the transaction's timestamp.
abbrev pub touch_row : ℕ → Option Row → Option Row
touch_row now none = none
touch_row now (some row) = some (("published_at", moment now) ∷ row)

abbrev pub marker_after : ℕ → Statement → Markers → Markers
marker_after now (insert_row t k values) m u j =
    if same_marker_table t u && k == j then some values else m u j
marker_after now (update_row t k values) m u j =
    if same_marker_table t u && k == j then assign_row values (m u j) else m u j
marker_after now (upsert_row t k values) m u j =
    if same_marker_table t u && k == j then some (assign values (m u j)) else m u j
marker_after now (touch_rows t ks) m u j =
    if same_marker_table t u && contains j ks then touch_row now (m u j) else m u j
marker_after now (delete_rows t ks) m u j =
    if same_marker_table t u && contains j ks then none else m u j
marker_after now _ m u j = m u j

-- Which rows the table of dataset components holds.
abbrev pub Links : Type 0
Links = Link → Bool

abbrev pub has_link : List Link → Links
has_link ls l = any (same_link l) ls

abbrev pub linked_after : Statement → Links → Links
linked_after (delete_links ds) has l = not (contains l.dataset ds) && has l
linked_after (delete_link d c) has l = not (l.dataset == d && l.component == c) && has l
linked_after (insert_link new) has l = same_link l new || has l
linked_after _ has l = has l

-- ===== src/Publish/Tables/Around.antt =====
-- What the statements around the loop of a publish of tables leave alone.
use snakemake_storage_plugin.Base.{
  ◌≡◌, refl, sym, ap, ◌∙◌, Bool, true, false, String, Option, none, some, List, [], ◌∷◌, Memᴰ, inl,
  inr, ℕ, contains, map, Bool-cases, if◌then◌else◌,
}
use snakemake_storage_plugin.Sql.{
  Ref, plain, table_updates, Row, set_lock_timeout, touch_rows, drop_if_exists, analyze, table,
  same_ref, same_ref_iff, Statement,
}
use snakemake_storage_plugin.Sql.Effect.{column, touch_row}
use snakemake_storage_plugin.Sql.Server.{Server, IsServer}
use snakemake_storage_plugin.Sql.Exec.{execute}
use snakemake_storage_plugin.Sql.Keeps.{
  Keeps, Keeps-bind, Keeps-pure, Keeps-lift, Keeps-when, Keeps-begin, Keeps-for_each,
  Keeps-best_effort, Keeps-relation, Keeps-marker, Keeps-execute,
}
use snakemake_storage_plugin.Engine.{Environ, apply_lock_timeout, set_timeout, resolve_lock_timeout}
use snakemake_storage_plugin.Sql.Effect.{text_in}
use snakemake_storage_plugin.Publish.{
  version_of, refresh_markers, attempt, drop_old_tables, analyze_relations, distinct_refs,
}

module _ (S : Server) (laws : IsServer S) where
  -- Statements that take no relation away, in the transaction or after it.
  set_timeout-relation :
      (x : Ref) (l : Option (List ℕ)) → Keeps (λ s. S.relation s x) (set_timeout S l)
  set_timeout-relation x none = Keeps-pure _ tt
  set_timeout-relation x (some w) =
      Keeps-when _ S.is_postgresql _ (Keeps-relation S laws x (set_lock_timeout w) (λ c. refl))

  pub apply_lock_timeout-relation :
      (x : Ref) (v : Environ) (l : Option (List ℕ))
      → Keeps (λ s. S.relation s x) (apply_lock_timeout S v l)
  unfolding apply_lock_timeout
  apply_lock_timeout-relation x v none =
      Keeps-bind _ _ _ (Keeps-lift _ (resolve_lock_timeout none v)) (set_timeout-relation x)
  apply_lock_timeout-relation x v (some w) = set_timeout-relation x (some w)

  set_timeout-marker :
      (k : String) (l : Option (List ℕ)) → Keeps (λ s. S.marker s table_updates k) (set_timeout S l)
  set_timeout-marker k none = Keeps-pure _ tt
  set_timeout-marker k (some w) =
      Keeps-when _ S.is_postgresql _
        (Keeps-marker S laws table_updates k (set_lock_timeout w) (λ n c. refl))

  pub apply_lock_timeout-marker :
      (k : String) (v : Environ) (l : Option (List ℕ))
      → Keeps (λ s. S.marker s table_updates k) (apply_lock_timeout S v l)
  unfolding apply_lock_timeout
  apply_lock_timeout-marker k v none =
      Keeps-bind _ _ _ (Keeps-lift _ (resolve_lock_timeout none v)) (set_timeout-marker k)
  apply_lock_timeout-marker k v (some w) = set_timeout-marker k (some w)

  pub refresh_markers-relation :
      (x : Ref) (names : List String)
      → Keeps (λ s. S.relation s x) (refresh_markers S table_updates names)
  unfolding refresh_markers
  refresh_markers-relation x [] = Keeps-pure _ tt
  refresh_markers-relation x (n ∷ ns) =
      Keeps-relation S laws x (touch_rows table_updates (n ∷ ns)) (λ c. refl)

  attempt-relation :
      (x : Ref) (v : Environ) (l : Option (List ℕ)) (q : Statement)
      → Keeps (λ s. S.relation s x) (execute S q)
      → Keeps (λ s. S.relation s x) (attempt S v l q)
  unfolding attempt
  attempt-relation x v l q k = Keeps-best_effort _ _ (
      Keeps-begin S _ _ (λ s t. laws.relation-rollback s t x)
        (Keeps-bind _ _ _ (apply_lock_timeout-relation x v l) (λ _. k)))

  plain_mem :
      (y : String) (r : Ref) (ys : List String) → Memᴰ r (map plain ys) → r ≡ plain y → Memᴰ y ys
  plain_mem y r [] m e = elim m [ ]
  plain_mem y r (x ∷ ys) (Memᴰ.head q) e = Memᴰ.head (ap (λ z. z.name) (sym e ∙ q))
  plain_mem y r (x ∷ ys) (Memᴰ.tail m) e = Memᴰ.tail (plain_mem y r ys m e)

  pub drop_old_tables-relation :
      (y : String) (v : Environ) (l : Option (List ℕ)) (olds : List String)
      → ¬ Memᴰ y olds
      → Keeps (λ s. S.relation s (plain y)) (drop_old_tables S v l (map plain olds))
  unfolding drop_old_tables
  drop_old_tables-relation y v l olds far = Keeps-for_each _ _ (map plain olds) λ r m.
      attempt-relation (plain y) v l _ (
        Keeps-relation S laws (plain y) (drop_if_exists table r) λ c.
          elim (Bool-cases (same_ref r (plain y))) [
            | inl e ↦ absurd (far (plain_mem y r olds m ((same_ref_iff r (plain y)).0 e)))
            | inr e ↦ rw e refl
          ])

  pub analyze_relations-relation :
      (x : Ref) (v : Environ) (l : Option (List ℕ)) (rs : List Ref)
      → Keeps (λ s. S.relation s x) (analyze_relations S v l rs)
  unfolding analyze_relations
  analyze_relations-relation x v l rs = Keeps-when _ S.is_postgresql _ (
      Keeps-for_each _ _ (distinct_refs [] rs)
        λ r m. attempt-relation x v l _ (Keeps-relation S laws x (analyze r) (λ c. refl)))

  -- The version that a marker row carries survives the statements around the loop.
  abbrev pub version : String → S.State → Option String
  version k s = version_of S table_updates "update_id" k s

  pub refresh_markers-version :
      (k : String) (names : List String) → Keeps (version k) (refresh_markers S table_updates names)
  unfolding refresh_markers column
  refresh_markers-version k [] = Keeps-pure _ tt
  refresh_markers-version k (n ∷ ns) =
      Keeps-execute S _ (touch_rows table_updates (n ∷ ns)) λ s t h.
        ap (text_in "update_id")
          (laws.marker-run (touch_rows table_updates (n ∷ ns)) s t h table_updates k)
        ∙ touched (S.now s) (contains k (n ∷ ns)) (S.marker s table_updates k)
    where
      touched :
          (now : ℕ) (b : Bool) (o : Option Row)
          → text_in "update_id" (if b then touch_row now o else o) ≡ text_in "update_id" o
      touched now true none = refl
      touched now true (some row) = refl
      touched now false o = refl

  -- Statements that touch no marker row.
  attempt-marker :
      (k : String) (v : Environ) (l : Option (List ℕ)) (q : Statement)
      → Keeps (λ s. S.marker s table_updates k) (execute S q)
      → Keeps (λ s. S.marker s table_updates k) (attempt S v l q)
  unfolding attempt
  attempt-marker k v l q e = Keeps-best_effort _ _ (
      Keeps-begin S _ _ (λ s t. laws.marker-rollback s t table_updates k)
        (Keeps-bind _ _ _ (apply_lock_timeout-marker k v l) (λ _. e)))

  pub drop_old_tables-marker :
      (k : String) (v : Environ) (l : Option (List ℕ)) (rs : List Ref)
      → Keeps (λ s. S.marker s table_updates k) (drop_old_tables S v l rs)
  unfolding drop_old_tables
  drop_old_tables-marker k v l rs = Keeps-for_each _ _ rs λ r m.
      attempt-marker k v l _
        (Keeps-marker S laws table_updates k (drop_if_exists table r) (λ n c. refl))

  pub analyze_relations-marker :
      (k : String) (v : Environ) (l : Option (List ℕ)) (rs : List Ref)
      → Keeps (λ s. S.marker s table_updates k) (analyze_relations S v l rs)
  unfolding analyze_relations
  analyze_relations-marker k v l rs = Keeps-when _ S.is_postgresql _ (
      Keeps-for_each _ _ (distinct_refs [] rs) λ r m.
        attempt-marker k v l _ (Keeps-marker S laws table_updates k (analyze r) (λ n c. refl)))

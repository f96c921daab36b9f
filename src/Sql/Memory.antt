-- ===== src/Sql/Memory.antt =====
-- A server in memory, for runs of the code.
use snakemake_storage_plugin.Base.{
  ◌≡◌, refl, sym, ap, ◌∙◌, Bool, true, false, some, List, [], ◌∷◌, keep, contains, any, not, ◌&&◌,
  ◌==◌, arith, Bool-cases, inl, inr,
}
use snakemake_storage_plugin.Sql.{
  Statement, Link, same_link, same_link_iff, delete_links, delete_link, insert_link, rename, drop,
  drop_group, drop_if_exists, create, create_empty, load_rows, set_comment, revoke_all, grant,
  insert_row, update_row, upsert_row, touch_rows, delete_rows, create_markers, set_lock_timeout,
  xact_lock, analyze,
}
use snakemake_storage_plugin.Sql.Effect.{
  Catalog, Markers, relation_after, marker_after, has_link, linked_after,
}
use snakemake_storage_plugin.Sql.Server.{Server, IsServer}

pub record Memory : Type 0 where
  pub catalog : Catalog
  pub rows : Markers
  pub links : List Link

abbrev links_after : Statement → List Link → List Link
links_after (delete_links ds) ls = keep (λ l. not (contains l.dataset ds)) ls
links_after (delete_link d c) ls = keep (λ l. not (l.dataset == d && l.component == c)) ls
links_after (insert_link new) ls = new ∷ ls
links_after _ ls = ls

abbrev after : Statement → Memory → Memory
after q s = record {
  catalog = relation_after q s.catalog;
  rows = marker_after 7 q s.rows;
  links = links_after q s.links;
}

-- DuckDB, without a refusal.
abbrev pub memory : Server
memory = record {
  State = Memory;
  is_postgresql = false;
  relation = λ s. s.catalog;
  marker = λ s. s.rows;
  link_rows = λ s. s.links;
  now = λ s. 7;
  run = λ q s. some (after q s);
  rollback = λ s t. s;
}

has_link-keep :
    (p : Link → Bool) (ls : List Link) (l : Link) → has_link (keep p ls) l ≡ (p l && has_link ls l)
unfolding any keep
has_link-keep p [] l = ground arith
has_link-keep p (x ∷ ls) l = elim (Bool-cases (same_link l x)) [
  | inl e ↦
      let same : p x ≡ p l = ap p (sym ((same_link_iff l x).0 e)) in
      elim (Bool-cases (p l)) [
        | inl f ↦ rw (same, f, e) refl
        | inr f ↦ rw (same, f, has_link-keep p ls l, f) refl
      ]
  | inr e ↦ elim (Bool-cases (p x)) [
    | inl f ↦ rw (f, e, has_link-keep p ls l) refl
    | inr f ↦ rw (f, e, has_link-keep p ls l) refl
  ]
]

has_link-after :
    (q : Statement) (ls : List Link) (l : Link)
    → has_link (links_after q ls) l ≡ linked_after q (has_link ls) l
unfolding any
has_link-after (delete_links ds) ls l = has_link-keep _ ls l
has_link-after (delete_link d c) ls l = has_link-keep _ ls l
has_link-after (insert_link new) ls l = refl
has_link-after (rename _ _ _) ls l = refl
has_link-after (drop _ _) ls l = refl
has_link-after (drop_group _ _) ls l = refl
has_link-after (drop_if_exists _ _) ls l = refl
has_link-after (create _ _ _) ls l = refl
has_link-after (create_empty _) ls l = refl
has_link-after (load_rows _ _) ls l = refl
has_link-after (set_comment _ _ _) ls l = refl
has_link-after (revoke_all _ _) ls l = refl
has_link-after (grant _ _ _) ls l = refl
has_link-after (insert_row _ _ _) ls l = refl
has_link-after (update_row _ _ _) ls l = refl
has_link-after (upsert_row _ _ _) ls l = refl
has_link-after (touch_rows _ _) ls l = refl
has_link-after (delete_rows _ _) ls l = refl
has_link-after create_markers ls l = refl
has_link-after (set_lock_timeout _) ls l = refl
has_link-after (xact_lock _) ls l = refl
has_link-after (analyze _) ls l = refl

pub memory-IsServer : IsServer memory
memory-IsServer = record {
  relation-run = λ q s t h r. ap (λ u. u.catalog r) (ran q s t h);
  marker-run = λ q s t h m k. ap (λ u. u.rows m k) (ran q s t h);
  linked-run = λ q s t h l. ap (λ u. has_link u.links l) (ran q s t h) ∙ has_link-after q s.links l;
  relation-rollback = λ s t r. refl;
  marker-rollback = λ s t m k. refl;
  linked-rollback = λ s t. refl;
}
  where
    ran : (q : Statement) (s t : Memory) → memory.run q s ≡ some t → t ≡ after q s
    ran q s t h = cc h

-- The same with PostgreSQL's name.
abbrev pub postgresql_memory : Server
postgresql_memory = record memory { is_postgresql = true }

pub postgresql_memory-IsServer : IsServer postgresql_memory
postgresql_memory-IsServer = record {
  relation-run = memory-IsServer.relation-run;
  marker-run = memory-IsServer.marker-run;
  linked-run = memory-IsServer.linked-run;
  relation-rollback = memory-IsServer.relation-rollback;
  marker-rollback = memory-IsServer.marker-rollback;
  linked-rollback = memory-IsServer.linked-rollback;
}

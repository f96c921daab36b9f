-- ===== src/Reconcile/Only.antt =====
-- What a prune leaves alone: all that its report does not list as obsolete.
use snakemake_storage_plugin.Base.{
  ◌≡◌, refl, sym, ap, ◌∙◌, Bool, true, false, not, ◌&&◌, ◌||◌, String, Option, none, some, List, [],
  ◌∷◌, ◌==◌, Memᴰ, any, any-mem, keep, mem-keep, map, contains, arith,
}
use snakemake_storage_plugin.Base.Result.{Result}
use snakemake_storage_plugin.Sql.{
  Ref, same_ref, ref_in, Kind, table, MarkerTable, table_updates, dataset_updates, contour_updates,
  component_updates, Link, Relation, drop, drop_group, delete_rows, delete_link, xact_lock,
}
use snakemake_storage_plugin.Sql.Effect.{same_marker_table, has_link}
use snakemake_storage_plugin.Sql.Server.{Server, IsServer}
use snakemake_storage_plugin.Sql.Exec.{SinkError, execute}
use snakemake_storage_plugin.Sql.Keeps.{
  Keeps, kept, Keeps-pure, Keeps-gets, Keeps-read, Keeps-bind, Keeps-if, Keeps-when, Keeps-raise_if,
  Keeps-begin, Keeps-for_each, Keeps-relation, Keeps-marker, Keeps-linked,
}
use snakemake_storage_plugin.Meta.{advisory_lock}
use snakemake_storage_plugin.Publish.{publish_lock_key}
use snakemake_storage_plugin.Reconcile.{
  ManagedKind, plain_table, dataset, component, plain_marker, dataset_marker, contour_marker,
  component_marker, component_link, ManagedObject,
}
use snakemake_storage_plugin.Reconcile.Prune.{
  Report, ref_of, is_of, is_schema, drop_found, drop_relation, drop_tables, drop_schema,
  forget_link, delete_marker, marker_table, forget_as, forget, prune_block, execute_prune, prune,
}

-- The object stands for that relation, that marker row, or that row of the dataset components.
abbrev pub takes_relation : Ref → ManagedObject → Bool
takes_relation x o =
    (is_of dataset o || (is_of plain_table o || is_of component o)) && same_ref (ref_of o) x

abbrev is_row : Option MarkerTable → String → MarkerTable → String → Bool
is_row none n m k = false
is_row (some t) n m k = same_marker_table t m && n == k

abbrev pub takes_marker : MarkerTable → String → ManagedObject → Bool
takes_marker m k o = is_row (marker_table o.kind) o.name m k

abbrev is_owned_by : Option String → String → Bool
is_owned_by none d = false
is_owned_by (some owner) d = d == owner

abbrev pub takes_link : Link → ManagedObject → Bool
takes_link l o = is_of component_link o && (is_owned_by o.owner l.dataset && l.component == o.name)

ref_in-false :
    (x : Ref) (os : List ManagedObject)
    → ((o : ManagedObject) → Memᴰ o os → same_ref (ref_of o) x ≡ false)
    → ref_in x (map ref_of os) ≡ false
unfolding ref_in
ref_in-false x [] far = refl
ref_in-false x (o ∷ os) far =
    rw (far o (Memᴰ.head refl)) (ref_in-false x os (λ p m. far p (Memᴰ.tail m)))

module _ (S : Server) {V : Type 0} (look : S.State → V) (obsolete : List ManagedObject)
    (relation_free : (o : ManagedObject)
      → Memᴰ o obsolete
      → ((is_of dataset o || (is_of plain_table o || is_of component o)) ≡ true)
      → (k : Kind) → Keeps look (execute S (drop k (ref_of o))))
    (group_free : (os : List ManagedObject)
      → ((o : ManagedObject) → Memᴰ o os → Memᴰ o obsolete × (is_of component o ≡ true))
      → Keeps look (execute S (drop_group table (map ref_of os))))
    (forget_free : (o : ManagedObject) → Memᴰ o obsolete → Keeps look (forget S o))
    (lock_free : Keeps look (execute S (xact_lock publish_lock_key)))
    (back : (s t : S.State) → look (S.rollback s t) ≡ look s) where
  drop_relation-Keeps :
      (o : ManagedObject)
      → Memᴰ o obsolete
      → (is_of dataset o || (is_of plain_table o || is_of component o)) ≡ true
      → Keeps look (drop_relation S o)
  unfolding drop_relation
  drop_relation-Keeps o m r = Keeps-bind look _ _ (Keeps-gets look _) found
    where
      found : (f : Option Relation) → Keeps look (drop_found S (ref_of o) f)
      found none = Keeps-pure look tt
      found (some rel) = relation_free o m r rel.kind

  drop_tables-Keeps :
      (os : List ManagedObject)
      → ((o : ManagedObject) → Memᴰ o os → Memᴰ o obsolete × (is_of component o ≡ true))
      → Keeps look (drop_tables S os)
  drop_tables-Keeps [] part = Keeps-pure look tt
  drop_tables-Keeps (o ∷ os) part = group_free (o ∷ os) part

  drop_schema-Keeps :
      (os : List ManagedObject)
      → ((o : ManagedObject) → Memᴰ o os → Memᴰ o obsolete × (is_of component o ≡ true))
      → Keeps look (drop_schema S os)
  unfolding drop_schema
  drop_schema-Keeps os part = Keeps-read look _ _ λ s.
      Keeps-bind look _ _
        (Keeps-for_each look _ _ λ o m.
          let (listed, is_component) = part o (mem-keep _ os m).0 in
          drop_relation-Keeps o listed (of_component _ _ _ is_component))
        λ _. drop_tables-Keeps _ (λ o m. part o (mem-keep _ os m).0)
    where
      of_component : (a b c : Bool) → c ≡ true → (a || (b || c)) ≡ true
      of_component a b c e = ground arith

  execute_prune-Keeps : Keeps look (execute_prune S obsolete)
  unfolding execute_prune prune_block advisory_lock
  execute_prune-Keeps = Keeps-begin S look _ back (
      Keeps-bind look _ _ (Keeps-when look S.is_postgresql _ lock_free) λ _.
        Keeps-bind look _ _
          (Keeps-for_each look _ _ (λ o m.
            let (l, e) = mem-keep _ obsolete m in drop_relation-Keeps o l (rw e (ground arith))))
          λ _.
            Keeps-bind look _ _
              (Keeps-for_each look _ _ (λ o m.
                let (l, e) = mem-keep _ obsolete m in
                drop_relation-Keeps o l (rw e (ground arith))))
              λ _.
                Keeps-bind look _ _
                  (Keeps-for_each look _ _ (λ schema m. drop_schema-Keeps _ λ o n.
                    mem-keep (is_of component) obsolete
                      (mem-keep (is_schema schema) (keep (is_of component) obsolete) n).0))
                  λ _. Keeps-for_each look _ obsolete forget_free)

  prune-Keeps : (r : Report) (b : Bool) → r.obsolete ≡ obsolete → Keeps look (prune S r b)
  unfolding prune
  prune-Keeps r b e = Keeps-bind look _ _ (Keeps-raise_if look _ _) λ _.
      Keeps-if look (not b) _ _ (Keeps-pure look r) (
        Keeps-bind look _ _ (Keeps-raise_if look _ _)
          λ _. Keeps-bind look _ _ (rw e execute_prune-Keeps) λ _. Keeps-pure look r)

module _ (S : Server) (laws : IsServer S) where
  module _ {V : Type 0} (look : S.State → V) (o : ManagedObject)
      (row : (t : MarkerTable)
        → marker_table o.kind ≡ some t
        → Keeps look (execute S (delete_rows t (o.name ∷ []))))
      (link : (w : String)
        → o.kind ≡ component_link
        → o.owner ≡ some w
        → Keeps look (execute S (delete_link w o.name))) where
    links :
        (e : o.kind ≡ component_link) (w : Option String)
        → o.owner ≡ w
        → Keeps look (forget_link S w o.name)
    links e none q = Keeps-pure look tt
    links e (some w) q = link w e q

    rows :
        (t : Option MarkerTable) → marker_table o.kind ≡ t → Keeps look (delete_marker S t o.name)
    rows none e = Keeps-pure look tt
    rows (some t) e = row t e

    forget_as-Keeps : (k : ManagedKind) → o.kind ≡ k → Keeps look (forget_as S k o)
    forget_as-Keeps component_link e = links e o.owner refl
    forget_as-Keeps plain_marker e = rows (some table_updates) (ap marker_table e)
    forget_as-Keeps dataset_marker e = rows (some dataset_updates) (ap marker_table e)
    forget_as-Keeps contour_marker e = rows (some contour_updates) (ap marker_table e)
    forget_as-Keeps component_marker e = rows (some component_updates) (ap marker_table e)
    forget_as-Keeps plain_table e = Keeps-pure look tt
    forget_as-Keeps dataset e = Keeps-pure look tt
    forget_as-Keeps component e = Keeps-pure look tt

    forget-Keeps : Keeps look (forget S o)
    unfolding forget
    forget-Keeps = forget_as-Keeps o.kind refl

prune-relation :
    (S : Server)
    → IsServer S
    → (r : Report) (execute_it : Bool) (s t : S.State) (p : Result SinkError Report)
    → prune S r execute_it s ≡ (p, t)
    → (x : Ref) → any (takes_relation x) r.obsolete ≡ false
    → S.relation t x ≡ S.relation s x
unfolding ref_in
prune-relation S laws r b s t p h x free =
    kept
      (prune-Keeps S (λ s. S.relation s x) r.obsolete
        (λ o m e k. Keeps-relation S laws x _ (λ c. rw (apart o m e) refl))
        (λ os part. Keeps-relation S laws x _ λ c.
          rw (ref_in-false x os (λ o m. let (l, e) = part o m in apart o l (rw e (ground arith))))
            refl)
        (λ o m.
          forget-Keeps S laws _ o (λ q e. Keeps-relation S laws x _ (λ c. refl))
            (λ w e q. Keeps-relation S laws x _ (λ c. refl)))
        (Keeps-relation S laws x _ (λ c. refl)) (λ u v. laws.relation-rollback u v x) r b refl)
      s h
  where
    apart :
        (o : ManagedObject)
        → Memᴰ o r.obsolete
        → (is_of dataset o || (is_of plain_table o || is_of component o)) ≡ true
        → same_ref (ref_of o) x ≡ false
    apart o m e = right_false _ _ e (any-mem (takes_relation x) r.obsolete free m)
      where
        right_false : (a b : Bool) → a ≡ true → (a && b) ≡ false → b ≡ false
        right_false a b e f = ground arith

prune-marker :
    (S : Server)
    → IsServer S
    → (r : Report) (execute_it : Bool) (s t : S.State) (p : Result SinkError Report)
    → prune S r execute_it s ≡ (p, t)
    → (m : MarkerTable) (k : String) → any (takes_marker m k) r.obsolete ≡ false
    → S.marker t m k ≡ S.marker s m k
unfolding contains
prune-marker S laws r b s t p h m k free =
    kept
      (prune-Keeps S (λ s. S.marker s m k) r.obsolete
        (λ o n e kind. Keeps-marker S laws m k _ (λ now c. refl))
        (λ os part. Keeps-marker S laws m k _ (λ now c. refl))
        (λ o n.
          forget-Keeps S laws _ o
            (λ q e. Keeps-marker S laws m k _ (λ now c. ground (arith, apart o q n e)))
            (λ w e q. Keeps-marker S laws m k _ (λ now c. refl)))
        (Keeps-marker S laws m k _ (λ now c. refl)) (λ u v. laws.marker-rollback u v m k) r b refl)
      s h
  where
    apart :
        (o : ManagedObject) (q : MarkerTable)
        → Memᴰ o r.obsolete
        → marker_table o.kind ≡ some q
        → (same_marker_table q m && o.name == k) ≡ false
    apart o q n e =
        ap (λ t. is_row t o.name m k) (sym e) ∙ any-mem (takes_marker m k) r.obsolete free n

prune-linked :
    (S : Server)
    → IsServer S
    → (r : Report) (execute_it : Bool) (s t : S.State) (p : Result SinkError Report)
    → prune S r execute_it s ≡ (p, t)
    → (l : Link) → any (takes_link l) r.obsolete ≡ false
    → has_link (S.link_rows t) l ≡ has_link (S.link_rows s) l
prune-linked S laws r b s t p h l free =
    kept
      (prune-Keeps S (λ s. has_link (S.link_rows s) l) r.obsolete
        (λ o n e kind. Keeps-linked S laws l _ (λ c. refl))
        (λ os part. Keeps-linked S laws l _ (λ c. refl))
        (λ o n.
          forget-Keeps S laws _ o (λ q e. Keeps-linked S laws l _ (λ c. refl))
            (λ w e q. Keeps-linked S laws l _ (λ c. rw (apart o w n e q) refl)))
        (Keeps-linked S laws l _ (λ c. refl))
        (λ u v. ap (λ ls. has_link ls l) (laws.linked-rollback u v)) r b refl)
      s h
  where
    apart :
        (o : ManagedObject) (w : String)
        → Memᴰ o r.obsolete
        → o.kind ≡ component_link
        → o.owner ≡ some w
        → (l.dataset == w && l.component == o.name) ≡ false
    apart o w n e q = let it = any-mem (takes_link l) r.obsolete free n in rw (e, q) at it

-- A prune of any report, whether it returns or raises: a relation, a marker row or a recorded
-- dataset component for which no obsolete object of the report stands is what it was.
pub prune_only_obsolete :
    (S : Server)
    → IsServer S
    → (r : Report) (execute_it : Bool) (s t : S.State) (p : Result SinkError Report)
    → prune S r execute_it s ≡ (p, t)
    → (x : Ref) → any (takes_relation x) r.obsolete ≡ false
    → (m : MarkerTable) (k : String) → any (takes_marker m k) r.obsolete ≡ false
    → (l : Link) → any (takes_link l) r.obsolete ≡ false
    → (S.relation t x ≡ S.relation s x)
      × (S.marker t m k ≡ S.marker s m k)
      × (has_link (S.link_rows t) l ≡ has_link (S.link_rows s) l)
prune_only_obsolete S laws r b s t p h x fx m k fm l fl = (
  prune-relation S laws r b s t p h x fx,
  prune-marker S laws r b s t p h m k fm,
  prune-linked S laws r b s t p h l fl,
)

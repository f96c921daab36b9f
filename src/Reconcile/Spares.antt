-- ===== src/Reconcile/Spares.antt =====
-- No obsolete component stands where a desired one does.
use mathlib.Core.List.Memᴰ
use snakemake_storage_plugin.Base.{
  ◌≡◌, refl, sym, ap, ◌∙◌, Bool, true, false, not, ◌&&◌, ◌||◌, String, none, some, List, [], ◌∷◌,
  if◌then◌else◌, Memᴰ, any, keep, mem-keep, map, contains, inl, inr, Bool-cases, arith, eq_iff,
  eq_refl,
}
use snakemake_storage_plugin.Base.Result.{ok}
use snakemake_storage_plugin.Sql.{
  table_updates, dataset_updates, contour_updates, component_updates,
}
use snakemake_storage_plugin.Sql.Effect.{same_option, same_option_iff}
use snakemake_storage_plugin.Sql.Server.{Server}
use snakemake_storage_plugin.Sql.Exec.{bind-ok, pure-ok, raise_if-ok}
use snakemake_storage_plugin.Reconcile.{
  ManagedKind, component, plain_table, dataset, plain_marker, dataset_marker, contour_marker,
  ManagedObject, same_managed_kind, same_object, among, object, to_set, DesiredState,
  desired_objects, Listing, is_component_at, owner_of, is_private, keys_of, marker_objects,
  recorded, public_inventory, schema_inventory, inventory,
}
use snakemake_storage_plugin.Reconcile.Prune.{Report, outside, reconcile}

mem-to_set : (o : ManagedObject) (os : List ManagedObject) → Memᴰ o (to_set os) → Memᴰ o os
unfolding to_set
mem-to_set o [] m = m
mem-to_set o (x ∷ os) m = elim (Bool-cases (among x (to_set os))) [
  | inl e ↦ Memᴰ.tail (mem-to_set o os (rw e at m))
  | inr e ↦ elim (Memᴰ.cases_cons (rw e at m)) [
    | inl q ↦ Memᴰ.head q
    | inr n ↦ Memᴰ.tail (mem-to_set o os n)
  ]
]

-- Every element of a mapped list has what all images have.
mapped-all :
    {A : Type 0} (f : A → ManagedObject) (p : ManagedObject → Bool) (o : ManagedObject)
    (xs : List A)
    → ((x : A) → p (f x) ≡ false)
    → Memᴰ o (map f xs)
    → p o ≡ false
mapped-all f p o [] all m = elim m [ ]
mapped-all f p o (x ∷ xs) all m = elim (Memᴰ.cases_cons m) [
  | inl e ↦ rw e (all x)
  | inr n ↦ mapped-all f p o xs all n
]

component-kind : (k : ManagedKind) → same_managed_kind k component ≡ true → k ≡ component
component-kind component e = refl
component-kind plain_table e = cc
component-kind dataset e = cc
component-kind ManagedKind.plain_marker e = cc
component-kind ManagedKind.dataset_marker e = cc
component-kind ManagedKind.contour_marker e = cc
component-kind ManagedKind.component_marker e = cc
component-kind ManagedKind.component_link e = cc

both_true : (p q : Bool) → (p && q) ≡ true → (p ≡ true) × (q ≡ true)
both_true p q e = ground arith

-- An object at the place of a component that is wanted, with the owner found there, is wanted.
owned_among :
    (schema name : String) (wanted : List ManagedObject)
    → any (is_component_at schema name) wanted ≡ true
    → among (object component name (some schema) (owner_of schema name wanted)) wanted ≡ true
unfolding any
owned_among schema name [] h = cc
owned_among schema name (o ∷ os) h = elim (Bool-cases (is_component_at schema name o)) [
  | inl e ↦
      let owner : owner_of schema name (o ∷ os) ≡ o.owner = rw e refl in
      ap (λ w. among (object component name (some schema) w) (o ∷ os)) owner ∙ first e
  | inr e ↦
      let owner : owner_of schema name (o ∷ os) ≡ owner_of schema name os = rw e refl in
      ap (λ w. among (object component name (some schema) w) (o ∷ os)) owner
      ∙ later _ _ (owned_among schema name os (rw e at h))
]
  where
    first :
        is_component_at schema name o ≡ true
        → (same_object (object component name (some schema) o.owner) o
            || among (object component name (some schema) o.owner) os)
          ≡ true
    first e =
        let (k, e1) = both_true _ _ e in
        let (n, sc) = both_true _ _ e1 in
        let kind : o.kind ≡ component = component-kind o.kind k in
        let named : o.name ≡ name = (eq_iff o.name name).0 n in
        let placed : o.schema ≡ some schema = (same_option_iff o.schema (some schema)).0 sc in
        let own : same_option o.owner o.owner ≡ true = (same_option_iff o.owner o.owner).1 refl in
        rw (kind, named, placed, own, eq_refl name, eq_refl schema) refl

    later : (a b : Bool) → b ≡ true → (a || b) ≡ true
    later a b e = ground arith

module _ (S : Server) (listing : Listing S) where
  schema_inventory-mem :
      (wanted : List ManagedObject) (s : S.State) (schemas : List String) (o : ManagedObject)
      → Memᴰ o (schema_inventory S listing wanted s schemas)
      → (schema name : String) × (o
          ≡ object component name (some schema) (owner_of schema name wanted))
        × (is_private name ≡ false)
  unfolding schema_inventory
  schema_inventory-mem wanted s [] o m = elim m [ ]
  schema_inventory-mem wanted s (sc ∷ scs) o m =
      elim (Memᴰ.append_cases
        (if contains sc (listing.schema_names s)
          then map (λ name. object component name (some sc) (owner_of sc name wanted))
              (keep (λ name. not (is_private name)) (listing.names_in s sc))
          else [])
        m) [
          | inr n ↦ schema_inventory-mem wanted s scs o n
          | inl n ↦ elim (Bool-cases (contains sc (listing.schema_names s))) [
            | inl e ↦ here (listing.names_in s sc) (rw e at n)
            | inr e ↦ elim (rw e at n) [ ]
          ]
        ]
    where
      here :
          (names : List String)
          → Memᴰ o (
              map
                (λ name. object component name (some sc) (owner_of sc name wanted))
                (keep (λ name. not (is_private name)) names))
          → (schema name : String) × (o
              ≡ object component name (some schema) (owner_of schema name wanted))
            × (is_private name ≡ false)
      here names n =
          image (keep (λ name. not (is_private name)) names) (λ x k. (mem-keep _ names k).1) n
        where
          image :
              (xs : List String)
              → ((x : String) → Memᴰ x xs → not (is_private x) ≡ true)
              → Memᴰ o (map (λ name. object component name (some sc) (owner_of sc name wanted)) xs)
              → (schema name : String) × (o
                  ≡ object component name (some schema) (owner_of schema name wanted))
                × (is_private name ≡ false)
          image [] all k = elim k [ ]
          image (x ∷ xs) all k = elim (Memᴰ.cases_cons k) [
            | inl q ↦ (sc, x, q, let it = all x (Memᴰ.head refl) in ground arith)
            | inr r ↦ image xs (λ y l. all y (Memᴰ.tail l)) r
          ]

  recorded-other :
      (s : S.State) (o : ManagedObject)
      → Memᴰ o (recorded S listing s)
      → same_managed_kind o.kind component ≡ false
  recorded-other s o m = elim (Memᴰ.append_cases (marker_objects S listing s) m) [
    | inr l ↦ mapped-all _ other o (S.link_rows s) (λ x. refl) l
    | inl m1 ↦
        elim (Memᴰ.append_cases (map (of_marker plain_marker) (keys_of S listing table_updates s))
          m1) [
            | inl k ↦ mapped-all _ other o (keys_of S listing table_updates s) (λ x. refl) k
            | inr m2 ↦
                elim (Memᴰ.append_cases
                  (map (of_marker dataset_marker) (keys_of S listing dataset_updates s)) m2) [
                    | inl k ↦
                        mapped-all _ other o (keys_of S listing dataset_updates s) (λ x. refl) k
                    | inr m3 ↦
                        elim (Memᴰ.append_cases
                          (map (of_marker contour_marker) (keys_of S listing contour_updates s))
                          m3) [
                            | inl k ↦
                                mapped-all _ other o (keys_of S listing contour_updates s)
                                  (λ x. refl) k
                            | inr k ↦
                                mapped-all _ other o (keys_of S listing component_updates s)
                                  (λ x. refl) k
                          ]
                  ]
          ]
  ]
    where
      other : ManagedObject → Bool
      other o = same_managed_kind o.kind component

      of_marker : ManagedKind → String → ManagedObject
      of_marker kind k = object kind k none none

  -- A component of the inventory: its owner is that of the wanted component at its place.
  inventory-component :
      (wanted : List ManagedObject) (view_schema : String) (storage : List String) (s : S.State)
      (o : ManagedObject)
      → Memᴰ o (inventory S listing wanted view_schema storage s)
      → o.kind ≡ component
      → (schema name : String) × (o
          ≡ object component name (some schema) (owner_of schema name wanted))
        × (is_private name ≡ false)
  unfolding inventory public_inventory
  inventory-component wanted view_schema storage s o m k =
      let is_component : same_managed_kind o.kind component ≡ true = rw k refl in
      elim (Memᴰ.append_cases (recorded S listing s) (mem-to_set o _ m)) [
        | inl n ↦ absurd (cc (recorded-other s o n, is_component))
        | inr n ↦
            elim (Memᴰ.append_cases
              (public_inventory S listing (recorded S listing s) wanted view_schema s) n) [
                | inl p ↦ absurd (cc (not_public p, is_component))
                | inr q ↦ schema_inventory-mem wanted s _ o q
              ]
      ]
    where
      other : ManagedObject → Bool
      other o = same_managed_kind o.kind component

      public_other :
          (kind_is_plain : Bool)
          → same_managed_kind (if kind_is_plain then plain_table else dataset) component ≡ false
      public_other true = refl
      public_other false = refl

      not_public :
          Memᴰ o (public_inventory S listing (recorded S listing s) wanted view_schema s)
          → other o ≡ false
      not_public n = mapped-all _ other o _ (λ name. public_other _) n

reconcile-ok :
    (S : Server) (listing : Listing S) (state : DesiredState) (authoritative : Bool)
    (view_schema : String) (s t : S.State) (r : Report)
    → reconcile S listing state authoritative view_schema s ≡ (ok r, t)
    → (r.desired ≡ desired_objects state view_schema)
      × (r.obsolete
          ≡ outside (inventory S listing r.desired view_schema state.storage_schemas s) r.desired)
unfolding reconcile
reconcile-ok S listing state authoritative view_schema s t r h =
    let (u, m, first, rest) = bind-ok _ _ s t r h in
    let (actual, n, second, last) = bind-ok _ _ m t r rest in
    let (_, same_start) = raise_if-ok _ _ s m first in
    let (made, _) = pure-ok last in
    let (found, _) = pure-ok second in
    let wanted = desired_objects state view_schema in
    let want : r.desired ≡ wanted = ap (λ x. x.desired) (sym made) in
    (
      want,
      ap (λ x. x.obsolete) (sym made)
          ∙ (ap (λ a. outside a wanted) (sym found)
              ∙ (ap
                    (λ now.
                      outside (inventory S listing wanted view_schema state.storage_schemas now)
                        wanted)
                    same_start
                  ∙ ap (λ w. outside (inventory S listing w view_schema state.storage_schemas s) w)
                      (sym want))),
    )

-- A report of `reconcile` lists no component as obsolete that stands at the schema and the name of
-- a desired one, whatever their owners, and none that is private: a staging or a kept-old relation.
pub reconcile_spares_desired :
    (S : Server) (listing : Listing S) (state : DesiredState) (authoritative : Bool)
    (view_schema : String) (s t : S.State) (r : Report)
    → reconcile S listing state authoritative view_schema s ≡ (ok r, t)
    → (o : ManagedObject) → Memᴰ o r.obsolete
    → o.kind ≡ component
    → (is_private o.name ≡ false)
      × ((schema : String)
          → o.schema ≡ some schema
          → any (is_component_at schema o.name) r.desired ≡ false)
reconcile_spares_desired S listing state authoritative view_schema s t r h o m k =
    let (_, found) = reconcile-ok S listing state authoritative view_schema s t r h in
    let (there, not_wanted) = mem-keep (λ x. not (among x r.desired)) _ (rw found at m) in
    let (sc, name, e, public) =
      inventory-component S listing r.desired view_schema state.storage_schemas s o there k in
    let named : o.name ≡ name = ap (λ x. x.name) e in
    (
      rw named public,
      λ schema placed. elim (Bool-cases (any (is_component_at schema o.name) r.desired)) [
        | inr f ↦ f
        | inl w ↦
            let same : schema ≡ sc = cc (placed, ap (λ x. x.schema) e) in
            let listed = owned_among sc name r.desired (rw (sym same, sym named) w) in
            absurd (cc (not_wanted, ap (λ x. not (among x r.desired)) e, ap not listed))
      ],
    )

-- ===== src/Manifest/Steps.antt =====
-- What one join of the loop of `_check_joins` does to its state.
use mathlib.Core.List.{append-nil}
use snakemake_storage_plugin.Base.{
  is_empty, ◌≡◌, refl, String, Bool, true, false, not, ◌&&◌, ◌||◌, List, [], ◌∷◌, ◌==◌, Memᴰ,
  contains, eq_refl, sym, ◌++◌, if◌then◌else◌, Bool-cases, inl, inr, arith, eq_iff,
}
use snakemake_storage_plugin.Base.Result.{Result, ok, err, raise_if, >>=-eq-ok}
use snakemake_storage_plugin.Graph.{Edge}
use snakemake_storage_plugin.Manifest.{
  Component, Join, DatasetV2, Joined, component, covers_key, add_join, check_join, to_edge,
  ManifestError, left_of, not_yet_joined, joined_twice, bad_join_type, no_columns, multiplies_rows,
}

raised : {E : Type 0} (b : Bool) (e : E) (u : Unit) → raise_if b e ≡ ok u → b ≡ false
raised true e u h = absurd (cc h)
raised false e u h = refl

-- The join keeps the grain, or says that it does not.
abbrev pub IsGrainSafe : List Component → Join → Type 0
IsGrainSafe components j =
    (target : Component) × (component components j.component ≡ ok target)
    × ((covers_key j target || j.fan_out) ≡ true)

abbrev pub edge_of : String → Join → Result ManifestError Component → List Edge
edge_of base j (err _) = []
edge_of base j (ok target) =
    if covers_key j target then to_edge (left_of base j.left) j target ∷ [] else []

-- The edges that the joins declare: one for each join that covers the key of its component.
unfoldable pub declared : List Component → String → List Join → List Edge
unfolding component
declared components base [] = []
declared components base (j ∷ js) =
    edge_of base j (component components j.component) ++ declared components base js

-- The component is the base, or a join that covers its key leads to it from such a component.
pub data IsToOne (d : DatasetV2) (base : String) : String → Type 0 where
  at_base : IsToOne d base base
  joined_to :
      {j : Join} {target : Component}
      → Memᴰ j d.joins
      → component d.components j.component ≡ ok target
      → covers_key j target ≡ true
      → IsToOne d base (left_of base j.left)
      → IsToOne d base target.name

-- What one join that passes its checks does to the state of the loop.
pub record Stepped (components : List Component) (base : String) (j : Join) (st st' : Joined)
    : Type 0 where
  pub target : Component
  pub found : component components j.component ≡ ok target
  pub safe : (covers_key j target || j.fan_out) ≡ true
  pub left : contains (left_of base j.left) st.joined ≡ true
  pub new : contains target.name st.joined ≡ false
  pub added : st' ≡ add_join (left_of base j.left) j target st

pub check_join-Stepped :
    (components : List Component) (base : String) (j : Join) (st st' : Joined)
    → check_join components base j st ≡ ok st'
    → Stepped components base j st st'
unfolding check_join
check_join-Stepped components base j st st' h =
    let (target, e0, h0) = >>=-eq-ok (component components j.component) _ h in
    let (u1, e1, h1) =
      >>=-eq-ok (raise_if (not (contains (left_of base j.left) st.joined)) not_yet_joined) _ h0 in
    let (u2, e2, h2) = >>=-eq-ok (raise_if (contains target.name st.joined) joined_twice) _ h1 in
    let (u3, e3, h3) =
      >>=-eq-ok (raise_if (not (j.join_type == "inner" || j.join_type == "left")) bad_join_type) _
        h2 in
    let (u4, e4, h4) = >>=-eq-ok (raise_if (is_empty j.on) no_columns) _ h3 in
    let (u5, e5, h5) =
      >>=-eq-ok
        (raise_if (not (covers_key j target) && not j.fan_out) (multiplies_rows target.name)) _
        h4 in
    let unsafe = not (covers_key j target) && not j.fan_out in
    let passed : unsafe ≡ false = raised unsafe (multiplies_rows target.name) u5 e5 in
    record {
      target = target;
      found = e0;
      safe = one_of (covers_key j target) j.fan_out passed;
      left =
          double (contains (left_of base j.left) st.joined)
            (raised (not (contains (left_of base j.left) st.joined)) not_yet_joined u1 e1);
      new = raised (contains target.name st.joined) joined_twice u2 e2;
      added = cc h5;
    }
  where
    one_of : (a b : Bool) → (not a && not b) ≡ false → (a || b) ≡ true
    one_of a b h = ground arith

    double : (a : Bool) → not a ≡ false → a ≡ true
    double a h = ground arith

pub component-name :
    (cs : List Component) (n : String) (c : Component) → component cs n ≡ ok c → c.name ≡ n
unfolding component
component-name [] n c h = cc h
component-name (x ∷ cs) n c h = elim (Bool-cases (x.name == n)) [
  | inl e ↦ let same : x ≡ c = cc (rw e at h) in rw⁻¹ same ((eq_iff x.name n).0 e)
  | inr e ↦ component-name cs n c (rw e at h)
]

pub kept_true : (a b : Bool) → b ≡ true → (a || b) ≡ true
kept_true a b h = ground arith

-- The state that `add_join` makes, for a component that was not joined.
module _ (left : String) (j : Join) (c : Component) (st : Joined) where
  pub add_join-joined : (add_join left j c st).joined ≡ c.name ∷ st.joined
  unfolding add_join
  add_join-joined = elim (Bool-cases (covers_key j c)) [ inl e ↦ rw e refl | inr e ↦ rw e refl ]

  pub add_join-to_one :
      (x : String) → contains x st.to_one ≡ true → contains x (add_join left j c st).to_one ≡ true
  unfolding add_join contains
  add_join-to_one x h = elim (Bool-cases (covers_key j c)) [
    | inr e ↦ rw e h
    | inl e ↦ elim (Bool-cases (contains left st.to_one)) [
      | inl f ↦ rw (e, f) (kept_true (c.name == x) _ h)
      | inr f ↦ rw (e, f) h
    ]
  ]

  pub add_join-other :
      (x : String)
      → (c.name == x) ≡ false
      → contains x (add_join left j c st).to_one ≡ true
      → contains x st.to_one ≡ true
  unfolding add_join contains
  add_join-other x far h = elim (Bool-cases (covers_key j c)) [
    | inr e ↦ rw e at h
    | inl e ↦ elim (Bool-cases (contains left st.to_one)) [
      | inl f ↦ rw (e, f, far) at h
      | inr f ↦ rw (e, f) at h
    ]
  ]

  pub add_join-reaches :
      covers_key j c ≡ true
      → contains left st.to_one ≡ true
      → contains c.name (add_join left j c st).to_one ≡ true
  unfolding add_join contains
  add_join-reaches e f = rw (e, f, eq_refl c.name) refl

  pub add_join-edges :
      (add_join left j c st).edges
      ≡ st.edges ++ (if covers_key j c then to_edge left j c ∷ [] else [])
  unfolding add_join
  add_join-edges = elim (Bool-cases (covers_key j c)) [
    | inl e ↦ rw e refl
    | inr e ↦ rw e (sym (append-nil st.edges))
  ]

pub both_false : (a b : Bool) → (a || b) ≡ false → (a ≡ false) × (b ≡ false)
both_false a b h = ground arith

pub other_name :
    (x y : String) (ns : List String)
    → contains x ns ≡ true
    → contains y ns ≡ false
    → (y == x) ≡ false
other_name x y ns a b = elim (Bool-cases (y == x)) [
  | inr f ↦ f
  | inl e ↦ let same : y ≡ x = (eq_iff y x).0 e in absurd (cc (a, b, same))
]

-- ===== src/Sql/Keeps.antt =====
-- What an action leaves alone, whether it returns or raises: one rule for each way to build it.
use snakemake_storage_plugin.Base.{
  ◌≡◌, refl, sym, ap, ◌∙◌, Bool, true, false, String, Option, none, some, List, [], ◌∷◌, ℕ, Memᴰ,
  if◌then◌else◌,
}
use snakemake_storage_plugin.Base.Result.{Result, ok, err}
use snakemake_storage_plugin.Sql.{Ref, MarkerTable, Statement, Link}
use snakemake_storage_plugin.Sql.Effect.{
  relation_after, marker_after, Catalog, Markers, Links, has_link, linked_after,
}
use snakemake_storage_plugin.Sql.Server.{Server, IsServer}
use snakemake_storage_plugin.Sql.Exec.{
  Exec, SinkError, pure, gets, lift, raise_if, when, best_effort, for_each, execute, begin,
  continue, settle, ran, ◌>>=◌,
}

-- `look` shows after `m` what it showed before.
pub record Keeps {T V A : Type 0} (look : T → V) (m : Exec T A) : Type 0 where
  pub at : (s : T) → look (m s).1 ≡ look s

module _ {T V A : Type 0} {look : T → V} {m : Exec T A} where
  -- A result of `m` shows what was there before.
  pub kept : Keeps look m → (s : T) {p : Result SinkError A × T} → m s ≡ p → look p.1 ≡ look s
  kept k s h = ap (λ x. look x.1) (sym h) ∙ k.at s

module _ {T V : Type 0} (look : T → V) where
  module _ {A : Type 0} where
    pub Keeps-pure : (a : A) → Keeps look (pure a)
    Keeps-pure a = record { at = λ s. refl }

    pub Keeps-gets : (f : T → A) → Keeps look (gets f)
    Keeps-gets f = record { at = λ s. refl }

    pub Keeps-lift : (r : Result SinkError A) → Keeps look (lift {T = T} r)
    Keeps-lift r = record { at = λ s. refl }

  pub Keeps-raise_if : (b : Bool) (e : SinkError) → Keeps look (raise_if b e)
  Keeps-raise_if true e = record { at = λ s. refl }
  Keeps-raise_if false e = record { at = λ s. refl }

  pub Keeps-when : (b : Bool) (m : Exec T Unit) → Keeps look m → Keeps look (when b m)
  Keeps-when true m k = k
  Keeps-when false m k = record { at = λ s. refl }

  pub Keeps-if :
      {A : Type 0} (b : Bool) (m n : Exec T A)
      → Keeps look m
      → Keeps look n
      → Keeps look (if b then m else n)
  Keeps-if true m n k l = k
  Keeps-if false m n k l = l

  module _ {A B : Type 0} where
    continue-Keeps :
        (f : A → Exec T B)
        → ((a : A) → Keeps look (f a))
        → (p : Result SinkError A × T) → look (continue f p).1 ≡ look p.1
    continue-Keeps f kf (ok a, s) = (kf a).at s
    continue-Keeps f kf (err e, s) = refl

    pub Keeps-bind :
        (m : Exec T A) (f : A → Exec T B)
        → Keeps look m
        → ((a : A) → Keeps look (f a))
        → Keeps look (m >>= f)
    unfolding ◌>>=◌
    Keeps-bind m f km kf = record { at = λ s. continue-Keeps f kf (m s) ∙ km.at s }

  -- What follows a read knows that it was read.
  pub Keeps-read :
      {A B : Type 0} (f : T → A) (g : A → Exec T B)
      → ((s : T) → Keeps look (g (f s)))
      → Keeps look (gets f >>= g)
  unfolding ◌>>=◌
  Keeps-read f g k = record { at = λ s. (k s).at s }

  pub Keeps-for_each :
      {A : Type 0} (body : A → Exec T Unit) (xs : List A)
      → ((x : A) → Memᴰ x xs → Keeps look (body x))
      → Keeps look (for_each body xs)
  unfolding for_each
  Keeps-for_each body [] k = record { at = λ s. refl }
  Keeps-for_each body (x ∷ xs) k =
      Keeps-bind (body x) (λ _. for_each body xs) (k x (Memᴰ.head refl))
        (λ _. Keeps-for_each body xs (λ y m. k y (Memᴰ.tail m)))

  pub Keeps-best_effort : (m : Exec T Unit) → Keeps look m → Keeps look (best_effort m)
  unfolding best_effort
  Keeps-best_effort m k = record { at = k.at }

module _ (S : Server) {V : Type 0} (look : S.State → V) where
  settle-Keeps :
      {A : Type 0}
      → ((s t : S.State) → look (S.rollback s t) ≡ look s)
      → (s : S.State) (p : Result SinkError A × S.State) → look p.1 ≡ look s
      → look (settle S s p).1 ≡ look s
  settle-Keeps back s (ok a, t) h = h
  settle-Keeps back s (err e, t) h = back s t

  pub Keeps-begin :
      {A : Type 0} (m : Exec S.State A)
      → ((s t : S.State) → look (S.rollback s t) ≡ look s)
      → Keeps look m
      → Keeps look (begin S m)
  unfolding begin
  Keeps-begin m back k = record { at = λ s. settle-Keeps back s (m s) (k.at s) }

  ran-Keeps :
      (q : Statement) (s : S.State)
      → ((t : S.State) → S.run q s ≡ some t → look t ≡ look s)
      → (o : Option S.State) → S.run q s ≡ o
      → look (ran S q s o).1 ≡ look s
  ran-Keeps q s same none e = refl
  ran-Keeps q s same (some t) e = same t e

  pub Keeps-execute :
      (q : Statement)
      → ((s t : S.State) → S.run q s ≡ some t → look t ≡ look s)
      → Keeps look (execute S q)
  unfolding execute
  Keeps-execute q same = record { at = λ s. ran-Keeps q s (same s) (S.run q s) refl }

module _ (S : Server) (laws : IsServer S) where
  -- A statement that does not touch the relation `x`.
  pub Keeps-relation :
      (x : Ref) (q : Statement)
      → ((c : Catalog) → relation_after q c x ≡ c x)
      → Keeps (λ s. S.relation s x) (execute S q)
  Keeps-relation x q quiet =
      Keeps-execute S (λ s. S.relation s x) q
        (λ s t h. laws.relation-run q s t h x ∙ quiet (S.relation s))

  -- A statement that does not touch the marker row of `k` in `m`.
  pub Keeps-marker :
      (m : MarkerTable) (k : String) (q : Statement)
      → ((now : ℕ) (rows : Markers) → marker_after now q rows m k ≡ rows m k)
      → Keeps (λ s. S.marker s m k) (execute S q)
  Keeps-marker m k q quiet =
      Keeps-execute S (λ s. S.marker s m k) q
        (λ s t h. laws.marker-run q s t h m k ∙ quiet (S.now s) (S.marker s))

  -- A statement that does not touch the row `l` of the dataset components.
  pub Keeps-linked :
      (l : Link) (q : Statement)
      → ((has : Links) → linked_after q has l ≡ has l)
      → Keeps (λ s. has_link (S.link_rows s) l) (execute S q)
  Keeps-linked l q quiet =
      Keeps-execute S (λ s. has_link (S.link_rows s) l) q
        (λ s t h. laws.linked-run q s t h l ∙ quiet (has_link (S.link_rows s)))

-- ===== src/Sql/Exec.antt =====
-- Code that talks to the server and may raise. What was executed before an exception stays
-- executed until the enclosing `engine.begin()` rolls it back.
use snakemake_storage_plugin.Base.{
  ◌≡◌, refl, ap, Bool, true, false, String, Option, none, some, List, [], ◌∷◌, ◌⊎◌, inl, inr,
  if◌then◌else◌,
}
use snakemake_storage_plugin.Base.Result.{Result, ok, err}
use snakemake_storage_plugin.Sql.{Ref, MarkerTable, Statement}
use snakemake_storage_plugin.Sql.Effect.{relation_after, marker_after}
use snakemake_storage_plugin.Sql.Server.{Server, IsServer}

-- The exceptions that the modelled code raises, and `refused`, the server's own.
pub data SinkError : Type 0 where
  refused : Statement → SinkError
  publish_conflict : String → SinkError
  kept_old_exists : String → SinkError
  value_error : SinkError
  key_error : SinkError
  not_implemented : SinkError

-- An action on states of type `T`.
abbrev pub Exec : Type 0 → Type 0 → Type 0
Exec T A = T → Result SinkError A × T

module _ {T A : Type 0} where
  abbrev pub pure : A → Exec T A
  pure a s = (ok a, s)

  abbrev pub raise : SinkError → Exec T A
  raise e s = (err e, s)

  abbrev pub gets : (T → A) → Exec T A
  gets f s = (ok (f s), s)

  abbrev pub lift : Result SinkError A → Exec T A
  lift r s = (r, s)

module _ {T A B : Type 0} where
  abbrev pub continue : (A → Exec T B) → Result SinkError A × T → Result SinkError B × T
  continue f (ok a, s) = f a s
  continue f (err e, s) = (err e, s)

  infixl 5 ◌>>=◌ ◌>>◌
  unfoldable pub ◌>>=◌ : Exec T A → (A → Exec T B) → Exec T B
  ◌>>=◌ m f s = continue f (m s)

  abbrev pub ◌>>◌ : Exec T A → Exec T B → Exec T B
  m >> k = m >>= λ _. k

  continue-ok :
      (f : A → Exec T B) (p : Result SinkError A × T) (t : T) (b : B)
      → continue f p ≡ (ok b, t)
      → (a : A) × (u : T) × (p ≡ (ok a, u)) × (f a u ≡ (ok b, t))
  continue-ok f (ok a, u) t b h = (a, u, refl, h)
  continue-ok f (err e, u) t b h = absurd (cc (ap (λ x. x.0) h))

  -- A block that returned ran each of its parts to the end.
  pub bind-ok :
      (m : Exec T A) (f : A → Exec T B) (s t : T) (b : B)
      → (m >>= f) s ≡ (ok b, t)
      → (a : A) × (u : T) × (m s ≡ (ok a, u)) × (f a u ≡ (ok b, t))
  unfolding ◌>>=◌
  bind-ok m f s t b h = continue-ok f (m s) t b h

pub pure-ok : {T A : Type 0} {a b : A} {s t : T} → pure a s ≡ (ok b, t) → (a ≡ b) × (s ≡ t)
pure-ok h = (cc (ap (λ x. x.0) h), ap (λ x. x.1) h)

module _ {T : Type 0} where
  abbrev pub raise_if : Bool → SinkError → Exec T Unit
  raise_if true e = raise e
  raise_if false e = pure tt

  abbrev pub when : Bool → Exec T Unit → Exec T Unit
  when true m = m
  when false m = pure tt

  -- `try: … except Exception: log`
  unfoldable pub best_effort : Exec T Unit → Exec T Unit
  best_effort m s = (ok tt, (m s).1)

  -- `for x in xs: …`
  unfoldable pub for_each : {A : Type 0} → (A → Exec T Unit) → List A → Exec T Unit
  for_each body [] = pure tt
  for_each body (x ∷ xs) = body x >> for_each body xs

  pub raise_if-ok :
      (b : Bool) (e : SinkError) (s t : T) → raise_if b e s ≡ (ok tt, t) → (b ≡ false) × (t ≡ s)
  raise_if-ok true e s t h = absurd (cc (ap (λ x. x.0) h))
  raise_if-ok false e s t h = (refl, cc (ap (λ x. x.1) h))

pub if-cases :
    {T A : Type 0} (b : Bool) (m n : Exec T A) (s : T) (p : Result SinkError A × T)
    → (if b then m else n) s ≡ p
    → ((b ≡ true) × (m s ≡ p)) ⊎ ((b ≡ false) × (n s ≡ p))
if-cases true m n s p h = inl (refl, h)
if-cases false m n s p h = inr (refl, h)

module _ (S : Server) where
  abbrev pub ran : Statement → S.State → Option S.State → Result SinkError Unit × S.State
  ran q s none = (err (refused q), s)
  ran q s (some t) = (ok tt, t)

  -- `conn.execute(text(…))`
  unfoldable pub execute : Statement → Exec S.State Unit
  execute q s = ran q s (S.run q s)

  abbrev pub settle :
      {A : Type 0} → S.State → Result SinkError A × S.State → Result SinkError A × S.State
  settle s (ok a, t) = (ok a, t)
  settle s (err e, t) = (err e, S.rollback s t)

  -- `with engine.begin() as conn:`
  unfoldable pub begin : {A : Type 0} → Exec S.State A → Exec S.State A
  begin m s = settle s (m s)

  ran-ok :
      (q : Statement) (s t : S.State) (o : Option S.State) → ran q s o ≡ (ok tt, t) → o ≡ some t
  ran-ok q s t none h = absurd (cc (ap (λ x. x.0) h))
  ran-ok q s t (some u) h = ap (λ x. some x.1) h

  -- What a statement that was executed did to the catalog and to the markers.
  pub execute-relation :
      IsServer S
      → (q : Statement) (s t : S.State) → execute q s ≡ (ok tt, t)
      → (r : Ref) → S.relation t r ≡ relation_after q (S.relation s) r
  unfolding execute
  execute-relation laws q s t h = laws.relation-run q s t (ran-ok q s t (S.run q s) h)

  pub execute-marker :
      IsServer S
      → (q : Statement) (s t : S.State) → execute q s ≡ (ok tt, t)
      → (m : MarkerTable) (k : String) → S.marker t m k ≡ marker_after (S.now s) q (S.marker s) m k
  unfolding execute
  execute-marker laws q s t h = laws.marker-run q s t (ran-ok q s t (S.run q s) h)

  settle-ok :
      {A : Type 0} (s t : S.State) (a : A) (p : Result SinkError A × S.State)
      → settle s p ≡ (ok a, t)
      → p ≡ (ok a, t)
  settle-ok s t a (ok b, u) h = h
  settle-ok s t a (err e, u) h = absurd (cc (ap (λ x. x.0) h))

  pub begin-ok :
      {A : Type 0} (m : Exec S.State A) (s t : S.State) (a : A)
      → begin m s ≡ (ok a, t)
      → m s ≡ (ok a, t)
  unfolding begin
  begin-ok m s t a h = settle-ok s t a (m s) h

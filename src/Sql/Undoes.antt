-- ===== src/Sql/Undoes.antt =====
-- Actions that raise only where nothing was changed, and actions that never raise.
use snakemake_storage_plugin.Base.{◌≡◌, refl, sym, ◌∙◌, ap, Bool, true, false, List, [], ◌∷◌}
use snakemake_storage_plugin.Base.Result.{Result, ok, err}
use snakemake_storage_plugin.Sql.Server.{Server}
use snakemake_storage_plugin.Sql.Exec.{
  Exec, SinkError, pure, when, best_effort, for_each, begin, continue, settle, ◌>>=◌,
}
use snakemake_storage_plugin.Sql.Keeps.{Keeps}

-- Where `m` raises, `look` shows what it showed before.
pub record Undoes {T V A : Type 0} (look : T → V) (m : Exec T A) : Type 0 where
  pub at : (s t : T) (e : SinkError) → m s ≡ (err e, t) → look t ≡ look s

-- `m` never raises.
pub record Returns {T A : Type 0} (m : Exec T A) : Type 0 where
  pub at : (s t : T) (e : SinkError) → ¬ (m s ≡ (err e, t))

module _ {T : Type 0} where
  pub Returns-pure : {A : Type 0} (a : A) → Returns (pure {T = T} a)
  Returns-pure a = record { at = λ s t e h. cc (ap (λ x. x.0) h) }

  pub Returns-best_effort : (m : Exec T Unit) → Returns (best_effort m)
  unfolding best_effort
  Returns-best_effort m = record { at = λ s t e h. cc (ap (λ x. x.0) h) }

  pub Returns-when : (b : Bool) (m : Exec T Unit) → Returns m → Returns (when b m)
  Returns-when true m r = r
  Returns-when false m r = Returns-pure tt

  continue-Returns :
      {A B : Type 0} (f : A → Exec T B)
      → ((a : A) → Returns (f a))
      → (p : Result SinkError A × T) (t : T) (e : SinkError)
      → ((u : T) (d : SinkError) → ¬ (p ≡ (err d, u)))
      → ¬ (continue f p ≡ (err e, t))
  continue-Returns f rf (ok a, s) t e never h = (rf a).at s t e h
  continue-Returns f rf (err d, s) t e never h = never s d refl

  pub Returns-bind :
      {A B : Type 0} (m : Exec T A) (f : A → Exec T B)
      → Returns m
      → ((a : A) → Returns (f a))
      → Returns (m >>= f)
  unfolding ◌>>=◌
  Returns-bind m f r rf = record {
    at = λ s t e h. continue-Returns f rf (m s) t e (λ u d. r.at s u d) h;
  }

  pub Returns-for_each :
      {A : Type 0} (body : A → Exec T Unit) (xs : List A)
      → ((x : A) → Returns (body x))
      → Returns (for_each body xs)
  unfolding for_each
  Returns-for_each body [] r = Returns-pure tt
  Returns-for_each body (x ∷ xs) r =
      Returns-bind (body x) (λ _. for_each body xs) (r x) (λ _. Returns-for_each body xs r)

module _ {T V : Type 0} (look : T → V) where
  pub Undoes-Keeps : {A : Type 0} (m : Exec T A) → Keeps look m → Undoes look m
  Undoes-Keeps m k = record { at = λ s t e h. ap (λ x. look x.1) (sym h) ∙ k.at s }

  pub Undoes-Returns : {A : Type 0} (m : Exec T A) → Returns m → Undoes look m
  Undoes-Returns m r = record { at = λ s t e h. absurd (r.at s t e h) }

  continue-Undoes :
      {A B : Type 0} (f : A → Exec T B)
      → ((a : A) → Undoes look (f a))
      → (s0 : T) (p : Result SinkError A × T) (t : T) (e : SinkError) → look p.1 ≡ look s0
      → continue f p ≡ (err e, t)
      → look t ≡ look s0
  continue-Undoes f uf s0 (ok a, s) t e same h = (uf a).at s t e h ∙ same
  continue-Undoes f uf s0 (err d, s) t e same h = ap (λ x. look x.1) (sym h) ∙ same

  -- First a part that changes nothing visible, then one that undoes its changes when it raises.
  pub Undoes-after :
      {A B : Type 0} (m : Exec T A) (f : A → Exec T B)
      → Keeps look m
      → ((a : A) → Undoes look (f a))
      → Undoes look (m >>= f)
  unfolding ◌>>=◌
  Undoes-after m f k uf = record { at = λ s t e h. continue-Undoes f uf s (m s) t e (k.at s) h }

  continue-Undoes_first :
      {A B : Type 0} (f : A → Exec T B)
      → ((a : A) → Returns (f a))
      → (s0 : T) (p : Result SinkError A × T) (t : T) (e : SinkError)
      → ((u : T) (d : SinkError) → p ≡ (err d, u) → look u ≡ look s0)
      → continue f p ≡ (err e, t)
      → look t ≡ look s0
  continue-Undoes_first f rf s0 (ok a, s) t e back h = absurd ((rf a).at s t e h)
  continue-Undoes_first f rf s0 (err d, s) t e back h = ap (λ x. look x.1) (sym h) ∙ back s d refl

  -- First a part that undoes its changes when it raises, then one that never raises.
  pub Undoes-then :
      {A B : Type 0} (m : Exec T A) (f : A → Exec T B)
      → Undoes look m
      → ((a : A) → Returns (f a))
      → Undoes look (m >>= f)
  unfolding ◌>>=◌
  Undoes-then m f u rf = record {
    at = λ s t e h. continue-Undoes_first f rf s (m s) t e (λ v d. u.at s v d) h;
  }

module _ (S : Server) {V : Type 0} (look : S.State → V) where
  settle-Undoes :
      {A : Type 0}
      → ((s t : S.State) → look (S.rollback s t) ≡ look s)
      → (s : S.State) (p : Result SinkError A × S.State) (t : S.State) (e : SinkError)
      → settle S s p ≡ (err e, t)
      → look t ≡ look s
  settle-Undoes back s (ok a, u) t e h = absurd (cc (ap (λ x. x.0) h))
  settle-Undoes back s (err d, u) t e h = ap (λ x. look x.1) (sym h) ∙ back s u

  -- A transaction.
  pub Undoes-begin :
      {A : Type 0} (m : Exec S.State A)
      → ((s t : S.State) → look (S.rollback s t) ≡ look s)
      → Undoes look (begin S m)
  unfolding begin
  Undoes-begin m back = record { at = λ s t e h. settle-Undoes back s (m s) t e h }

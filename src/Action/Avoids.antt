-- ===== src/Action/Avoids.antt =====
-- Actions that never raise a given error.
use django_fsspec.Prelude.{◌≡◌, ◌≢◌, refl, ◌∙◌, ap, Bool, false, inl, inr, arith, Bool-cases}
use django_fsspec.Errors.{Error, Result, ok, err}
use django_fsspec.Models.{Db}
use django_fsspec.Action.{Action, lift, query_or_raise, raise_if, atomic, ◌>>=◌, ◌>>◌}
use django_fsspec.Action.Laws.{bind-err}

abbrev pub Avoids : {A : Type 0} → Error → Action A → Type 0
Avoids x m = (db db' : Db) → m db ≢ (err x, db')

module _ {A B : Type 0} (x : Error) where
  pub bind-Avoids :
      (m : Action A) (f : A → Action B)
      → Avoids x m
      → ((a : A) → Avoids x (f a))
      → Avoids x (m >>= f)
  bind-Avoids m f first next db db' h = elim (bind-err m f db db' h) [
    | inl raised ↦ first db db' raised
    | inr (a, d, ran, raised) ↦ next a d db' raised
  ]

  -- The value of a pure result, with the equation for what follows.
  pub lift-Avoids :
      (r : Result A) (f : A → Action B)
      → r ≢ err x
      → ((a : A) → r ≡ ok a → Avoids x (f a))
      → Avoids x (lift r >>= f)
  lift-Avoids r f first next db db' h = elim (bind-err (lift r) f db db' h) [
    | inl raised ↦ first (ap (λ p. p.0) raised)
    | inr (a, d, ran, raised) ↦ next a (ap (λ p. p.0) ran) d db' raised
  ]

  pub query-Avoids :
      (q : Db → Result A) (f : A → Action B)
      → ((db : Db) → q db ≢ err x)
      → ((a : A) → Avoids x (f a))
      → Avoids x (query_or_raise q >>= f)
  query-Avoids q f first next =
      bind-Avoids (query_or_raise q) f (λ db db' h. first db (ap (λ p. p.0) h)) next

module _ {A : Type 0} (x : Error) where
  pub guard-Avoids :
      (c : Bool) (y : Error) (m : Action A)
      → y ≢ x
      → (c ≡ false → Avoids x m)
      → Avoids x (raise_if c y >> m)
  guard-Avoids c y m other next db db' h = elim (Bool-cases c) [
    | inl raises ↦ other (ground (arith, h, raises))
    | inr goes_on ↦ next goes_on db db' (ground (arith, h, goes_on))
  ]

  pub atomic-Avoids : (m : Action A) → Avoids x m → Avoids x (atomic m)
  atomic-Avoids m avoids db db' h = go (m db) refl
    where
      rolled : Result A × Db → Result A × Db
      rolled (ok a, d) = (ok a, d)
      rolled (err y, d) = (err y, db)

      go : (p : Result A × Db) → m db ≡ p → ⊥
      go (ok a, d) ran = absurd (ground (arith, h, ran))
      go (err y, d) ran =
          let same : y ≡ x = ground (arith, h, ran) in avoids db d (ran ∙ ap (λ z. (err z, d)) same)

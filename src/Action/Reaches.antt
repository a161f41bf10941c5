-- ===== src/Action/Reaches.antt =====
-- Actions that, where they return, leave the database with a property.
use mathlib.Core.Path.{subst}
use django_fsspec.Prelude.{◌≡◌, refl, sym, ap, ◌∙◌, arith}
use django_fsspec.Errors.{Result, ok, err}
use django_fsspec.Models.{Db}
use django_fsspec.Action.{Action, ◌>>=◌, ◌>>◌, modify, atomic}
use django_fsspec.Action.Laws.{bind-ok}
use django_fsspec.Action.Keeps.{Keeps}

abbrev pub Reaches : {A : Type 0} → (Db → Type 0) → Action A → Type 0
Reaches {A} Q m = (db db' : Db) (a : A) → m db ≡ (ok a, db') → Q db'

module _ (Q : Db → Type 0) {B : Type 0} where
  pub bind-Reaches :
      {A : Type 0} (m : Action A) (f : A → Action B)
      → ((a : A) → Reaches Q (f a))
      → Reaches Q (m >>= f)
  bind-Reaches m f r db db' b h = let (a, d, ran, rest) = bind-ok m f db db' h in r a d db' b rest

  -- A change that establishes the property, and a rest that keeps it.
  pub modify-Reaches :
      (f : Db → Db) (k : Action B) → ((db : Db) → Q (f db)) → Keeps Q k → Reaches Q (modify f >> k)
  modify-Reaches f k made kept db db' b h = subst Q (ap (λ p. p.1) h) (kept (f db) (made db))

  pub atomic-Reaches : (m : Action B) → Reaches Q m → Reaches Q (atomic m)
  atomic-Reaches m r db db' b h = go (m db) refl
    where
      rolled : Result B × Db → Result B × Db
      rolled p = elim p.0 [ ok a ↦ (ok a, p.1) | err e ↦ (err e, db) ]

      go : (p : Result B × Db) → m db ≡ p → Q db'
      go (ok a, d) e = r db db' b (e ∙ sym (ap rolled e) ∙ h)
      go (err x, d) e =
          let h' : rolled (err x, d) ≡ (ok b, db') = sym (ap rolled e) ∙ h in
          absurd (ground (arith, h'))

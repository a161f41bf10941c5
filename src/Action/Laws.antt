-- ===== src/Action/Laws.antt =====
-- How a sequence of actions ends: inversion of `do` blocks.
use django_fsspec.Prelude.{◌≡◌, refl, sym, ap, ◌∙◌, ◌⊎◌, inl, inr, arith}
use django_fsspec.Errors.{Error, Result, ok, err}
use django_fsspec.Models.{Db}
use django_fsspec.Action.{Action, ◌>>=◌}

module _ {A B : Type 0} (m : Action A) (f : A → Action B) (db db' : Db) where
  abbrev continue : Result A × Db → Result B × Db
  continue p = elim p.0 [ ok a ↦ f a p.1 | err x ↦ (err x, p.1) ]

  pub bind-ok :
      {b : B}
      → (m >>= f) db ≡ (ok b, db')
      → (a : A) × (d : Db) × (m db ≡ (ok a, d)) × (f a d ≡ (ok b, db'))
  bind-ok {b} h = go (m db) refl
    where
      go :
          (p : Result A × Db)
          → m db ≡ p
          → (a : A) × (d : Db) × (m db ≡ (ok a, d)) × (f a d ≡ (ok b, db'))
      go (ok a, d) e = (a, d, e, sym (ap continue e) ∙ h)
      go (err x, d) e =
          let h' : continue (err x, d) ≡ (ok b, db') = sym (ap continue e) ∙ h in
          absurd (ground (arith, h'))

  -- Either the first action raised, or the second did after the first had returned.
  pub bind-err :
      {x : Error}
      → (m >>= f) db ≡ (err x, db')
      → (m db ≡ (err x, db')) ⊎ ((a : A) × (d : Db) × (m db ≡ (ok a, d)) × (f a d ≡ (err x, db')))
  bind-err {x} h = go (m db) refl
    where
      go :
          (p : Result A × Db)
          → m db ≡ p
          → (m db ≡ (err x, db'))
            ⊎ ((a : A) × (d : Db) × (m db ≡ (ok a, d)) × (f a d ≡ (err x, db')))
      go (ok a, d) e = inr (a, d, e, sym (ap continue e) ∙ h)
      go (err y, d) e =
          let h' : continue (err y, d) ≡ (err x, db') = sym (ap continue e) ∙ h in
          inl (e ∙ ground (arith, h'))

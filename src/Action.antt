-- ===== src/Action.antt =====
-- Code that reads and writes the database and may raise. What was written before a raise stays
-- written until an enclosing transaction rolls it back, so the state comes back with the error.
pub mod Laws
pub mod Keeps
pub mod Reaches
pub mod Avoids
use django_fsspec.Prelude.{Bool, if◌then◌else◌}
use django_fsspec.Errors.{Error, Result, ok, err}
use django_fsspec.Models.{Db}

abbrev pub Action : Type 0 → Type 0
Action A = Db → Result A × Db

module _ {A : Type 0} where
  abbrev pub pure : A → Action A
  pure a db = (ok a, db)

  abbrev pub raise : Error → Action A
  raise e db = (err e, db)

  abbrev pub lift : Result A → Action A
  lift r db = (r, db)

  -- a read
  abbrev pub query : (Db → A) → Action A
  query f db = (ok (f db), db)

  -- a read that may raise
  abbrev pub query_or_raise : (Db → Result A) → Action A
  query_or_raise f db = (f db, db)

  -- `with transaction.atomic()`: an exception rolls back to the state at entry.
  abbrev pub atomic : Action A → Action A
  atomic m db = let (r, db') = m db in elim r [ ok a ↦ (ok a, db') | err e ↦ (err e, db) ]

  -- `try: m except Exception: cleanup; raise`
  abbrev pub or_cleanup : Action A → Action (Unit {0}) → Action A
  or_cleanup m cleanup db =
      let (r, db') = m db in elim r [ ok a ↦ (ok a, db') | err e ↦ (err e, (cleanup db').1) ]

abbrev pub modify : (Db → Db) → Action (Unit {0})
modify f db = (ok tt, f db)

infixl 5 ◌>>=◌ ◌>>◌
abbrev pub ◌>>=◌ : {A B : Type 0} → Action A → (A → Action B) → Action B
◌>>=◌ first next db = let (r, db') = first db in elim r [ ok a ↦ next a db' | err e ↦ (err e, db') ]

abbrev pub ◌>>◌ : {A B : Type 0} → Action A → Action B → Action B
first >> next = first >>= λ _. next

abbrev pub raise_if : Bool → Error → Action (Unit {0})
raise_if c e db = (if c then err e else ok tt, db)

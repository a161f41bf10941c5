-- ===== src/Action/Keeps.antt =====
-- Actions that keep a property of the database, whether they return or raise.
use django_fsspec.Errors.{Result, ok, err}
use django_fsspec.Models.{Db}
use django_fsspec.Action.{Action, ◌>>=◌, query_or_raise, atomic}

abbrev pub Keeps : {A : Type 0} → (Db → Type 0) → Action A → Type 0
Keeps P m = (db : Db) → P db → P (m db).1

module _ (P : Db → Type 0) {A : Type 0} where
  -- What only reads.
  pub read-Keeps : (f : Db → Result A) → Keeps P (query_or_raise f)
  read-Keeps f db h = h

  pub atomic-Keeps : (m : Action A) → Keeps P m → Keeps P (atomic m)
  atomic-Keeps m k db h = go (m db) (k db h)
    where
      rolled : Result A × Db → Result A × Db
      rolled p = elim p.0 [ ok a ↦ (ok a, p.1) | err e ↦ (err e, db) ]

      go : (p : Result A × Db) → P p.1 → P (rolled p).1
      go (ok a, d) hp = hp
      go (err e, d) hp = h

  module _ {B : Type 0} where
    pub bind-Keeps :
        (m : Action A) (f : A → Action B)
        → Keeps P m
        → ((a : A) → Keeps P (f a))
        → Keeps P (m >>= f)
    bind-Keeps m f km kf db h = go (m db) (km db h)
      where
        continue : Result A × Db → Result B × Db
        continue p = elim p.0 [ ok a ↦ f a p.1 | err e ↦ (err e, p.1) ]

        go : (p : Result A × Db) → P p.1 → P (continue p).1
        go (ok a, d) hp = kf a d hp
        go (err e, d) hp = hp

    -- A read, and what follows it.
    pub after_read-Keeps :
        (f : Db → Result A) (k : A → Action B)
        → ((a : A) → Keeps P (k a))
        → Keeps P (query_or_raise f >>= k)
    after_read-Keeps f k kk = bind-Keeps (query_or_raise f) k (read-Keeps f) kk

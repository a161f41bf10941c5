-- ===== src/Tests/Tenants.antt =====
-- The theorem on the namespace command at a concrete input.
use django_fsspec.Prelude.{◌≡◌, refl, true, [], ◌∷◌}
use django_fsspec.Errors.{ok}
use django_fsspec.Text.{text}
use django_fsspec.Models.{Namespace, Db}
use django_fsspec.Commands.Namespaces.{Host, Subcommand, handle, delete_namespace}
use django_fsspec.Commands.Namespaces.Homes.{HasHomes, handle-HasHomes}
use django_fsspec.Tests.Sample.{env, db, sample_namespace}

-- A host with one group, on which every namespace is valid.
abbrev host : Host
host = record { groups = record { pk = 8; name = text "staff" } ∷ []; is_clean = λ n d. true }

abbrev other_namespace : Namespace
other_namespace = record sample_namespace { pk = 2; name = text "other" }

abbrev homes_db : Db
homes_db = record db { namespaces = sample_namespace ∷ other_namespace ∷ [] }

handle-HasHomes_example : HasHomes (handle env host (Subcommand.delete (text "other")) homes_db).1
handle-HasHomes_example = handle-HasHomes env host (Subcommand.delete (text "other")) homes_db refl

runs_delete : handle env host (Subcommand.delete (text "other")) homes_db ≡ (ok tt, db)
unfolding delete_namespace
runs_delete = refl

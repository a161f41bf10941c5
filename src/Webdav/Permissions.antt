-- ===== src/Webdav/Permissions.antt =====
-- webdav/permissions.py
use django_fsspec.Prelude.{
  ℕ, ◌≡◌, Bool, true, false, ◌&&◌, ◌||◌, not, Option, none, some, List, [], ◌∷◌, any, contains,
  arith, if◌then◌else◌,
}
use django_fsspec.Models.{Namespace, Db}
use django_fsspec.Models.Query.{get_namespace}

-- What the code asks of a Django user.
pub record User : Type 0 where
  pub is_anonymous : Bool
  pub is_authenticated : Bool
  pub is_superuser : Bool
  -- `has_perm` on the two permissions of the model `Namespace`
  pub may_read_namespaces : Bool
  pub may_write_namespaces : Bool
  pub groups : List ℕ

abbrev has_global_perm : User → Bool → Bool
has_global_perm user require_write =
    user.may_write_namespaces || (not require_write && user.may_read_namespaces)

-- `filter(id__in=user_group_ids).exists()`
abbrev shares_group : List ℕ → List ℕ → Bool
shares_group groups user_groups = any (λ g. contains g user_groups) groups

abbrev is_none_left : List ℕ → Bool
is_none_left [] = true
is_none_left (g ∷ gs) = false

abbrev pub has_group_perm : User → Bool → Namespace → Bool
has_group_perm user require_write n =
    if is_none_left user.groups
    then false
    else if require_write
    then shares_group n.write_groups user.groups
    else shares_group n.read_groups user.groups || shares_group n.write_groups user.groups

-- the part of `has_namespace_perm` for a user who is logged in
abbrev pub has_user_perm : User → ℕ → Bool → Db → Bool
has_user_perm user namespace_id require_write db =
    if user.is_superuser
    then true
    else if has_global_perm user require_write
    then true
    else elim (get_namespace namespace_id db) [
      | none ↦ false
      | some n ↦ has_group_perm user require_write n
    ]

unfoldable pub has_namespace_perm : Option User → ℕ → Bool → Db → Bool
has_namespace_perm none namespace_id require_write db = false
has_namespace_perm (some user) namespace_id require_write db =
    if user.is_anonymous || not user.is_authenticated
    then false
    else has_user_perm user namespace_id require_write db

-- Who may write a namespace may read it.
pub has_namespace_perm-write_read :
    (user : Option User) (namespace_id : ℕ) (db : Db)
    → has_namespace_perm user namespace_id true db ≡ true
    → has_namespace_perm user namespace_id false db ≡ true
unfolding has_namespace_perm
has_namespace_perm-write_read none namespace_id db h = h
has_namespace_perm-write_read (some user) namespace_id db h = ground arith

-- A user who is not a superuser, has neither global permission and is in none of the namespace's
-- groups may neither read nor write it.
pub has_namespace_perm-outsider :
    (user : User) (namespace_id : ℕ) (n : Namespace) (require_write : Bool) (db : Db)
    → get_namespace namespace_id db ≡ some n
    → user.is_superuser ≡ false
    → user.may_read_namespaces ≡ false
    → user.may_write_namespaces ≡ false
    → any (λ g. contains g user.groups) n.read_groups ≡ false
    → any (λ g. contains g user.groups) n.write_groups ≡ false
    → has_namespace_perm (some user) namespace_id require_write db ≡ false
unfolding has_namespace_perm
has_namespace_perm-outsider user namespace_id n require_write db found super reads writes r w =
    ground arith

-- ===== src/Users/Locked.antt =====
-- The helpers of internal/users that run with the store's lock held: accounts.go (roleDefLocked and
-- below), bootstrap.go (hasLocalAdminLocked, nextSessionVersion) and types.go (normalizeRoleMode).
use beaverdeck.Base.{
  ℕ, ◌+◌, ◌%◌, ◌^◌, Bool, false, not, ◌&&◌, ◌||◌, Option, none, some, any, count, leb, nat_eq,
  if◌then◌else◌, [], ◌∷◌, is_empty,
}
use beaverdeck.Text.{Str, ◌==◌, fold, to_lower, trim_space}
use beaverdeck.GoMap.{GoMap, lookup, values, has}
use beaverdeck.Users.Types.{Store, RoleDef, ConfigUser, role_admin, role_viewer}

-- v < 1, for an int64
unfoldable pub below_one : ℕ → Bool
below_one v = nat_eq v 0 || leb (2 ^ 63) v

unfoldable pub next_session_version : ℕ → ℕ
unfolding below_one
next_session_version current = if below_one current then 1 else (current + 1) % 2 ^ 64

-- s.sessionVersions[username], which is 0 for a missing key
unfoldable pub version_of : Store → Str → ℕ
version_of s username = elim (lookup username s.session_versions) [ none ↦ 0 | some v ↦ v ]

-- The version that a local session is checked against.
unfoldable pub session_version : Store → Str → ℕ
unfolding version_of below_one
session_version s username = let v = version_of s username in if below_one v then 1 else v

-- normalizeRoleMode
unfoldable pub normalize_role_mode : Str → Option Str
normalize_role_mode value =
    let m = to_lower (trim_space value) in
    if m == role_admin then some role_admin else if m == role_viewer then some role_viewer else none

unfoldable pub role_def : Store → Str → Option RoleDef
role_def s role = lookup (fold role) s.roles

unfoldable pub role_exists : Store → Str → Bool
role_exists s name = has (fold name) s.roles

-- Some key of the map is the given name in lower case.
unfoldable pub has_folded_key : Str → GoMap ConfigUser → Bool
has_folded_key name [] = false
has_folded_key name ((existing, _) ∷ m) = to_lower existing == name || has_folded_key name m

unfoldable pub username_exists_folded : Store → Str → Bool
username_exists_folded s username = has_folded_key (to_lower (trim_space username)) s.users

abbrev pub mode_is_admin : Option RoleDef → Bool
mode_is_admin none = false
mode_is_admin (some r) = r.mode == role_admin

abbrev pub is_admin_user : Store → ConfigUser → Bool
is_admin_user s user = mode_is_admin (role_def s user.role)

unfoldable pub is_last_local_admin : Store → Str → Bool
unfolding role_def
is_last_local_admin s username = elim (lookup username s.users) [
  | none ↦ false
  | some user ↦ is_admin_user s user && leb (count (is_admin_user s) (values s.users)) 1
]

unfoldable pub removes_last_local_admin : Store → Str → Str → Bool
unfolding is_last_local_admin
removes_last_local_admin s username next_role =
    is_last_local_admin s username && not (mode_is_admin (role_def s next_role))

-- The test of hasLocalAdminLocked on one user, where the role is looked up as it is stored.
abbrev pub is_local_admin : Store → ConfigUser → Bool
is_local_admin s user =
    not (is_empty (trim_space user.password_hash)) && mode_is_admin (lookup user.role s.roles)

unfoldable pub has_local_admin : Store → Bool
has_local_admin s = any (is_local_admin s) (values s.users)

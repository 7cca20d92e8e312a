-- ===== src/Users/Permissions/Levels.antt =====
-- The two spellings of what a role may do with a resource: a level, and an object of flags.
use beaverdeck.Base.{◌≡◌, refl, Bool, true, false, some}
use beaverdeck.Text.{
  Str, Str_discrete, to_lower, lower, trim_space, trim_left, trim_right, is_space,
}
use beaverdeck.GoMap.{put}
use beaverdeck.Users.Types.{ok}
use beaverdeck.Users.Json.{str, object_from, decode_object, decode_bool, decode_string}
use beaverdeck.Users.Permissions.{
  RolePermissionFlags, imply, permission_level_to_flags, permission_flags_to_level, set_actions,
  parse_permission_resource_value,
}
use beaverdeck.Users.Permissions.Write.{flags_json}

abbrev flags : Bool → Bool → Bool → RolePermissionFlags
flags v e d = record { view = v; edit = e; delete = d }

-- A level stands for the flags that it is written for, with what they imply.
level_read :
    (v e d : Bool)
    → permission_level_to_flags (permission_flags_to_level (flags v e d))
      ≡ some (imply (flags v e d))
unfolding permission_level_to_flags permission_flags_to_level imply to_lower lower trim_space
    trim_left trim_right is_space Str_discrete
level_read v e true = refl
level_read v true false = refl
level_read true false false = refl
level_read false false false = refl

flags_read :
    (resource : Str) (v e d : Bool)
    → parse_permission_resource_value resource (flags_json (flags v e d)) ≡ ok (imply (flags v e d))
unfolding parse_permission_resource_value flags_json decode_object object_from decode_bool
    decode_string set_actions put to_lower lower trim_space trim_left trim_right is_space
    Str_discrete
flags_read resource v e d = refl

-- For every resource and all flags, the level and the object of flags that are written for them are
-- both read as the flags with what they imply.
pub parse_permission_resource_value-written :
    (resource : Str) (f : RolePermissionFlags)
    → (parse_permission_resource_value resource (str (permission_flags_to_level f)) ≡ ok (imply f))
      × (parse_permission_resource_value resource (flags_json f) ≡ ok (imply f))
parse_permission_resource_value-written resource f = (
  unfold parse_permission_resource_value in rw (level_read f.view f.edit f.delete) refl,
  flags_read resource f.view f.edit f.delete,
)

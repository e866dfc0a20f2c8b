-- ===== src/Target.antt =====
-- ssh/pkg/target/target.go: the user that a client logs in as, read as a device's user and data.
pub mod Laws
use mini_shellhub.Prelude.{
  Text, List, [], ◌∷◌, Bool, Result, ok, err, contains, split_n, if◌then◌else◌,
}

pub data TargetError : Type 0 where
  split_target not_sshid : TargetError

pub record Target : Type 0 where
  pub username : Text
  pub target_data : Text

-- The check `len(parts) != 2` and the reads of the two parts.
target_of_parts : List Text → Result TargetError Target
target_of_parts (username ∷ rest ∷ []) = ok (record { username = username; target_data = rest })
target_of_parts _ = err split_target

unfoldable pub new_target : Text → Result TargetError Target
unfolding target_of_parts
new_target sshid = target_of_parts (split_n sshid b'@' 2)

unfoldable pub is_sshid : Target → Bool
is_sshid t = contains t.target_data b'.'

names_of_parts : List Text → Result TargetError (Text × Text)
names_of_parts (namespace ∷ hostname ∷ []) = ok (namespace, hostname)
names_of_parts _ = err split_target

unfoldable pub split_sshid : Target → Result TargetError (Text × Text)
unfolding is_sshid names_of_parts
split_sshid t = if is_sshid t then names_of_parts (split_n t.target_data b'.' 2) else err not_sshid

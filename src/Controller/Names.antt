-- ===== src/Controller/Names.antt =====
-- The names of containers and of their state files: pkg/container/config/tools.go, and what an
-- event on such a file means: diskEventAction of pkg/daemon/disk-events.go.
use sandal.Prelude.{
  ℕ, ◌-◌, Bool, true, false, ◌&&◌, ◌||◌, Option, none, some, [], ◌∷◌, ◌++◌, length, take, drop, leb,
  ltb, ◌==◌, if◌then◌else◌,
}
use sandal.Prelude.Words.{Bytes}
use sandal.Prelude.Text.{codes, equal, has_prefix, index}

-- [a-zA-Z0-9] and [a-zA-Z0-9_.-]
abbrev pub is_alphanumeric : ℕ → Bool
is_alphanumeric c =
    (leb b'a' c && leb c b'z') || ((leb b'A' c && leb c b'Z') || (leb b'0' c && leb c b'9'))

abbrev pub is_name_byte : ℕ → Bool
is_name_byte c = is_alphanumeric c || (c == b'_' || (c == b'.' || c == b'-'))

abbrev pub all_bytes : (ℕ → Bool) → Bytes → Bool
all_bytes p [] = true
all_bytes p (c ∷ s) = p c && all_bytes p s

-- validContainerName: ^[a-zA-Z0-9][a-zA-Z0-9_.-]*$
unfoldable pub matches_name : Bytes → Bool
matches_name [] = false
matches_name (c ∷ s) = is_alphanumeric c && all_bytes is_name_byte s

-- What ValidateName answers.
pub data Validity : Type 0 where
  valid empty_name long_name bad_name : Validity

unfoldable pub validate_name : Bytes → Validity
unfolding matches_name
validate_name [] = empty_name
validate_name (c ∷ s) =
    if ltb 128 (length (c ∷ s))
    then long_name
    else (if matches_name (c ∷ s) then valid else bad_name)

abbrev pub is_valid : Validity → Bool
is_valid valid = true
is_valid empty_name = false
is_valid long_name = false
is_valid bad_name = false

-- The last part of ConfigFileLoc's path.
unfoldable pub config_file : Bytes → Bytes
config_file name = name ++ codes ".json"

-- strings.CutSuffix(s, t): what is before the suffix.
unfoldable pub cut_suffix : Bytes → Bytes → Option Bytes
unfolding equal
cut_suffix s t =
    if leb (length t) (length s) && equal (drop (length s - length t) s) t
    then some (take (length s - length t) s)
    else none

-- strings.Contains(s, t)
abbrev pub is_some {ℓ} : {A : Type ℓ} → Option A → Bool
is_some none = false
is_some (some a) = true

unfoldable pub is_state_temp_file : Bytes → Bool
unfolding has_prefix index
is_state_temp_file base = has_prefix base (codes ".") && is_some (index base (codes ".json.tmp-"))

abbrev pub checked_name : Option Bytes → Option Bytes
checked_name none = none
checked_name (some name) = if is_valid (validate_name name) then some name else none

unfoldable pub name_from_config_file : Bytes → Option Bytes
unfolding cut_suffix validate_name
name_from_config_file base = checked_name (cut_suffix base (codes ".json"))

-- The events of the watcher, pkg/lib/inotify.
pub data FileEvent : Type 0 where
  modified file_create moved_to deleted moved_from folder_create watch_stop unknown_event :
      FileEvent

pub data DiskAction : Type 0 where
  action_unknown action_ignore action_load action_delete : DiskAction

abbrev pub action_of : FileEvent → DiskAction
action_of modified = action_load
action_of file_create = action_load
action_of moved_to = action_load
action_of deleted = action_delete
action_of moved_from = action_delete
action_of folder_create = action_unknown
action_of watch_stop = action_unknown
action_of unknown_event = action_unknown

abbrev named_action : Option Bytes → FileEvent → DiskAction
named_action none ev = action_unknown
named_action (some name) ev = action_of ev

unfoldable pub disk_event_action : FileEvent → Bytes → DiskAction
unfolding is_state_temp_file name_from_config_file
disk_event_action ev base =
    if is_state_temp_file base then action_ignore else named_action (name_from_config_file base) ev

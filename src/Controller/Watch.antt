-- ===== src/Controller/Watch.antt =====
-- What the daemon does on its state directory: containersFromDir of pkg/controller/containers.go,
-- and loadByEvent and reconcileState of pkg/daemon/disk-events.go.
use sandal.Prelude.{Bool, false, ◌||◌, Option, none, some, List, [], ◌∷◌, map, if◌then◌else◌}
use sandal.Prelude.Words.{Bytes}
use sandal.Prelude.Text.{equal}
use sandal.Controller.Names.{
  FileEvent, DiskAction, action_unknown, action_ignore, action_load, action_delete, config_file,
  name_from_config_file, disk_event_action,
}
use sandal.Controller.Store.{Config, Json, State, read_file, remove_file, delete_container}
use sandal.Controller.Sets.{bytes_or_nil, load_from_disk, set_in_daemon, set_from_client}

-- onDisk and inMem, as lists of their names.
abbrev with_name : Option Bytes → List Bytes → List Bytes
with_name none ns = ns
with_name (some n) ns = n ∷ ns

unfoldable pub names_on_disk : List (Bytes × Bytes) → List Bytes
unfolding name_from_config_file
names_on_disk [] = []
names_on_disk ((f, b) ∷ fs) = with_name (name_from_config_file f) (names_on_disk fs)

unfoldable pub is_member : Bytes → List Bytes → Bool
unfolding equal
is_member n [] = false
is_member n (m ∷ ms) = equal m n || is_member n ms

-- The first loop of reconcileState: the entries of `mem` whose file is gone leave the list.
unfoldable pub drop_gone : List Bytes → List Config → List Config → List Config
unfolding is_member delete_container
drop_gone on_disk [] ms = ms
drop_gone on_disk (c ∷ cs) ms =
    drop_gone on_disk cs (if is_member c.name on_disk then ms else delete_container c.name ms)

abbrev pub entry_names : List Config → List Bytes
entry_names = map (λ c. c.name)

-- What happens in the daemon and beside it. The Boolean is whether the state file can be written.
pub data Happening : Type 0 where
  -- SetContainer in the daemon, and in another process that reaches no daemon.
  daemon_set client_set : Bool → Config → Happening
  -- An event of the watcher, with what it read.
  noticed : FileEvent → Bytes → Option Bytes → Happening
  -- Another process removes a file.
  file_removed : Bytes → Happening
  reconciled : List Bytes → Happening

module _ (j : Json) where
  -- LoadFile, on what os.ReadFile gave.
  unfoldable pub load_file : Option Bytes → Option Config
  load_file none = none
  load_file (some b) = j.unmarshal b

  abbrev listed : Option Bytes → Option Config → List Config → List Config
  listed none c cs = cs
  listed (some n) none cs = cs
  listed (some n) (some c) cs = c ∷ cs

  unfoldable pub containers_from_dir : List (Bytes × Bytes) → List Config
  unfolding name_from_config_file
  containers_from_dir [] = []
  containers_from_dir ((f, b) ∷ fs) =
      listed (name_from_config_file f) (j.unmarshal b) (containers_from_dir fs)

  -- What LoadFromDisk makes of what LoadFile gave.
  abbrev pub load_read : Option Config → State → State
  load_read none s = s
  load_read (some c) s = (load_from_disk j c s).0

  -- The second loop of reconcileState: the files that have no entry are loaded, in the order in
  -- which the map is walked.
  unfoldable pub load_missing : List Bytes → List Bytes → State → State
  unfolding is_member load_file read_file config_file load_from_disk
  load_missing in_mem [] s = s
  load_missing in_mem (n ∷ ns) s = load_missing in_mem ns (
      if is_member n in_mem then s else load_read (load_file (read_file (config_file n) s.files)) s)

  -- reconcileState, with the order in which onDisk is walked.
  unfoldable pub reconcile_state : List Bytes → State → State
  unfolding names_on_disk drop_gone load_missing
  reconcile_state order s =
      load_missing (entry_names s.memory) order
        (record s { memory = drop_gone (names_on_disk s.files) s.memory s.memory })

  -- The loop of loadByEvent on an event that is not for the folder. The bytes are those that the
  -- file had when LoadFile read it, which other operations may have replaced since;
  -- a name that is none is "".
  abbrev pub acted : DiskAction → Bytes → Option Bytes → State → State
  acted action_unknown base read s = s
  acted action_ignore base read s = s
  acted action_load base read s = load_read (load_file read) s
  acted action_delete base read s = record s {
    memory = delete_container (bytes_or_nil (name_from_config_file base)) s.memory;
  }

  unfoldable pub load_by_event : FileEvent → Bytes → Option Bytes → State → State
  unfolding disk_event_action load_file load_from_disk name_from_config_file delete_container
  load_by_event ev base read s = acted (disk_event_action ev base) base read s

  unfoldable pub happen : Happening → State → State
  unfolding set_in_daemon set_from_client load_by_event remove_file reconcile_state
  happen (daemon_set writes c) s = (set_in_daemon j writes c s).1
  happen (client_set writes c) s = (set_from_client j false writes c s).1
  happen (noticed ev base read) s = load_by_event ev base read s
  happen (file_removed f) s = record s { files = remove_file f s.files }
  happen (reconciled order) s = reconcile_state order s

  unfoldable pub run_daemon : List Happening → State → State
  unfolding happen
  run_daemon [] s = s
  run_daemon (h ∷ hs) s = run_daemon hs (happen h s)

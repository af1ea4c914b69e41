-- ===== src/Controller/Sets.antt =====
-- Setting and loading a container's configuration: pkg/controller/set.go, client.go's daemon as
-- server.go answers it. Whether a file could be written and whether the daemon could be reached
-- are arguments.
use sandal.Prelude.{
  ℕ, ◌+◌, Bool, true, false, ◌&&◌, not, Option, none, some, [], ◌∷◌, ◌++◌, ltb, ◌==◌, if◌then◌else◌,
}
use sandal.Prelude.Words.{Bytes, u64}
use sandal.Prelude.Text.{equal}
use sandal.Controller.Names.{config_file, validate_name, is_valid}
use sandal.Controller.Store.{Config, Json, State, read_file, write_file, find, put}

abbrev pub max : ℕ → ℕ → ℕ
max a b = if ltb a b then b else a

abbrev pub bytes_or_nil : Option Bytes → Bytes
bytes_or_nil none = []
bytes_or_nil (some b) = b

abbrev pub or_zero : Option ℕ → ℕ
or_zero none = 0
or_zero (some g) = g

abbrev pub held : Option Config → ℕ
held none = 0
held (some m) = m.generation

-- The file of a name, as os.ReadFile leaves it in diskBytes.
abbrev pub disk_bytes : Bytes → State → Bytes
disk_bytes n s = bytes_or_nil (read_file (config_file n) s.files)

module _ (j : Json) where
  -- fileGeneration
  unfoldable pub file_generation : Bytes → ℕ
  file_generation b = or_zero (j.generation_in b)

  -- writeContainerFile: the whole file, or nothing of it.
  unfoldable pub write_container_file : Bool → Config → State → State
  unfolding write_file config_file
  write_container_file true c s = record s {
    files = write_file (config_file c.name) (j.marshal c) s.files;
  }
  write_container_file false c s = s

  -- The generation of the next set: above the caller's, the entry's and the file's.
  unfoldable pub next_generation : Config → State → ℕ
  unfolding find file_generation
  next_generation c s = u64 (
      max (max c.generation (held (find c.name s.memory))) (file_generation (disk_bytes c.name s))
      + 1)

  abbrev pub changed : Bool → Config → State → State
  changed writes c s =
      if not (equal (disk_bytes c.name s) (j.marshal c)) then write_container_file writes c s else s

  unfoldable pub set_container_by_memory : Bool → Config → State → Config × State
  unfolding next_generation put
  set_container_by_memory writes c s =
      let clone = record c { generation = next_generation c s } in
      (clone, record (changed writes clone s) { memory = put clone s.memory })

  -- The third part is whether it gives no error.
  unfoldable pub set_container_by_disk : Bool → Config → State → Config × State × Bool
  unfolding file_generation write_container_file
  set_container_by_disk writes c s =
      if equal c.name []
      then (c, s, false)
      else (let next = record c {
        generation = u64 (max c.generation (file_generation (disk_bytes c.name s)) + 1);
      } in
          (next, write_container_file writes next s, writes))

  -- SetContainer in the daemon.
  unfoldable pub set_in_daemon : Bool → Config → State → Config × State × Bool
  unfolding set_container_by_memory validate_name
  set_in_daemon writes c s =
      if is_valid (validate_name c.name)
      then (let r = set_container_by_memory writes c s in (r.0, r.1, true))
      else (c, s, false)

  -- POST /containers/{name}: the daemon's state, and whether its status is of the 200s.
  abbrev posted : Bool → Option Config → State → State × Bool
  posted writes none s = (s, false)
  posted writes (some c) s = let r = set_in_daemon writes c s in (r.1, r.2)

  unfoldable pub post_container : Bool → Bytes → State → State × Bool
  unfolding set_in_daemon
  post_container writes body s = posted writes (j.unmarshal body) s

  -- SetContainer in a process that found a daemon: `reached` is whether it answers now.
  unfoldable pub set_by_server : Bool → Bool → Config → State → Config × State × Bool
  unfolding set_container_by_disk post_container
  set_by_server false writes c s = set_container_by_disk writes c s
  set_by_server true writes c s = let r = post_container writes (j.marshal c) s in (c, r.0, r.1)

  unfoldable pub set_from_client : Bool → Bool → Config → State → Config × State × Bool
  unfolding set_by_server validate_name
  set_from_client reached writes c s =
      if is_valid (validate_name c.name) then set_by_server reached writes c s else (c, s, false)

  -- Whether LoadFromDisk replaces the entry `m` by `c`.
  unfoldable pub is_newer : Config → Config → Bool
  unfolding equal
  is_newer c m =
      if ltb m.generation c.generation
      then true
      else c.generation == 0 && (m.generation == 0 && not (equal (j.marshal c) (j.marshal m)))

  -- Without an entry: whether the file is still there.
  abbrev pub load_new : Option Bytes → Config → State → State × Bool
  load_new none c s = (s, false)
  load_new (some b) c s = (record s { memory = s.memory ++ c ∷ [] }, true)

  abbrev pub load_entry : Option Config → Config → State → State × Bool
  load_entry (some m) c s =
      if is_newer c m then (record s { memory = put c s.memory }, true) else (s, false)
  load_entry none c s = load_new (read_file (config_file c.name) s.files) c s

  unfoldable pub load_from_disk : Config → State → State × Bool
  unfolding find validate_name is_newer put read_file config_file
  load_from_disk c s =
      if is_valid (validate_name c.name) then load_entry (find c.name s.memory) c s else (s, false)

-- ===== src/Controller/Fallback.antt =====
-- A client that reaches no daemon writes the state file, and the daemon's watcher takes it over:
-- setContainerByServer of pkg/controller/set.go, loadByEvent of pkg/daemon/disk-events.go.
use sandal.Prelude.{
  ◌≡◌, refl, ◌∙◌, inl, inr, ℕ, ◌+◌, ◌%◌, ◌<◌, ◌≤◌, Bool, true, false, ◌&&◌, some, [], ◌∷◌,
  Option-cases, arith, if◌then◌else◌,
}
use sandal.Prelude.Words.{Bytes}
use sandal.Prelude.Text.{equal}
use sandal.Controller.Names.{config_file, validate_name, valid, moved_to}
use sandal.Controller.Store.{Config, Json, IsJson, State, read_file, find}
use sandal.Controller.Sets.{
  max, held, disk_bytes, file_generation, write_container_file, set_container_by_disk,
  set_by_server, set_from_client, is_newer, load_entry, load_from_disk,
}
use sandal.Controller.Watch.{load_file, load_by_event}
use sandal.Controller.FileNames.{disk_event_action-config_file}
use sandal.Controller.Listing.{equal_self, find-put, find-append}
use sandal.Controller.Stored.{read_file-write_file}

module _ (j : Json) where
  -- The generation that the file's next content has.
  abbrev pub highest_on_disk : Config → State → ℕ
  highest_on_disk c s = max c.generation (file_generation j (disk_bytes c.name s))

  abbrev pub rewritten : Config → State → Config
  rewritten c s = record c { generation = highest_on_disk c s + 1 }

  name-ne-nil : (n : Bytes) → validate_name n ≡ valid → equal n [] ≡ false
  unfolding validate_name equal
  name-ne-nil [] v = absurd (cc)
  name-ne-nil (x ∷ n) v = refl

  pub set_from_client_eq :
      (writes : Bool) (c : Config) (s : State)
      → validate_name c.name ≡ valid
      → highest_on_disk c s < 18446744073709551615
      → set_from_client j false writes c s
        ≡ (rewritten c s, write_container_file j writes (rewritten c s) s, writes)
  unfolding set_from_client set_by_server set_container_by_disk
  set_from_client_eq writes c s v room =
      let e : (highest_on_disk c s + 1) % 18446744073709551616 ≡ highest_on_disk c s + 1 =
        omega arith in
      rw (v, name-ne-nil c.name v, e) refl

  pub read_file-write_container_file :
      (writes : Bool) (d : Config) (s : State) (f : Bytes)
      → read_file f (write_container_file j writes d s).files ≡ (
          if equal (config_file d.name) f && writes
          then some (j.marshal d)
          else read_file f s.files)
  unfolding write_container_file
  read_file-write_container_file true d s f =
      read_file-write_file (config_file d.name) f (j.marshal d) s.files ∙ ground arith
  read_file-write_container_file false d s f = ground arith

  pub memory-write_container_file :
      (writes : Bool) (d : Config) (s : State)
      → (write_container_file j writes d s).memory ≡ s.memory
  unfolding write_container_file
  memory-write_container_file true d s = refl
  memory-write_container_file false d s = refl

  -- A configuration above the entry of its name, from a file that is there, is taken.
  load_from_disk-taken :
      (c : Config) (s : State) (n b : Bytes)
      → validate_name c.name ≡ valid
      → held (find c.name s.memory) < c.generation
      → read_file (config_file c.name) s.files ≡ some b
      → find n (load_from_disk j c s).0.memory
        ≡ (if equal c.name n then some c else find n s.memory)
  unfolding load_from_disk is_newer
  load_from_disk-taken c s n b v l r = elim (Option-cases (find c.name s.memory)) [
    | inl f ↦ rw (v, f, load_entry, r) (find-append n c s.memory f)
    | inr (m, f) ↦
        (let m_lt : held (some m) < c.generation = rw f at l in
          let newer : is_newer j c m ≡ true = ground arith in
          rw (v, f, load_entry, newer) (find-put n c s.memory))
  ]

module _ (j : Json) (law : IsJson j) (c : Config) (s : State) (n : Bytes)
    (named : validate_name c.name ≡ valid) (room : highest_on_disk j c s < 18446744073709551615)
    (written : held (find c.name s.memory) ≤ highest_on_disk j c s) where
  -- Where SetContainer of a client reaches no daemon and writes the file, the daemon's handling of
  -- the rename makes it the entry of its name and changes no other entry. The name is valid, the
  -- caller's generation and the file's are below 2^64 - 1, and the entry's is not above both.
  pub set_from_client-load_by_event :
      find n
        (load_by_event j moved_to
          (config_file c.name)
          (read_file (config_file c.name) (set_from_client j false true c s).1.files)
          (set_from_client j false true c s).1).memory
      ≡ (if equal c.name n then some (set_from_client j false true c s).0 else find n s.memory)
  unfolding load_by_event load_file write_container_file
  set_from_client-load_by_event =
      let d : Config = rewritten j c s in
      let t : State = write_container_file j true d s in
      let r : read_file (config_file c.name) t.files ≡ some (j.marshal d) =
        read_file-write_container_file j true d s (config_file c.name)
        ∙ rw (equal_self (config_file c.name)) refl in
      rw
        (
          set_from_client_eq j true c s named room,
          r,
          disk_event_action-config_file moved_to c.name named,
          law.unmarshal-marshal d (named, omega arith),
        )
        (load_from_disk-taken j d t n (j.marshal d) named (omega arith) r)

-- ===== src/Controller/Stored.antt =====
-- What setting a container's configuration leaves in memory and in its file:
-- pkg/controller/set.go.
use sandal.Prelude.{
  ℕ, ◌+◌, ◌≤◌, ◌<◌, ◌≡◌, refl, ap, ◌∙◌, inl, inr, Bool, true, false, Option, none, some, List, [],
  ◌∷◌, Bool-cases, arith, if◌then◌else◌,
}
use sandal.Prelude.Words.{Bytes}
use sandal.Prelude.Text.{equal, equal_iff}
use sandal.Controller.Names.{config_file, validate_name, valid, is_valid}
use sandal.Controller.Store.{
  Config, Json, IsJson, State, read_file, write_file, remove_file, find, put,
}
use sandal.Controller.Sets.{
  max, held, or_zero, disk_bytes, file_generation, write_container_file, next_generation,
  set_container_by_memory, set_in_daemon, is_newer, load_from_disk, changed,
}
use sandal.Controller.Listing.{equal_self, find-put}

pub read_file-write_file :
    (f g b : Bytes) (fs : List (Bytes × Bytes))
    → read_file g (write_file f b fs) ≡ (if equal f g then some b else read_file g fs)
unfolding read_file write_file
read_file-write_file f g b [] = refl
read_file-write_file f g b ((h, d) ∷ fs) =
    ground (arith, equal_iff h f, equal_iff h g, equal_iff f g, read_file-write_file f g b fs)

pub max_bounds : (a b : ℕ) → (a ≤ max a b) × (b ≤ max a b)
max_bounds a b = ground arith

pub read_file-remove_file :
    (f g : Bytes) (fs : List (Bytes × Bytes))
    → read_file g (remove_file f fs) ≡ (if equal f g then none else read_file g fs)
unfolding read_file remove_file
read_file-remove_file f g [] = ground arith
read_file-remove_file f g ((h, d) ∷ fs) =
    ground (arith, equal_iff h f, equal_iff h g, equal_iff f g, read_file-remove_file f g fs)

module _ (j : Json) where
  -- The generations that a set goes above.
  abbrev pub highest : Config → State → ℕ
  highest c s =
      max (max c.generation (held (find c.name s.memory))) (file_generation j (disk_bytes c.name s))

  abbrev pub bumped : Config → State → Config
  bumped c s = record c { generation = highest c s + 1 }

same_branch : (b : Bool) (o : Option Bytes) → o ≡ (if b then o else o)
same_branch true o = refl
same_branch false o = refl

module _ (j : Json) (law : IsJson j) (c : Config) (s : State) (named : validate_name c.name ≡ valid)
    (room : highest j c s < 18446744073709551615) where
  next_generation_lem : next_generation j c s ≡ highest j c s + 1
  unfolding next_generation
  next_generation_lem = omega arith

  -- The file never has the new bytes before the set.
  set-ne-disk_bytes : equal (disk_bytes c.name s) (j.marshal (bumped j c s)) ≡ false
  unfolding file_generation
  set-ne-disk_bytes = elim (Bool-cases (equal (disk_bytes c.name s) (j.marshal (bumped j c s)))) [
    | inr e ↦ e
    | inl e ↦
        (let same : disk_bytes c.name s ≡ j.marshal (bumped j c s) = (equal_iff _ _).0 e in
          let g : file_generation j (disk_bytes c.name s) ≡ highest j c s + 1 =
            ap (file_generation j) same
            ∙ ap or_zero (law.generation-marshal (bumped j c s) (named, omega arith)) in
          absurd (
            omega (
              arith,
              max_bounds (max c.generation (held (find c.name s.memory)))
                  (file_generation j (disk_bytes c.name s)),
            )))
  ]

  -- Only the file of the name is written.
  files_after :
      (writes : Bool) (f : Bytes)
      → read_file f (changed j writes (bumped j c s) s).files ≡ (
          if equal (config_file c.name) f
          then (if writes then some (j.marshal (bumped j c s)) else read_file f s.files)
          else read_file f s.files)
  unfolding write_container_file
  files_after true f =
      rw set-ne-disk_bytes
        (read_file-write_file (config_file c.name) f (j.marshal (bumped j c s)) s.files)
  files_after false f =
      rw set-ne-disk_bytes (same_branch (equal (config_file c.name) f) (read_file f s.files))

  set_in_daemon_eq :
      (writes : Bool)
      → set_in_daemon j writes c s ≡ (
        bumped j c s,
        record (changed j writes (bumped j c s) s) { memory = put (bumped j c s) s.memory },
        true,
      )
  unfolding set_in_daemon set_container_by_memory
  set_in_daemon_eq writes = rw (named, next_generation_lem) refl

not_newer :
    (j : Json) (c m : Config)
    → c.generation ≤ m.generation
    → 0 < m.generation
    → is_newer j c m ≡ false
unfolding is_newer
not_newer j c m h p = ground arith

pub set_in_daemon-memory :
    (j : Json) (law : IsJson j) (writes : Bool) (c : Config) (s : State)
    → validate_name c.name ≡ valid
    → highest j c s < 18446744073709551615
    → (set_in_daemon j writes c s).1.memory ≡ put (bumped j c s) s.memory
set_in_daemon-memory j law writes c s named room =
    rw (set_in_daemon_eq j law c s named room writes) refl

-- Where the file cannot be written, the entry alone is set.
pub set_in_daemon-unwritten :
    (j : Json) (law : IsJson j) (c : Config) (s : State)
    → validate_name c.name ≡ valid
    → highest j c s < 18446744073709551615
    → set_in_daemon j false c s
      ≡ (bumped j c s, record s { memory = put (bumped j c s) s.memory }, true)
unfolding write_container_file
set_in_daemon-unwritten j law c s named room =
    set_in_daemon_eq j law c s named room false ∙ rw (set-ne-disk_bytes j law c s named room) refl

-- A load of a configuration that is no newer than the entry of its name changes nothing.
pub load_from_disk-stale :
    (j : Json) (c m : Config) (s : State)
    → find c.name s.memory ≡ some m
    → c.generation ≤ m.generation
    → 0 < m.generation
    → load_from_disk j c s ≡ (s, false)
unfolding load_from_disk
load_from_disk-stale j c m s f h p = elim (Bool-cases (is_valid (validate_name c.name))) [
  | inl e ↦ rw (e, f, not_newer j c m h p) refl
  | inr e ↦ rw e
]

abbrev pub IsStored : Json → Bool → Config → State → Config × State × Bool → Type 0
IsStored j writes c s r =
    (r.2 ≡ true)
    × (r.0.generation ≡ highest j c s + 1)
    × (r.0.name ≡ c.name)
    × (r.0.rest ≡ c.rest)
    × ((n : Bytes) → find n r.1.memory ≡ (if equal c.name n then some r.0 else find n s.memory))
    × ((f : Bytes)
        → read_file f r.1.files ≡ (
            if equal (config_file c.name) f
            then (if writes then some (j.marshal r.0) else read_file f s.files)
            else read_file f s.files))

-- SetContainer of a valid name in the daemon, where the caller's generation, the entry's and the
-- file's are below 2^64 - 1: it gives no error, the configuration gets a generation one above the
-- highest of the three and keeps its name and its other fields, it becomes the entry of its name
-- and no other entry changes, and its file holds its JSON where it could be written, and no other
-- file changes.
pub set_in_daemon-IsStored :
    (j : Json) (law : IsJson j) (writes : Bool) (c : Config) (s : State)
    → validate_name c.name ≡ valid
    → highest j c s < 18446744073709551615
    → IsStored j writes c s (set_in_daemon j writes c s)
set_in_daemon-IsStored j law writes c s named room =
    rw (set_in_daemon_eq j law c s named room writes) (
      refl,
      refl,
      refl,
      refl,
      (λ n. find-put n (bumped j c s) s.memory),
      (λ f. files_after j law c s named room writes f),
    )

-- After SetContainer in the daemon a load of a configuration of that name changes nothing if its
-- generation is not above the new one: a read of the file from before is ignored. The name is valid
-- and the three generations are below 2^64 - 1.
pub set_in_daemon-load :
    (j : Json) (law : IsJson j) (writes : Bool) (c d : Config) (s : State)
    → validate_name c.name ≡ valid
    → highest j c s < 18446744073709551615
    → d.name ≡ c.name
    → d.generation ≤ highest j c s + 1
    → load_from_disk j d (set_in_daemon j writes c s).1 ≡ ((set_in_daemon j writes c s).1, false)
set_in_daemon-load j law writes c d s named room e h =
    rw (set_in_daemon_eq j law c s named room writes) (
      load_from_disk-stale j d (bumped j c s) _
        (find-put d.name (bumped j c s) s.memory ∙ rw (e, equal_self c.name) refl) h (omega arith))

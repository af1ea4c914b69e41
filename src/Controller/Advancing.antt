-- ===== src/Controller/Advancing.antt =====
-- Each happening keeps the bound on the generations, or lifts it by one: pkg/controller/set.go and
-- pkg/daemon/disk-events.go.
use sandal.Prelude.{
  ◌≡◌, refl, ◌∙◌, inl, inr, ℕ, suc, ◌<◌, Bool, true, false, ◌&&◌, Option, some, List, [], ◌∷◌, All,
  Bool-cases, arith, if◌then◌else◌,
}
use sandal.Prelude.Words.{Bytes}
use sandal.Prelude.Text.{equal}
use sandal.Controller.Names.{
  is_valid, config_file, validate_name, valid, disk_event_action, DiskAction, action_unknown,
  action_ignore, action_load, action_delete, FileEvent,
}
use sandal.Controller.Store.{Config, Json, IsJson, State, find}
use sandal.Controller.Sets.{held, or_zero, set_in_daemon, set_from_client, write_container_file}
use sandal.Controller.Watch.{
  load_file, entry_names, reconcile_state, load_by_event, acted, Happening, daemon_set, client_set,
  noticed, file_removed, reconciled, happen,
}
use sandal.Controller.FileNames.{is_valid_iff}
use sandal.Controller.Listing.{put-IsUnique}
use sandal.Controller.Stored.{highest, bumped, set_in_daemon-memory, set_in_daemon-IsStored}
use sandal.Controller.Generations.{
  Limited, Limited-suc, IsBelow, load_read-IsBelow, load_missing-IsBelow, remove_file-FilesBelow,
  written-FilesBelow, drop_gone-IsBelow, delete_container-IsBelow, IsBelow-suc,
}
use sandal.Controller.Fallback.{
  highest_on_disk, rewritten, set_from_client_eq, read_file-write_container_file,
  memory-write_container_file,
}

-- What is handed to the controller has generations below the bound.
abbrev pub Given : Json → ℕ → Happening → Type 0
Given j b (daemon_set writes c) = c.generation < b
Given j b (client_set writes c) = c.generation < b
Given j b (noticed ev base read) = Limited b (load_file j read)
Given j b (file_removed f) = Unit {0}
Given j b (reconciled order) = Unit {0}

Given-suc : (j : Json) (b : ℕ) (h : Happening) → Given j b h → Given j (suc b) h
Given-suc j b (daemon_set writes c) l = omega arith
Given-suc j b (client_set writes c) l = omega arith
Given-suc j b (noticed ev base read) l = Limited-suc b (load_file j read) l
Given-suc j b (file_removed f) l = tt
Given-suc j b (reconciled order) l = tt

pub All-Given-suc :
    (j : Json) (b : ℕ) (hs : List Happening) → All (Given j b) hs → All (Given j (suc b)) hs
All-Given-suc j b [] l = tt
All-Given-suc j b (h ∷ hs) (l, ls) = (Given-suc j b h l, All-Given-suc j b hs ls)

module _ (j : Json) (law : IsJson j) (b : ℕ) (small : b < 18446744073709551616) where
  highest-lt : (c : Config) (s : State) → c.generation < b → IsBelow j b s → highest j c s < b
  highest-lt c s l i = ground (arith, i.memory_below c.name, i.files_below (config_file c.name))

  pub set_generation :
      (c : Config) (s : State)
      → c.generation < b
      → IsBelow j b s
      → highest j c s < 18446744073709551615
  set_generation c s l i = omega (arith, highest-lt c s l i)

  pub set-invalid :
      (writes : Bool) (c : Config) (s : State)
      → is_valid (validate_name c.name) ≡ false
      → (set_in_daemon j writes c s).1 ≡ s
  unfolding set_in_daemon
  set-invalid writes c s e = rw e refl

  stored_below :
      (t : Bool) (d : Config) (o p : Option Config)
      → d.generation < suc b
      → held p < b
      → o ≡ (if t then some d else p)
      → held o < suc b
  stored_below true d o p l h e = rw e l
  stored_below false d o p l h e = rw e (omega arith)

  both_tests {ℓ} :
      {A : Type ℓ} (x y : Bool) (a o : A)
      → (if x then (if y then a else o) else o) ≡ (if x && y then a else o)
  both_tests true true a o = refl
  both_tests true false a o = refl
  both_tests false y a o = refl

  daemon_set-IsBelow :
      (writes : Bool) (c : Config) (s : State)
      → c.generation < b
      → IsBelow j b s
      → IsBelow j (suc b) (set_in_daemon j writes c s).1
  daemon_set-IsBelow writes c s l i = elim (Bool-cases (is_valid (validate_name c.name))) [
    | inr e ↦ rw (set-invalid writes c s e) (IsBelow-suc j b s i)
    | inl e ↦
        (let v : validate_name c.name ≡ valid = (is_valid_iff _).0 e in
          let room : highest j c s < 18446744073709551615 = set_generation c s l i in
          let (_, g, name, _, mem, files) = set_in_daemon-IsStored j law writes c s v room in
          record {
            unique =
                rw (set_in_daemon-memory j law writes c s v room)
                  (put-IsUnique (bumped j c s) s.memory i.unique);
            memory_below = λ n.
                stored_below (equal c.name n) _ _ (find n s.memory)
                  (omega (arith, g, highest-lt c s l i)) (i.memory_below n) (mem n);
            files_below =
                written-FilesBelow j law (suc b) (set_in_daemon j writes c s).0
                  (λ f. equal (config_file c.name) f && writes) s.files _
                  (λ f. files f ∙ both_tests (equal (config_file c.name) f) writes _ _)
                  (rw name v, omega (arith, highest-lt c s l i)) (omega (arith, highest-lt c s l i))
                  (IsBelow-suc j b s i).files_below;
          })
  ]

  highest_on_disk-lt :
      (c : Config) (s : State) → c.generation < b → IsBelow j b s → highest_on_disk j c s < b
  highest_on_disk-lt c s l i = ground (arith, i.files_below (config_file c.name))

  pub client-invalid :
      (writes : Bool) (c : Config) (s : State)
      → is_valid (validate_name c.name) ≡ false
      → (set_from_client j false writes c s).1 ≡ s
  unfolding set_from_client
  client-invalid writes c s e = rw e refl

  nil_below : (s : State) → IsBelow j b s → or_zero (j.generation_in []) < b
  nil_below s i = rw law.generation-nil (omega (arith, i.memory_below []))

  client_set-IsBelow :
      (writes : Bool) (c : Config) (s : State)
      → c.generation < b
      → IsBelow j b s
      → IsBelow j (suc b) (set_from_client j false writes c s).1
  client_set-IsBelow writes c s l i = elim (Bool-cases (is_valid (validate_name c.name))) [
    | inr e ↦ rw (client-invalid writes c s e) (IsBelow-suc j b s i)
    | inl e ↦
        (let v : validate_name c.name ≡ valid = (is_valid_iff _).0 e in
          let low : highest_on_disk j c s < b = highest_on_disk-lt c s l i in
          let d : Config = rewritten j c s in
          let same : (write_container_file j writes d s).memory ≡ s.memory =
            memory-write_container_file j writes d s in
          rw (set_from_client_eq j writes c s v (omega arith)) (record {
            unique = rw same i.unique;
            memory_below = rw same (IsBelow-suc j b s i).memory_below;
            files_below =
                written-FilesBelow j law (suc b) d (λ f. equal (config_file c.name) f && writes)
                  s.files _ (read_file-write_container_file j writes d s) (v, omega arith)
                  (omega arith) (IsBelow-suc j b s i).files_below;
          }))
  ]

  acted-IsBelow :
      (a : DiskAction) (base : Bytes) (read : Option Bytes) (s : State)
      → Limited b (load_file j read)
      → IsBelow j b s
      → IsBelow j b (acted j a base read s)
  acted-IsBelow action_unknown base read s l i = i
  acted-IsBelow action_ignore base read s l i = i
  acted-IsBelow action_load base read s l i = load_read-IsBelow j b (load_file j read) s l i
  acted-IsBelow action_delete base read s l i = delete_container-IsBelow j b _ s i

  load_by_event-IsBelow :
      (ev : FileEvent) (base : Bytes) (read : Option Bytes) (s : State)
      → Limited b (load_file j read)
      → IsBelow j b s
      → IsBelow j b (load_by_event j ev base read s)
  unfolding load_by_event
  load_by_event-IsBelow ev base read s l i =
      acted-IsBelow (disk_event_action ev base) base read s l i

  pub happen-IsBelow :
      (h : Happening) (s : State) → Given j b h → IsBelow j b s → IsBelow j (suc b) (happen j h s)
  unfolding happen reconcile_state
  happen-IsBelow (daemon_set writes c) s l i = daemon_set-IsBelow writes c s l i
  happen-IsBelow (client_set writes c) s l i = client_set-IsBelow writes c s l i
  happen-IsBelow (noticed ev base read) s l i =
      IsBelow-suc j b _ (load_by_event-IsBelow ev base read s l i)
  happen-IsBelow (file_removed f) s l i = IsBelow-suc j b _ (record {
    unique = i.unique;
    memory_below = i.memory_below;
    files_below = remove_file-FilesBelow j b f s.files (nil_below s i) i.files_below;
  })
  happen-IsBelow (reconciled order) s l i =
      IsBelow-suc j b _
        (load_missing-IsBelow j b (entry_names s.memory) order _ (drop_gone-IsBelow j b s i))

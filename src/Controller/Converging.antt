-- ===== src/Controller/Converging.antt =====
-- reconcileState of pkg/daemon/disk-events.go makes the controller's list that of the files.
use sandal.Prelude.{
  ◌≡◌, refl, ◌∙◌, inl, inr, ◌<◌, true, false, not, ◌&&◌, Option, none, some, List, [], ◌∷◌, All,
  Bool-cases, arith, if◌then◌else◌,
}
use sandal.Prelude.Words.{Bytes}
use sandal.Controller.Names.{is_some, config_file, validate_name, valid}
use sandal.Controller.Store.{Config, Json, IsJson, State, read_file, find, put}
use sandal.Controller.Sets.{set_in_daemon}
use sandal.Controller.Watch.{
  names_on_disk, is_member, drop_gone, load_file, entry_names, reconcile_state,
}
use sandal.Controller.Listing.{IsUnique, equal_self, find-put, put-IsUnique}
use sandal.Controller.Dropping.{
  is_member-names_on_disk, is_member-entry_names, drop_gone-IsUnique, find-drop_gone,
}
use sandal.Controller.Loading.{ReadsAs, IsDistinct, IsNew, load_missing-AllLoaded}
use sandal.Controller.Stored.{highest, bumped, set_in_daemon-unwritten}

-- What reconciling leaves of a name, by its file and its entry.
abbrev pub kept : Json → Option Bytes → Option Config → Option Config
kept j none e = none
kept j (some b) none = j.unmarshal b
kept j (some b) (some m) = some m

dropped : State → State
dropped s = record s { memory = drop_gone (names_on_disk s.files) s.memory s.memory }

dropped-IsNew :
    (s : State)
    → IsUnique s.memory
    → (ks : List Bytes) → All (IsNew (entry_names s.memory) (dropped s)) ks
unfolding dropped
dropped-IsNew s u [] = tt
dropped-IsNew s u (k ∷ ks) = elim (Bool-cases (is_member k (entry_names s.memory))) [
  | inl e ↦ (inl e, dropped-IsNew s u ks)
  | inr e ↦
      (let f : find k s.memory ≡ none = ground (arith, is_member-entry_names k s.memory) in
        (
          inr (find-drop_gone k (names_on_disk s.files) s.memory s.memory u ∙ rw e f),
          dropped-IsNew s u ks,
        ))
]

module _ (j : Json) where
  reconciled_cases :
      (o : Option Bytes) (e : Option Config)
      → (if is_some o && not (is_some e)
          then load_file j o
          else (if is_some e && not (is_some o) then none else e))
        ≡ kept j o e
  unfolding load_file
  reconciled_cases none none = refl
  reconciled_cases none (some m) = refl
  reconciled_cases (some b) none = refl
  reconciled_cases (some b) (some m) = refl

module _ (j : Json) (order : List Bytes) (s : State) (n : Bytes) (u : IsUnique s.memory)
    (v : All (λ k. validate_name k ≡ valid) order) (d : IsDistinct order)
    (r : All (λ k. ReadsAs k (load_file j (read_file (config_file k) s.files))) order)
    (w : (k : Bytes) → is_member k order ≡ is_member k (names_on_disk s.files))
    (named : validate_name n ≡ valid) where
  -- After reconcileState a valid name has an entry if its file can be read: the one that it had, or
  -- what the file says where it had none; without the file it has none. No name comes twice in the
  -- list, the names of the map are those of the files, each once, and a configuration that is read
  -- from one of them has the name of its file.
  pub reconcile_state-kept :
      find n (reconcile_state j order s).memory
      ≡ kept j (read_file (config_file n) s.files) (find n s.memory)
  unfolding reconcile_state dropped
  reconcile_state-kept =
      let (_, _, g) =
        load_missing-AllLoaded j (entry_names s.memory) order s.files (dropped s) refl v d r
          (dropped-IsNew s u order)
          (drop_gone-IsUnique (names_on_disk s.files) s.memory s.memory u) in
      g n
      ∙ rw
          (
            find-drop_gone n (names_on_disk s.files) s.memory s.memory u,
            w n,
            is_member-names_on_disk n named s.files,
            is_member-entry_names n s.memory,
          )
          (reconciled_cases j (read_file (config_file n) s.files) (find n s.memory))

-- Where the state file of a new container cannot be written, SetContainer in the daemon reports no
-- error and keeps the entry, and the next reconcileState drops it. The conditions are those of
-- both.
pub reconcile_state-unwritten :
    (j : Json) (law : IsJson j) (order : List Bytes) (c : Config) (s : State)
    → IsUnique s.memory
    → All (λ k. validate_name k ≡ valid) order
    → IsDistinct order
    → All (λ k. ReadsAs k (load_file j (read_file (config_file k) s.files))) order
    → ((k : Bytes) → is_member k order ≡ is_member k (names_on_disk s.files))
    → validate_name c.name ≡ valid
    → highest j c s < 18446744073709551615
    → read_file (config_file c.name) s.files ≡ none
    → ((set_in_daemon j false c s).2 ≡ true)
      × (find c.name (set_in_daemon j false c s).1.memory ≡ some (set_in_daemon j false c s).0)
      × (find c.name (reconcile_state j order (set_in_daemon j false c s).1).memory ≡ none)
reconcile_state-unwritten j law order c s u v d r w named room gone =
    rw (set_in_daemon-unwritten j law c s named room) (
      refl,
      find-put c.name (bumped j c s) s.memory ∙ rw (equal_self c.name) refl,
      (let t : State = record s { memory = put (bumped j c s) s.memory } in
          reconcile_state-kept j order t c.name (put-IsUnique (bumped j c s) s.memory u) v d r w
            named
          ∙ rw gone refl),
    )

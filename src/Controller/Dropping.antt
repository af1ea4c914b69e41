-- ===== src/Controller/Dropping.antt =====
-- The first loop of reconcileState of pkg/daemon/disk-events.go: the names that have files, and the
-- entries that stay.
use sandal.Prelude.{
  ◌≡◌, refl, ap, ◌∙◌, inl, inr, true, false, not, ◌&&◌, ◌||◌, none, List, [], ◌∷◌, Bool-cases,
  Option-cases, arith, if◌then◌else◌,
}
use sandal.Prelude.Words.{Bytes}
use sandal.Prelude.Text.{equal, equal_iff}
use sandal.Controller.Names.{is_some, config_file, validate_name, valid, name_from_config_file}
use sandal.Controller.Store.{Config, read_file, find, delete_container}
use sandal.Controller.Watch.{names_on_disk, is_member, drop_gone, entry_names}
use sandal.Controller.FileNames.{name_from_config_file_iff}
use sandal.Controller.Listing.{IsUnique, find-delete_container, delete_container-IsUnique}

same_file : (m n : Bytes) → equal m n ≡ true → config_file m ≡ config_file n
same_file m n e = ap config_file ((equal_iff m n).0 e)

pub same_member : (m n : Bytes) (d : List Bytes) → equal m n ≡ true → is_member m d ≡ is_member n d
same_member m n d e = ap (λ k. is_member k d) ((equal_iff m n).0 e)

pub same_entry : (m n : Bytes) (ms : List Config) → equal m n ≡ true → find m ms ≡ find n ms
same_entry m n ms e = ap (λ k. find k ms) ((equal_iff m n).0 e)

names_on_disk-cons :
    (n : Bytes) (v : validate_name n ≡ valid) (f b : Bytes) (fs : List (Bytes × Bytes))
    → is_member n (names_on_disk ((f, b) ∷ fs))
      ≡ (equal f (config_file n) || is_member n (names_on_disk fs))
unfolding names_on_disk is_member
names_on_disk-cons n v f b fs = elim (Option-cases (name_from_config_file f)) [
  | inl e ↦
      (let k : equal f (config_file n) ≡ false =
          ground (arith, name_from_config_file_iff f n, equal_iff f (config_file n)) in
        rw (e, k) refl)
  | inr (m, e) ↦
      (let k : equal f (config_file n) ≡ equal m n = ground (
        arith,
        name_from_config_file_iff f m,
        name_from_config_file_iff f n,
        equal_iff f (config_file n),
        equal_iff m n,
        same_file m n,
      ) in
        rw (e, k) refl)
]

-- The names of onDisk are those whose files can be read.
pub is_member-names_on_disk :
    (n : Bytes) (v : validate_name n ≡ valid) (fs : List (Bytes × Bytes))
    → is_member n (names_on_disk fs) ≡ is_some (read_file (config_file n) fs)
unfolding read_file
is_member-names_on_disk n v [] = unfold names_on_disk is_member in refl
is_member-names_on_disk n v ((f, b) ∷ fs) =
    names_on_disk-cons n v f b fs ∙ ground (arith, is_member-names_on_disk n v fs)

pub is_member-entry_names :
    (n : Bytes) (ms : List Config) → is_member n (entry_names ms) ≡ is_some (find n ms)
unfolding is_member find
is_member-entry_names n [] = refl
is_member-entry_names n (m ∷ ms) = ground (arith, is_member-entry_names n ms)

pub drop_gone-IsUnique :
    (d : List Bytes) (cs ms : List Config) → IsUnique ms → IsUnique (drop_gone d cs ms)
unfolding drop_gone
drop_gone-IsUnique d [] ms u = u
drop_gone-IsUnique d (c ∷ cs) ms u = elim (Bool-cases (is_member c.name d)) [
  | inl e ↦ rw e (drop_gone-IsUnique d cs ms u)
  | inr e ↦ rw e (drop_gone-IsUnique d cs _ (delete_container-IsUnique c.name ms u))
]

pub find-drop_gone :
    (n : Bytes) (d : List Bytes) (cs ms : List Config)
    → IsUnique ms
    → find n (drop_gone d cs ms)
      ≡ (if is_member n (entry_names cs) && not (is_member n d) then none else find n ms)
unfolding drop_gone is_member
find-drop_gone n d [] ms u = refl
find-drop_gone n d (c ∷ cs) ms u = elim (Bool-cases (is_member c.name d)) [
  | inl e ↦
      rw e (find-drop_gone n d cs ms u ∙ ground (arith, equal_iff c.name n, same_member c.name n d))
  | inr e ↦ rw e (
      find-drop_gone n d cs (delete_container c.name ms) (delete_container-IsUnique c.name ms u)
      ∙ (rw (find-delete_container n c.name ms u)
          (ground (arith, equal_iff c.name n, same_member c.name n d))))
]

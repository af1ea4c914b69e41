-- ===== src/Tests/ControllerRuns.antt =====
-- Runs of the controller of pkg/controller and its watcher, and each theorem at an input.
use sandal.Prelude.{
  ◌≡◌, refl, ◌⊎◌, ◌↔◌, ℕ, ◌+◌, ◌<◌, ◌≤◌, All, Bool, true, false, Option, none, some, List, [], ◌∷◌,
  ◌++◌, length, take, drop, arith, if◌then◌else◌, take-append_self, drop-append_self,
}
use sandal.Prelude.Words.{Bytes}
use sandal.Prelude.Text.{codes, equal, has_prefix, index}
use sandal.Controller.Names.{
  modified, moved_to, moved_from, action_delete, action_unknown, disk_event_action, config_file,
  validate_name, valid, bad_name, name_from_config_file, matches_name,
}
use sandal.Controller.Store.{
  Config, Json, IsJson, State, read_file, write_file, find, last_first, delete_container,
  get_container,
}
use sandal.Controller.Sets.{
  file_generation, set_in_daemon, set_from_client, set_container_by_disk, post_container,
  write_container_file, held, bytes_or_nil,
}
use sandal.Controller.Watch.{
  names_on_disk, is_member, drop_gone, load_file, load_missing, reconcile_state, load_by_event,
  Happening, daemon_set, client_set, noticed, reconciled, run_daemon, containers_from_dir,
}
use sandal.Controller.FileNames.{name_from_config_file_iff}
use sandal.Controller.Newer.{Advance}
use sandal.Controller.Stored.{highest, IsStored, set_in_daemon-IsStored}
use sandal.Controller.Fallback.{highest_on_disk, set_from_client-load_by_event}
use sandal.Controller.Generations.{Limited, IsBelow}
use sandal.Controller.Lasting.{IsGone, run_daemon-Lasts}
use sandal.Controller.Loading.{ReadsAs, IsDistinct}
use sandal.Controller.Converging.{kept, reconcile_state-kept, reconcile_state-unwritten}

-- A stand-in for JSON: the generation, the length of the name, the name, the rest.
abbrev plain_unmarshal : Bytes → Option Config
plain_unmarshal [] = none
plain_unmarshal (g ∷ []) = none
plain_unmarshal (g ∷ n ∷ s) = some (record { name = take n s; generation = g; rest = drop n s })

abbrev plain_generation : Bytes → Option ℕ
plain_generation [] = none
plain_generation (g ∷ s) = some g

abbrev plain : Json
plain = record {
  marshal = λ c. c.generation ∷ length c.name ∷ (c.name ++ c.rest);
  unmarshal = plain_unmarshal;
  generation_in = plain_generation;
}

plain-IsJson : IsJson plain
plain-IsJson = record {
  unmarshal-marshal =
      λ c _. rw (take-append_self c.name c.rest, drop-append_self c.name c.rest) refl;
  generation-marshal = λ c _. refl;
  generation-nil = refl;
}

abbrev web : Bytes
web = codes "web.1"

abbrev db : Bytes
db = codes "db"

abbrev web_at : ℕ → Config
web_at g = record { name = web; generation = g; rest = 7 ∷ [] }

abbrev db_at : ℕ → Config
db_at g = record { name = db; generation = g; rest = [] }

-- The entry of web.1 with its file, and the file of db without an entry.
abbrev start : State
start = record {
  memory = web_at 3 ∷ [];
  files =
      (codes "web.1.json", plain.marshal (web_at 3))
      ∷ (codes "db.json", plain.marshal (db_at 2))
      ∷ [];
}

web-valid : validate_name web ≡ valid
web-valid = unfold validate_name in unfold matches_name in refl

db-valid : validate_name db ≡ valid
db-valid = unfold validate_name in unfold matches_name in refl

start-room : highest plain (web_at 1) start < 18446744073709551615
unfolding find read_file config_file file_generation equal
start-room = omega arith

set_in_daemon-IsStored_example :
    IsStored plain true (web_at 1) start (set_in_daemon plain true (web_at 1) start)
set_in_daemon-IsStored_example =
    set_in_daemon-IsStored plain plain-IsJson true (web_at 1) start web-valid start-room

stale : 3 < highest plain (web_at 1) start + 2
unfolding find read_file config_file file_generation equal
stale = omega arith

start_file :
    (x y : Bool)
    → let o : Option Bytes =
        (if x
          then some (plain.marshal (web_at 3))
          else (if y then some (plain.marshal (db_at 2)) else none)) in
      (file_generation plain (bytes_or_nil o) < 4) × Limited 4 (load_file plain o)
unfolding file_generation load_file
start_file true y = omega arith
start_file false true = omega arith
start_file false false = omega arith

web_entry : find web start.memory ≡ some (web_at 3)
unfolding find equal
web_entry = refl

web_alone : find web [] ≡ none
unfolding find
web_alone = refl

start-IsBelow : IsBelow plain 4 start
unfolding find read_file file_generation load_file
start-IsBelow = record {
  unique = (refl, tt);
  memory_below = λ n. ground arith;
  files_below = λ f. start_file (equal (codes "web.1.json") f) (equal (codes "db.json") f);
}

-- A set, a client's write, a stale read by the watcher, and a reconcile.
abbrev events : List Happening
events =
    daemon_set true (web_at 1)
    ∷ client_set true (db_at 0)
    ∷ noticed moved_to (codes "web.1.json") (some (plain.marshal (web_at 2)))
    ∷ reconciled (db ∷ web ∷ [])
    ∷ []

run_daemon-Lasts_example :
    IsGone plain web events start
    ⊎ Advance (web_at 3) (find web (run_daemon plain events start).memory)
unfolding load_file
run_daemon-Lasts_example =
    run_daemon-Lasts plain plain-IsJson web web-valid 4 events (web_at 3) start (omega arith)
      (omega arith) start-IsBelow web_entry (omega arith)

order-names : (k : Bytes) → is_member k (db ∷ web ∷ []) ≡ is_member k (names_on_disk start.files)
unfolding is_member names_on_disk matches_name
order-names k = ground arith

order-ReadsAs :
    All (λ k. ReadsAs k (load_file plain (read_file (config_file k) start.files))) (db ∷ web ∷ [])
unfolding load_file read_file config_file equal
order-ReadsAs = (refl, (refl, tt))

order-IsDistinct : IsDistinct (db ∷ web ∷ [])
unfolding equal
order-IsDistinct = ((refl, tt), (tt, tt))

reconcile_state-kept_example :
    find db (reconcile_state plain (db ∷ web ∷ []) start).memory
    ≡ kept plain (read_file (config_file db) start.files) (find db start.memory)
reconcile_state-kept_example =
    reconcile_state-kept plain (db ∷ web ∷ []) start db (web_alone, tt) (db-valid, (web-valid, tt))
      order-IsDistinct order-ReadsAs order-names db-valid

abbrev new_one : Config
new_one = record { name = codes "new"; generation = 0; rest = [] }

new-valid : validate_name (codes "new") ≡ valid
unfolding validate_name matches_name
new-valid = refl

new-room : highest plain new_one start < 18446744073709551615
unfolding find read_file config_file file_generation equal
new-room = omega arith

new-unread : read_file (config_file (codes "new")) start.files ≡ none
unfolding read_file config_file equal
new-unread = refl

reconcile_state-unwritten_example :
    ((set_in_daemon plain false new_one start).2 ≡ true)
    × (find (codes "new") (set_in_daemon plain false new_one start).1.memory
        ≡ some (set_in_daemon plain false new_one start).0)
    × (find
          (codes "new")
          (reconcile_state plain (db ∷ web ∷ []) (set_in_daemon plain false new_one start).1).memory
        ≡ none)
reconcile_state-unwritten_example =
    reconcile_state-unwritten plain plain-IsJson (db ∷ web ∷ []) new_one start (web_alone, tt)
      (db-valid, (web-valid, tt)) order-IsDistinct order-ReadsAs order-names new-valid new-room
      new-unread

client-room : highest_on_disk plain (web_at 0) start < 18446744073709551615
unfolding read_file config_file file_generation equal
client-room = omega arith

client-written : held (find web start.memory) ≤ highest_on_disk plain (web_at 0) start
unfolding find read_file config_file file_generation equal
client-written = omega arith

set_from_client-load_by_event_example :
    find web
      (load_by_event plain moved_to
        (config_file web)
        (read_file (config_file web) (set_from_client plain false true (web_at 0) start).1.files)
        (set_from_client plain false true (web_at 0) start).1).memory
    ≡ (if equal web web
        then some (set_from_client plain false true (web_at 0) start).0
        else find web start.memory)
set_from_client-load_by_event_example =
    set_from_client-load_by_event plain plain-IsJson (web_at 0) start web web-valid client-room
      client-written

name_from_config_file_iff_example :
    (name_from_config_file (codes "web.1.json") ≡ some web)
    ↔ ((codes "web.1.json" ≡ config_file web) × (validate_name web ≡ valid))
name_from_config_file_iff_example = name_from_config_file_iff (codes "web.1.json") web

-- The set is above the file's generation; the stale read and the reconcile leave it, and the file of
-- db is loaded as the client wrote it. A deletion moves the last entry forward.
runs :
    ((run_daemon plain events start).memory ≡ web_at 4 ∷ db_at 3 ∷ [])
    × (delete_container web (web_at 1 ∷ db_at 2 ∷ db_at 3 ∷ []) ≡ db_at 3 ∷ db_at 2 ∷ [])
    × (containers_from_dir plain ((codes "x", []) ∷ start.files) ≡ web_at 3 ∷ db_at 2 ∷ [])
    × (get_container (codes " ") start.memory ≡ none)
    × ((post_container plain true (plain.marshal (web_at 0)) start).0.memory ≡ web_at 4 ∷ [])
    × ((set_from_client plain true true (web_at 0) start).1.memory ≡ web_at 4 ∷ [])
    × (disk_event_action moved_from (codes "web.1.json") ≡ action_delete)
    × (disk_event_action modified (codes ".json") ≡ action_unknown)
    × (validate_name (codes "..") ≡ bad_name)
unfolding run_daemon delete_container containers_from_dir get_container post_container
    set_from_client disk_event_action validate_name matches_name equal find write_file read_file
    has_prefix index set_in_daemon load_by_event reconcile_state load_missing drop_gone is_member
    names_on_disk config_file file_generation set_container_by_disk write_container_file last_first
runs = (refl, refl, refl, refl, refl, refl, refl, refl, refl)

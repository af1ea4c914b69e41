-- ===== src/Controller/Store.antt =====
-- The state that the controller keeps, in memory and as files: containers.go, del.go and get.go of
-- pkg/controller. A configuration is its name, its generation and its other fields, which the code
-- hands on as they are; encoding/json is a parameter.
use sandal.Prelude.{ℕ, ◌<◌, ◌≡◌, Option, none, some, List, [], ◌∷◌, if◌then◌else◌}
use sandal.Prelude.Words.{Bytes}
use sandal.Prelude.Text.{equal}
use sandal.Controller.Names.{validate_name, valid}

pub record Config : Type 0 where
  pub name : Bytes
  pub generation : ℕ
  pub rest : Bytes

-- Config.Json, json.Unmarshal into a Config, and into fileGeneration's struct of the generation.
pub record Json : Type 0 where
  pub marshal : Config → Bytes
  pub unmarshal : Bytes → Option Config
  pub generation_in : Bytes → Option ℕ

-- A configuration that the program can hold.
abbrev pub IsConfig : Config → Type 0
IsConfig c = (validate_name c.name ≡ valid) × (c.generation < 18446744073709551616)

-- What encoding/json documents: what is marshalled is unmarshalled, the generation alone too, and
-- no bytes at all are no JSON.
pub record IsJson (j : Json) : Type 0 where
  pub unmarshal-marshal : (c : Config) → IsConfig c → j.unmarshal (j.marshal c) ≡ some c
  pub generation-marshal :
      (c : Config) → IsConfig c → j.generation_in (j.marshal c) ≡ some c.generation
  pub generation-nil : j.generation_in [] ≡ none

-- containerList, and the files of BaseStateDir with their contents; its directories are left out,
-- since the code passes over them.
pub record State : Type 0 where
  pub memory : List Config
  pub files : List (Bytes × Bytes)

-- os.ReadFile, os.Rename over a name and os.Remove.
unfoldable pub read_file : Bytes → List (Bytes × Bytes) → Option Bytes
unfolding equal
read_file f [] = none
read_file f ((g, b) ∷ fs) = if equal g f then some b else read_file f fs

unfoldable pub write_file : Bytes → Bytes → List (Bytes × Bytes) → List (Bytes × Bytes)
unfolding equal
write_file f b [] = (f, b) ∷ []
write_file f b ((g, d) ∷ fs) = if equal g f then (g, b) ∷ fs else (g, d) ∷ write_file f b fs

unfoldable pub remove_file : Bytes → List (Bytes × Bytes) → List (Bytes × Bytes)
unfolding equal
remove_file f [] = []
remove_file f ((g, d) ∷ fs) =
    let rest = remove_file f fs in if equal g f then rest else (g, d) ∷ rest

-- The loop of GetContainer, and those of set.go: the first entry of the name.
unfoldable pub find : Bytes → List Config → Option Config
unfolding equal
find n [] = none
find n (c ∷ cs) = if equal c.name n then some c else find n cs

-- The first entry of the name is replaced; without one the entry comes last.
unfoldable pub put : Config → List Config → List Config
unfolding equal
put c [] = c ∷ []
put c (m ∷ ms) = if equal m.name c.name then c ∷ ms else m ∷ put c ms

abbrev pub put_last : Config → List Config → List Config
put_last m [] = m ∷ []
put_last m (l ∷ r) = l ∷ m ∷ r

-- The list with its last entry first.
unfoldable pub last_first : List Config → List Config
last_first [] = []
last_first (m ∷ ms) = put_last m (last_first ms)

-- DeleteContainer: the first entry of the name gives way to the last entry of the list.
unfoldable pub delete_container : Bytes → List Config → List Config
unfolding equal last_first
delete_container n [] = []
delete_container n (m ∷ ms) = if equal m.name n then last_first ms else m ∷ delete_container n ms

-- GetContainer, on the list that Containers gave.
unfoldable pub get_container : Bytes → List Config → Option Config
unfolding find equal
get_container n cs = if equal n [] then none else (if equal n (b' ' ∷ []) then none else find n cs)

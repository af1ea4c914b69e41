-- ===== src/Controller/Generations.antt =====
-- The generations in memory and in the files stay below a bound that grows by one with each
-- happening: pkg/controller/set.go and pkg/daemon/disk-events.go.
use sandal.Prelude.{
  ◌≡◌, inl, inr, ℕ, suc, ◌<◌, Bool, Option, none, some, List, [], ◌∷◌, Bool-cases, arith,
  if◌then◌else◌,
}
use sandal.Prelude.Words.{Bytes}
use sandal.Prelude.Text.{equal}
use sandal.Controller.Names.{config_file}
use sandal.Controller.Store.{
  Config, Json, IsJson, IsConfig, State, read_file, remove_file, find, delete_container,
}
use sandal.Controller.Sets.{held, or_zero, bytes_or_nil, file_generation, load_from_disk}
use sandal.Controller.Watch.{
  is_member, names_on_disk, drop_gone, load_file, load_read, load_missing,
}
use sandal.Controller.Listing.{IsUnique, find-delete_container, delete_container-IsUnique}
use sandal.Controller.Dropping.{drop_gone-IsUnique, find-drop_gone}
use sandal.Controller.Newer.{
  kept, added, replaced, load_from_disk-LoadCase, load_from_disk-files, load_from_disk-IsUnique,
}
use sandal.Controller.Stored.{read_file-remove_file}

abbrev pub Limited : ℕ → Option Config → Type 0
Limited b none = Unit {0}
Limited b (some c) = c.generation < b

abbrev pub MemoryBelow : ℕ → List Config → Type 0
MemoryBelow b ms = (n : Bytes) → held (find n ms) < b

pub Limited-suc : (b : ℕ) (o : Option Config) → Limited b o → Limited (suc b) o
Limited-suc b none l = tt
Limited-suc b (some c) l = omega arith

module _ (j : Json) where
  abbrev pub FilesBelow : ℕ → List (Bytes × Bytes) → Type 0
  FilesBelow b fs =
      (f : Bytes)
      → (file_generation j (bytes_or_nil (read_file f fs)) < b)
        × Limited b (load_file j (read_file f fs))

  pub record IsBelow (b : ℕ) (s : State) : Type 0 where
    pub unique : IsUnique s.memory
    pub memory_below : MemoryBelow b s.memory
    pub files_below : FilesBelow b s.files

  load_from_disk-MemoryBelow :
      (b : ℕ) (c : Config) (s : State)
      → c.generation < b
      → MemoryBelow b s.memory
      → MemoryBelow b (load_from_disk j c s).0.memory
  load_from_disk-MemoryBelow b c s l h n = elim (load_from_disk-LoadCase j c n s) [
    | kept e ↦ rw e (h n)
    | added e g r ↦ rw e l
    | replaced x e g k ↦ rw e l
  ]

  pub load_read-IsBelow :
      (b : ℕ) (o : Option Config) (s : State)
      → Limited b o
      → IsBelow b s
      → IsBelow b (load_read j o s)
  load_read-IsBelow b none s l i = i
  load_read-IsBelow b (some c) s l i = record {
    unique = load_from_disk-IsUnique j c s i.unique;
    memory_below = load_from_disk-MemoryBelow b c s l i.memory_below;
    files_below = rw (load_from_disk-files j c s) i.files_below;
  }

  pub load_missing-IsBelow :
      (b : ℕ) (in_mem ns : List Bytes) (s : State)
      → IsBelow b s
      → IsBelow b (load_missing j in_mem ns s)
  unfolding load_missing
  load_missing-IsBelow b in_mem [] s i = i
  load_missing-IsBelow b in_mem (n ∷ ns) s i = elim (Bool-cases (is_member n in_mem)) [
    | inl e ↦ rw (e, load_missing) (load_missing-IsBelow b in_mem ns s i)
    | inr e ↦
        rw (e, load_missing)
          (load_missing-IsBelow b in_mem ns _ (
            load_read-IsBelow b (load_file j (read_file (config_file n) s.files)) s
              (i.files_below (config_file n)).1 i))
  ]

  -- A list that has no other entries.
  kept-MemoryBelow :
      (b : ℕ) (ms rs : List Config) (k : Bytes → Bool)
      → ((n : Bytes) → find n rs ≡ (if k n then none else find n ms))
      → MemoryBelow b ms
      → MemoryBelow b rs
  kept-MemoryBelow b ms rs k e h n =
      rw (e n) (elim (Bool-cases (k n)) [ inl t ↦ rw t (omega (arith, h n)) | inr t ↦ rw t (h n) ])

  pub remove_file-FilesBelow :
      (b : ℕ) (f : Bytes) (fs : List (Bytes × Bytes))
      → or_zero (j.generation_in []) < b
      → FilesBelow b fs
      → FilesBelow b (remove_file f fs)
  unfolding load_file file_generation
  remove_file-FilesBelow b f fs z h g =
      rw (read_file-remove_file f g fs)
        (elim (Bool-cases (equal f g)) [ inl e ↦ rw e (z, tt) | inr e ↦ rw e (h g) ])

  -- One file has a new configuration.
  pub written-FilesBelow :
      (law : IsJson j) (b : ℕ) (d : Config) (k : Bytes → Bool) (fs gs : List (Bytes × Bytes))
      → ((f : Bytes) → read_file f gs ≡ (if k f then some (j.marshal d) else read_file f fs))
      → IsConfig d
      → d.generation < b
      → FilesBelow b fs
      → FilesBelow b gs
  unfolding load_file file_generation
  written-FilesBelow law b d k fs gs e c l h f = rw (e f) (elim (Bool-cases (k f)) [
    | inl t ↦ rw (t, law.generation-marshal d c, law.unmarshal-marshal d c) (l, l)
    | inr t ↦ rw t (h f)
  ])

  pub drop_gone-IsBelow :
      (b : ℕ) (s : State)
      → IsBelow b s
      → IsBelow b (record s { memory = drop_gone (names_on_disk s.files) s.memory s.memory })
  drop_gone-IsBelow b s i = record {
    unique = drop_gone-IsUnique (names_on_disk s.files) s.memory s.memory i.unique;
    memory_below =
        kept-MemoryBelow b s.memory _ _
          (λ n. find-drop_gone n (names_on_disk s.files) s.memory s.memory i.unique) i.memory_below;
    files_below = i.files_below;
  }

  pub delete_container-IsBelow :
      (b : ℕ) (k : Bytes) (s : State)
      → IsBelow b s
      → IsBelow b (record s { memory = delete_container k s.memory })
  delete_container-IsBelow b k s i = record {
    unique = delete_container-IsUnique k s.memory i.unique;
    memory_below =
        kept-MemoryBelow b s.memory _ (λ n. equal k n)
          (λ n. find-delete_container n k s.memory i.unique) i.memory_below;
    files_below = i.files_below;
  }

  pub IsBelow-suc : (b : ℕ) (s : State) → IsBelow b s → IsBelow (suc b) s
  IsBelow-suc b s i = record {
    unique = i.unique;
    memory_below = λ n. omega (arith, i.memory_below n);
    files_below = λ f. (
      omega (arith, (i.files_below f).0),
      Limited-suc b (load_file j (read_file f s.files)) (i.files_below f).1,
    );
  }

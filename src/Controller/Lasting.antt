-- ===== src/Controller/Lasting.antt =====
-- No update is lost: what happens in the daemon and beside it never puts an older configuration in
-- the place of a newer one. pkg/controller/set.go and pkg/daemon/disk-events.go.
use sandal.Prelude.{
  ◌≡◌, refl, ap, ◌∙◌, inl, inr, ◌⊎◌, ℕ, suc, ◌+◌, ◌<◌, ◌≤◌, Bool, true, false, not, ◌&&◌, Option,
  none, some, List, [], ◌∷◌, ◌++◌, length, All, Bool-cases, arith,
}
use sandal.Prelude.Words.{Bytes}
use sandal.Prelude.Text.{equal}
use sandal.Controller.Names.{
  is_some, is_valid, validate_name, valid, disk_event_action, DiskAction, action_unknown,
  action_ignore, action_load, action_delete, name_from_config_file,
}
use sandal.Controller.Store.{Config, Json, IsJson, State, find}
use sandal.Controller.Sets.{
  max, held, bytes_or_nil, disk_bytes, file_generation, set_in_daemon, set_from_client,
  set_container_by_disk, set_by_server,
}
use sandal.Controller.Watch.{
  is_member, names_on_disk, drop_gone, load_file, entry_names, reconcile_state, load_by_event,
  acted, Happening, daemon_set, client_set, noticed, file_removed, reconciled, happen, run_daemon,
}
use sandal.Controller.FileNames.{is_valid_iff}
use sandal.Controller.Listing.{IsUnique, find-delete_container}
use sandal.Controller.Dropping.{find-drop_gone}
use sandal.Controller.Stored.{highest, max_bounds, set_in_daemon-IsStored}
use sandal.Controller.Generations.{IsBelow}
use sandal.Controller.Fallback.{memory-write_container_file}
use sandal.Controller.Newer.{Advance, Advance-newer}
use sandal.Controller.Dropping.{same_entry, is_member-names_on_disk}
use sandal.Controller.Advancing.{Given, All-Given-suc, happen-IsBelow, set_generation, set-invalid}
use sandal.Controller.Loads.{load_read-Advance, load_missing-Advance, load_missing-none}

-- The entry is gone, the same, or a newer one.
abbrev Lasts : Config → Option Config → Type 0
Lasts m o = (o ≡ none) ⊎ Advance m o

-- At some point of the happenings the name has no entry.
abbrev pub IsGone : Json → Bytes → List Happening → State → Type 0
IsGone j n hs s =
    (xs : List Happening) × (ys : List Happening) × (hs ≡ xs ++ ys)
    × (find n (run_daemon j xs s).memory ≡ none)

module _ (j : Json) where
  newer_than :
      (c m : Config) (s : State) {g : ℕ}
      → g ≡ highest j c s + 1
      → find c.name s.memory ≡ some m
      → m.generation < g
  newer_than c m s e f =
      let k : held (find c.name s.memory) ≡ m.generation = ap held f in
      omega (
        arith,
        max_bounds c.generation (held (find c.name s.memory)),
        max_bounds (max c.generation (held (find c.name s.memory)))
            (file_generation j (disk_bytes c.name s)),
      )

unread : (x y : Bool) (o : Option Bytes) → (x && not y) ≡ true → y ≡ is_some o → o ≡ none
unread x y none e f = refl
unread x y (some b) e f = ground (arith)

module _ (j : Json) (law : IsJson j) (n : Bytes) (named : validate_name n ≡ valid) where
  daemon_set-Advance :
      (b : ℕ) (small : b < 18446744073709551616) (writes : Bool) (c m : Config) (s : State)
      → c.generation < b
      → IsBelow j b s
      → find n s.memory ≡ some m
      → Advance m (find n (set_in_daemon j writes c s).1.memory)
  daemon_set-Advance b small writes c m s l i f =
      elim (Bool-cases (is_valid (validate_name c.name))) [
        | inr e ↦ rw (set-invalid j law b small writes c s e) (inl f)
        | inl e ↦
            (let v : validate_name c.name ≡ valid = (is_valid_iff _).0 e in
              let room : highest j c s < 18446744073709551615 =
                set_generation j law b small c s l i in
              let (_, g, _, _, mem, _) = set_in_daemon-IsStored j law writes c s v room in
              elim (Bool-cases (equal c.name n)) [
                | inr k ↦ inl (mem n ∙ rw k f)
                | inl k ↦ inr (
                  (set_in_daemon j writes c s).0,
                  mem n ∙ rw k refl,
                  newer_than j c m s g (same_entry c.name n s.memory k ∙ f),
                )
              ])
      ]

  reconcile_state-Lasts :
      (order : List Bytes) (m : Config) (s : State)
      → IsUnique s.memory
      → find n s.memory ≡ some m
      → 0 < m.generation
      → Lasts m (find n (reconcile_state j order s).memory)
  unfolding reconcile_state
  reconcile_state-Lasts order m s u f p =
      let t : State = record s { memory = drop_gone (names_on_disk s.files) s.memory s.memory } in
      let g = find-drop_gone n (names_on_disk s.files) s.memory s.memory u in
      elim (Bool-cases
        (is_member n (entry_names s.memory) && not (is_member n (names_on_disk s.files)))) [
          | inr k ↦ inr (load_missing-Advance j n (entry_names s.memory) order m t (g ∙ rw k f) p)
          | inl k ↦ inl (
              load_missing-none j n (entry_names s.memory) order t (g ∙ rw k refl) (
                unread (is_member n (entry_names s.memory)) (is_member n (names_on_disk s.files)) _
                  k (is_member-names_on_disk n named s.files)))
        ]

  acted-Lasts :
      (a : DiskAction) (base : Bytes) (read : Option Bytes) (m : Config) (s : State)
      → IsUnique s.memory
      → find n s.memory ≡ some m
      → 0 < m.generation
      → Lasts m (find n (acted j a base read s).memory)
  acted-Lasts action_unknown base read m s u f p = inr (inl f)
  acted-Lasts action_ignore base read m s u f p = inr (inl f)
  acted-Lasts action_load base read m s u f p =
      inr (load_read-Advance j n (load_file j read) m s f p)
  acted-Lasts action_delete base read m s u f p =
      let k : Bytes = bytes_or_nil (name_from_config_file base) in
      elim (Bool-cases (equal k n)) [
        | inl e ↦ inl (find-delete_container n k s.memory u ∙ rw e refl)
        | inr e ↦ inr (inl (find-delete_container n k s.memory u ∙ rw e f))
      ]

  client_set-memory :
      (writes : Bool) (c : Config) (s : State)
      → (set_from_client j false writes c s).1.memory ≡ s.memory
  unfolding set_from_client set_by_server set_container_by_disk
  client_set-memory writes c s = elim (Bool-cases (is_valid (validate_name c.name))) [
    | inr v ↦ rw v refl
    | inl v ↦ elim (Bool-cases (equal c.name [])) [
      | inl e ↦ rw (v, e) refl
      | inr e ↦ rw (v, e) (memory-write_container_file j writes _ s)
    ]
  ]

  happen-Lasts :
      (b : ℕ) (small : b < 18446744073709551616) (h : Happening) (m : Config) (s : State)
      → Given j b h
      → IsBelow j b s
      → find n s.memory ≡ some m
      → 0 < m.generation
      → Lasts m (find n (happen j h s).memory)
  unfolding happen load_by_event
  happen-Lasts b small (daemon_set writes c) m s l i f p =
      inr (daemon_set-Advance b small writes c m s l i f)
  happen-Lasts b small (client_set writes c) m s l i f p =
      inr (inl (ap (find n) (client_set-memory writes c s) ∙ f))
  happen-Lasts b small (noticed ev base read) m s l i f p =
      acted-Lasts (disk_event_action ev base) base read m s i.unique f p
  happen-Lasts b small (file_removed x) m s l i f p = inr (inl f)
  happen-Lasts b small (reconciled order) m s l i f p = reconcile_state-Lasts order m s i.unique f p

  -- A name that has no entry after one happening.
  IsGone-later :
      (h : Happening) (hs : List Happening) (s : State)
      → IsGone j n hs (happen j h s)
      → IsGone j n (h ∷ hs) s
  unfolding run_daemon
  IsGone-later h hs s (xs, ys, e, g) = (h ∷ xs, ys, ap (◌∷◌ h) e, g)

  -- Over any happenings, an entry of generation 1 or more is at the end the same or one of a higher
  -- generation, unless its name had no entry at some point between. The bound is above all
  -- generations of the state and of what the happenings bring, with room below 2^64 for one step
  -- for each of them, and no name comes twice in the list.
  pub run_daemon-Lasts :
      (b : ℕ) (hs : List Happening) (m : Config) (s : State)
      → All (Given j b) hs
      → b + length hs ≤ 18446744073709551616
      → IsBelow j b s
      → find n s.memory ≡ some m
      → 0 < m.generation
      → IsGone j n hs s ⊎ Advance m (find n (run_daemon j hs s).memory)
  unfolding run_daemon
  run_daemon-Lasts b [] m s gs room i f p = inr (inl f)
  run_daemon-Lasts b (h ∷ hs) m s (g, gs) room i f p =
      let small : b < 18446744073709551616 = omega arith in
      let next : IsBelow j (suc b) (happen j h s) = happen-IsBelow j law b small h s g i in
      let later = λ (d : Config) (e : find n (happen j h s).memory ≡ some d) (q : 0 < d.generation).
        run_daemon-Lasts (suc b) hs d (happen j h s) (All-Given-suc j b hs gs) (omega arith) next e
          q in
      elim (happen-Lasts b small h m s g i f p) [
        | inl e ↦ inl (h ∷ [], hs, refl, e)
        | inr (inl e) ↦ elim (later m e p) [ inl x ↦ inl (IsGone-later h hs s x) | inr a ↦ inr a ]
        | inr (inr (d, e, l)) ↦ elim (later d e (omega arith)) [
          | inl x ↦ inl (IsGone-later h hs s x)
          | inr a ↦ inr (Advance-newer m d _ l a)
        ]
      ]

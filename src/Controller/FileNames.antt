-- ===== src/Controller/FileNames.antt =====
-- State files and the names of their containers: pkg/container/config/tools.go.
use sandal.Prelude.{
  ℕ, zero, suc, ◌-◌, ◌≡◌, ◌↔◌, refl, ap, sym, ◌∙◌, inl, inr, true, false, Option, none, some, List,
  [], ◌∷◌, ◌++◌, append_assoc, length, take, drop, leb, ltb, ◌==◌, Bool-cases, Option-cases, arith,
  take-append_self, drop-append_self, length-append,
}
use sandal.Prelude.Words.{Bytes}
use sandal.Prelude.Text.{codes, equal_iff, has_prefix, index}
use sandal.Controller.Names.{
  Validity, valid, empty_name, long_name, bad_name, is_valid, is_alphanumeric, validate_name,
  matches_name, config_file, cut_suffix, checked_name, name_from_config_file, is_some,
  is_state_temp_file, FileEvent, action_of, action_ignore, disk_event_action,
}

take-append-drop {ℓ} : {A : Type ℓ} (n : ℕ) (s : List A) → take n s ++ drop n s ≡ s
take-append-drop zero s = refl
take-append-drop (suc n) [] = refl
take-append-drop (suc n) (x ∷ s) = ap (◌∷◌ x) (take-append-drop n s)

pub is_valid_iff : (v : Validity) → (is_valid v ≡ true) ↔ (v ≡ valid)
is_valid_iff valid = ground arith
is_valid_iff empty_name = ground arith
is_valid_iff long_name = ground arith
is_valid_iff bad_name = ground arith

cut_suffix-append : (s t : Bytes) → cut_suffix (s ++ t) t ≡ some s
unfolding cut_suffix
cut_suffix-append s t =
    let l : length (s ++ t) - length t ≡ length s = omega (arith, length-append s t) in
    let k : leb (length t) (length (s ++ t)) ≡ true = ground (arith, length-append s t) in
    rw (k, l, drop-append_self s t, (equal_iff t t).1 refl, take-append_self s t) refl

append_of_cut_suffix : (s t r : Bytes) → cut_suffix s t ≡ some r → s ≡ r ++ t
unfolding cut_suffix
append_of_cut_suffix s t r e =
    ground
      (arith, equal_iff (drop (length s - length t) s) t, take-append-drop (length s - length t) s)

name_of_checked :
    (o : Option Bytes) (name : Bytes)
    → checked_name o ≡ some name
    → (o ≡ some name) × (validate_name name ≡ valid)
name_of_checked none name e = cc
name_of_checked (some n) name e = elim (Bool-cases (is_valid (validate_name n))) [
  | inr k ↦ (let g : none ≡ some name = rw k at e in absurd (cc))
  | inl k ↦
      (let f : some n ≡ some name = rw k at e in
        let same : n ≡ name = cc in
        (ap some same, ap validate_name (sym same) ∙ (is_valid_iff (validate_name n)).0 k))
]

-- NameFromConfigFile gives a name exactly for the file of that name, where the name is valid.
pub name_from_config_file_iff :
    (base name : Bytes)
    → (name_from_config_file base ≡ some name)
      ↔ ((base ≡ config_file name) × (validate_name name ≡ valid))
unfolding name_from_config_file config_file
name_from_config_file_iff base name = (
  λ e.
      (let (cut, v) = name_of_checked (cut_suffix base (codes ".json")) name e in
        (append_of_cut_suffix base (codes ".json") name cut, v)),
  λ (e, v). rw (e, cut_suffix-append name (codes ".json"), v) refl,
)

valid-is_alphanumeric :
    (c : ℕ) (s : Bytes) → validate_name (c ∷ s) ≡ valid → is_alphanumeric c ≡ true
unfolding validate_name matches_name
valid-is_alphanumeric c s e = elim (Bool-cases (is_alphanumeric c)) [
  | inl k ↦ k
  | inr k ↦ elim (Bool-cases (ltb 128 (length (c ∷ s)))) [
    | inl l ↦ (let g : long_name ≡ valid = rw l at e in absurd (cc))
    | inr l ↦ (let g : bad_name ≡ valid = rw (l, k) at e in absurd (cc))
  ]
]

not-dot : (c : ℕ) → is_alphanumeric c ≡ true → (c == b'.') ≡ false
not-dot c h = ground arith

-- The first byte of a name is no dot.
not-is_state_temp_file :
    (name : Bytes) → validate_name name ≡ valid → is_state_temp_file (config_file name) ≡ false
unfolding is_state_temp_file config_file has_prefix
not-is_state_temp_file [] e = refl
not-is_state_temp_file (c ∷ s) e =
    let k : (c == b'.') ≡ false = not-dot c (valid-is_alphanumeric c s e) in rw k refl

-- The events on the state file of a valid name mean what their kind says.
pub disk_event_action-config_file :
    (ev : FileEvent) (name : Bytes)
    → validate_name name ≡ valid
    → disk_event_action ev (config_file name) ≡ action_of ev
unfolding disk_event_action
disk_event_action-config_file ev name v =
    rw (
      not-is_state_temp_file name v,
      (name_from_config_file_iff (config_file name) name).1 (refl, v),
    )

has_prefix-append : (t r : Bytes) → has_prefix (t ++ r) t ≡ true
unfolding has_prefix
has_prefix-append [] [] = refl
has_prefix-append [] (x ∷ r) = refl
has_prefix-append (x ∷ t) r = ground (arith, has_prefix-append t r)

index-prefix : (s t : Bytes) → has_prefix s t ≡ true → index s t ≡ some 0
unfolding index
index-prefix [] t h = rw h
index-prefix (x ∷ s) t h = rw h

contains_later :
    (x : ℕ) (s t : Bytes) → is_some (index s t) ≡ true → is_some (index (x ∷ s) t) ≡ true
unfolding index
contains_later x s t h = elim (Option-cases (index s t)) [
  | inl e ↦ (let g : false ≡ true = rw e at h in absurd (cc))
  | inr (i, e) ↦ elim (Bool-cases (has_prefix (x ∷ s) t)) [ inl k ↦ rw k | inr k ↦ rw (k, e) ]
]

-- A text that holds another is found to hold it.
contains-append : (s t r : Bytes) → is_some (index (s ++ (t ++ r)) t) ≡ true
contains-append [] t r = rw (index-prefix (t ++ r) t (has_prefix-append t r))
contains-append (x ∷ s) t r = contains_later x (s ++ (t ++ r)) t (contains-append s t r)

-- The files that writeStateFile makes before it renames them.
abbrev pub temp_file : Bytes → Bytes → Bytes
temp_file base random = b'.' ∷ (base ++ (codes ".tmp-" ++ random))

-- Every event on a temporary file of a name's state file is ignored.
pub disk_event_action-temp :
    (ev : FileEvent) (name random : Bytes)
    → disk_event_action ev (temp_file (config_file name) random) ≡ action_ignore
unfolding disk_event_action is_state_temp_file has_prefix config_file
disk_event_action-temp ev name random =
    rw
      (
        append_assoc name (codes ".json") (codes ".tmp-" ++ random),
        contains-append (b'.' ∷ name) (codes ".json.tmp-") random,
      )
      refl

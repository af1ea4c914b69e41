-- ===== src/Build/Instruction.antt =====
-- Instructions: parseInstruction of pkg/lib/container/build/dockerfile.go, and instruction.go. The
-- JSON decoder is a parameter: the strings of a JSON array, where the text is one.
use sandal.Prelude.{
  ℕ, ◌-◌, Bool, true, false, ◌&&◌, Option, none, some, List, [], ◌∷◌, if◌then◌else◌, leb,
}
use mathlib.Core.List.{map}
use sandal.Prelude.Words.{Bytes}
use sandal.Prelude.Text.{codes, equal, has_prefix}
use sandal.Build.Text.{trim_space}
use sandal.Build.Tokens.{
  split_first, extract_flags, Flags, shell_split, Parsed, parsed, failed, unknown_instruction,
  ◌>>=◌, parse_kv_list,
}

-- InstrUnknown is `none`.
pub data InstrKind : Type 0 where
  from run copy add env work_dir user cmd : InstrKind
  entrypoint label expose arg volume shell stop_signal : InstrKind

-- upperASCII
unfoldable pub upper_ascii : Bytes → Bytes
upper_ascii s = map (λ c. if leb b'a' c && leb c b'z' then c - 32 else c) s

-- parseKind
abbrev keywords : List (Bytes × InstrKind)
keywords =
    (codes "FROM", from)
    ∷ (codes "RUN", run)
    ∷ (codes "COPY", copy)
    ∷ (codes "ADD", add)
    ∷ (codes "ENV", env)
    ∷ (codes "WORKDIR", work_dir)
    ∷ (codes "USER", user)
    ∷ (codes "CMD", cmd)
    ∷ (codes "ENTRYPOINT", entrypoint)
    ∷ (codes "LABEL", label)
    ∷ (codes "EXPOSE", expose)
    ∷ (codes "ARG", arg)
    ∷ (codes "VOLUME", volume)
    ∷ (codes "SHELL", shell)
    ∷ (codes "STOPSIGNAL", stop_signal)
    ∷ []

kind_of : List (Bytes × InstrKind) → Bytes → Option InstrKind
kind_of [] word = none
kind_of ((name, kind) ∷ more) word = if equal word name then some kind else kind_of more word

unfoldable pub parse_kind : Bytes → Option InstrKind
unfolding kind_of
parse_kind word = kind_of keywords (upper_ascii word)

-- `line` is the source line on which the instruction starts.
pub record Instruction : Type 0 where
  pub kind : InstrKind
  pub args : List Bytes
  pub json : Bool
  pub flags : Flags
  pub raw : Bytes
  pub line : ℕ

-- The arguments in shell form, by the kind of the instruction.
unfoldable pub shell_args : InstrKind → Bytes → Parsed (List Bytes)
shell_args env rest = parse_kv_list rest
shell_args label rest = parse_kv_list rest
shell_args arg rest = parse_kv_list rest
shell_args run rest = parsed (rest ∷ [])
shell_args cmd rest = parsed (rest ∷ [])
shell_args entrypoint rest = parsed (rest ∷ [])
shell_args _ rest = parsed (shell_split rest)

-- The instruction in exec form, where there is one, or else in shell form.
unfoldable pub parse_args :
    Option (List Bytes) → InstrKind → Flags → Bytes → Bytes → ℕ → Parsed Instruction
parse_args (some args) kind flags rest raw line =
    parsed (record { kind = kind; args = args; json = true; flags = flags; raw = raw; line = line })
parse_args none kind flags rest raw line = do
  args ← shell_args kind rest
  parsed (record { kind = kind; args = args; json = false; flags = flags; raw = raw; line = line })

module _ (unmarshal : Bytes → Option (List Bytes)) where
  -- The exec form, where the text is a JSON array of strings.
  unfoldable pub exec_form : Bytes → Option (List Bytes)
  exec_form rest = if has_prefix rest (codes "[") then unmarshal rest else none

  unfoldable pub with_kind : Option InstrKind → Flags → Bytes → Bytes → ℕ → Parsed Instruction
  with_kind none flags rest raw line = failed unknown_instruction
  with_kind (some kind) flags rest raw line = parse_args (exec_form rest) kind flags rest raw line

  -- parseInstruction
  unfoldable pub parse_instruction : Bytes → ℕ → Parsed Instruction
  parse_instruction raw line =
      let (keyword, rest) = split_first raw in
      let (after, flags) = extract_flags rest in
      with_kind (parse_kind keyword) flags (trim_space after) raw line

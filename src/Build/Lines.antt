-- ===== src/Build/Lines.antt =====
-- The lines of a Dockerfile: ParseDockerfile and parseDirective of
-- pkg/lib/container/build/dockerfile.go. The lines are those that the scanner gives, with whether it
-- ended without an error. The tables of Unicode and the JSON decoder are parameters.
use sandal.Prelude.{
  ℕ, suc, ◌+◌, ◌-◌, Bool, true, false, ◌&&◌, ◌||◌, Option, none, some, List, [], ◌∷◌, ◌++◌, ◌==◌,
  if◌then◌else◌, leb, drop, take, get_or, length,
}
use sandal.Prelude.Words.{Bytes}
use sandal.Prelude.Text.{codes, equal, has_prefix, index_byte}
use sandal.Build.Text.{is_blank, trim_left, trim_right, trim_space}
use sandal.Build.Tokens.{Parsed, parsed, failed, scan_failed, ◌>>=◌, non_empty}
use sandal.Build.Instruction.{Instruction, parse_instruction}

-- `is_key` says of a directive's key that its runes are letters, `_` or `-`, and `to_lower` is
-- strings.ToLower.
module _ (is_key : Bytes → Bool) (to_lower : Bytes → Bytes) where
  directive_at : Bytes → Option ℕ → Option (Bytes × Bytes)
  directive_at rest none = none
  directive_at rest (some eq) =
      let key = trim_space (take eq rest) in
      let val = trim_space (drop (suc eq) rest) in
      if leb 1 eq && (non_empty key && (non_empty val && is_key key))
      then some (to_lower key, val)
      else none

  -- parseDirective
  unfoldable pub parse_directive : Bytes → Option (Bytes × Bytes)
  unfolding directive_at
  parse_directive line =
      let rest = trim_space (drop 1 line) in
      if has_prefix line (codes "#") then directive_at rest (index_byte rest b'=') else none

-- The variables of ParseDockerfile.
pub record Parser : Type 0 where
  pub escape : ℕ
  pub directives_allowed : Bool
  pub instrs : List Instruction
  pub buf : Bytes
  pub start_line : ℕ
  pub cur_line : ℕ

abbrev pub new_parser : Parser
new_parser = record {
  escape = b'\\';
  directives_allowed = true;
  instrs = [];
  buf = [];
  start_line = 0;
  cur_line = 0;
}

-- The effect of a directive: `escape` alone has one.
unfoldable pub set_escape : Bytes → Bytes → ℕ → ℕ
set_escape d v escape =
    if equal d (codes "escape") && (equal v (b'\\' ∷ []) || equal v (b'`' ∷ []))
    then get_or v 0 escape
    else escape

-- The byte at the end; `none` of an empty string.
unfoldable pub ends_with : Bytes → ℕ → Bool
ends_with [] b = false
ends_with (c ∷ []) b = c == b
ends_with (c ∷ d ∷ cs) b = ends_with (d ∷ cs) b

-- `startLine` as a line with text leaves it.
unfoldable pub start_of : Parser → ℕ
start_of p = if non_empty p.buf then p.start_line else p.cur_line

-- A full-line comment or, at the top of the file, a directive.
unfoldable pub comment_line : Parser → Option (Bytes × Bytes) → Parser
comment_line p none = record p { directives_allowed = false }
comment_line p (some (d, v)) =
    if p.directives_allowed then record p { escape = set_escape d v p.escape } else p

module _ (unmarshal : Bytes → Option (List Bytes)) where
  -- The closure `flush`.
  unfoldable pub flush : Parser → Parsed Parser
  flush p =
      let raw = trim_space p.buf in
      if non_empty raw
      then (do
        instr ← parse_instruction unmarshal raw p.start_line
        parsed (record p { buf = []; instrs = p.instrs ++ instr ∷ [] }))
      else parsed (record p { buf = [] })

  -- A line with text: the continuation keeps it, any other ends the instruction.
  unfoldable pub text_line : Parser → Bytes → Parsed Parser
  text_line p line =
      let stripped = trim_right is_blank line in
      let start = start_of p in
      if ends_with stripped p.escape
      then parsed (record p {
        directives_allowed = false;
        start_line = start;
        buf = p.buf ++ take (length stripped - 1) stripped ++ b' ' ∷ [];
      })
      else flush (record p { directives_allowed = false; start_line = start; buf = p.buf ++ line })

  module _ (is_key : Bytes → Bool) (to_lower : Bytes → Bytes) where
    -- The body of the loop on a scanned line.
    unfoldable pub scan_line : Parser → Bytes → Parsed Parser
    scan_line q scanned =
        let p = record q { cur_line = q.cur_line + 1 } in
        let line = trim_right (λ c. c == 13) scanned in
        let trimmed = trim_left line in
        if has_prefix trimmed (codes "#")
        then parsed (comment_line p (parse_directive is_key to_lower trimmed))
        else if non_empty (trim_space line)
        then text_line p line
        else flush p >>= (λ r. parsed (record r { directives_allowed = false }))

    unfoldable pub scan_lines : Parser → List Bytes → Parsed Parser
    scan_lines p [] = parsed p
    scan_lines p (line ∷ lines) = scan_line p line >>= (λ q. scan_lines q lines)

    -- ParseDockerfile
    unfoldable pub parse_dockerfile : List Bytes → Bool → Parsed (List Instruction)
    parse_dockerfile lines scanner_ok = do
      p ← scan_lines new_parser lines
      q ← if scanner_ok then flush p else failed scan_failed
      parsed q.instrs

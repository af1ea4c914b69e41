-- ===== src/Tests/BuildRuns.antt =====
-- pkg/lib/container/build/dockerfile.go on small Dockerfiles.
use sandal.Prelude.{◌≡◌, ◌≢◌, refl, Bool, true, false, Option, none, List, [], ◌∷◌, All, arith}
use sandal.Prelude.Words.{Bytes}
use sandal.Prelude.Text.{codes, equal, has_prefix, index_byte}
use sandal.Build.Text.{trim_left, trim_right, trim_space}
use sandal.Build.Tokens.{
  token, after_token, split_first, put, put_flag, extract_round, extract_loop, extract_flags,
  shell_step, shell_words, shell_split, unquote, parse_kv_list, parsed, failed, missing_key,
  not_key_value,
}
use sandal.Build.Quoting.{print_words, shell_split-print_words}
use sandal.Build.Instruction.{
  Instruction, from, run, upper_ascii, parse_kind, shell_args, exec_form, parse_args, with_kind,
  parse_instruction,
}
use sandal.Build.Lines.{
  parse_directive, set_escape, ends_with, flush, start_of, text_line, comment_line, scan_line,
  scan_lines, parse_dockerfile,
}
use sandal.Build.Numbers.{InOrder, parse_dockerfile-InOrder}

abbrev no_json : Bytes → Option (List Bytes)
no_json text = none

abbrev any_key : Bytes → Bool
any_key key = true

abbrev same : Bytes → Bytes
same key = key

abbrev two_words : List Bytes
two_words = codes "say \"hi\"" ∷ codes "b" ∷ []

two_words_filled : All (λ w. w ≢ []) two_words
two_words_filled = ((λ e. ground arith), ((λ e. ground arith), tt))

shell_split-print_words_example : shell_split (print_words two_words) ≡ two_words
shell_split-print_words_example = shell_split-print_words two_words two_words_filled

splits :
    (shell_split (codes "a 'b c'  \"d\\\"e\" ''") ≡ codes "a" ∷ codes "b c" ∷ codes "d\"e" ∷ [])
    × (split_first (codes "  ENV  A=1") ≡ (codes "ENV", codes "A=1"))
    × (trim_space (194 ∷ 160 ∷ codes " x\t") ≡ codes "x")
    × (extract_flags (codes "--from=base --link a b")
        ≡ (codes "a b", (codes "from", codes "base") ∷ (codes "link", codes "true") ∷ []))
unfolding shell_split shell_words shell_step split_first token after_token trim_left trim_space
    extract_flags extract_loop extract_round put_flag put has_prefix equal index_byte
splits = (refl, refl, refl, refl)

kv_lists :
    (parse_kv_list (codes "KEY \"some text\"") ≡ parsed (codes "KEY=some text" ∷ []))
    × (parse_kv_list (codes "A=1 B=\"x y\"") ≡ parsed (codes "A=1" ∷ codes "B=x y" ∷ []))
    × (parse_kv_list (codes "A=1 B") ≡ failed not_key_value)
    × (parse_kv_list [] ≡ failed missing_key)
unfolding parse_kv_list shell_split shell_words shell_step split_first token after_token trim_left
    trim_space unquote
kv_lists = (refl, refl, refl, refl)

abbrev file : List Bytes
file =
    codes "# escape=`"
    ∷ codes "FROM --platform=linux base"
    ∷ []
    ∷ codes "run a `"
    ∷ codes "# between"
    ∷ codes "  b"
    ∷ []

abbrev instructions : List Instruction
instructions =
    record {
      kind = from;
      args = codes "base" ∷ [];
      json = false;
      flags = (codes "platform", codes "linux") ∷ [];
      raw = codes "FROM --platform=linux base";
      line = 2;
    }
    ∷ record {
      kind = run;
      args = codes "a    b" ∷ [];
      json = false;
      flags = [];
      raw = codes "run a    b";
      line = 4;
    }
    ∷ []

parses : parse_dockerfile no_json any_key same file true ≡ parsed instructions
unfolding parse_dockerfile scan_lines scan_line comment_line text_line start_of flush ends_with
    set_escape parse_directive parse_instruction with_kind parse_args exec_form shell_args
    parse_kind upper_ascii extract_flags extract_loop extract_round put_flag put split_first token
    after_token trim_left trim_right trim_space shell_split shell_words shell_step has_prefix equal
    index_byte
parses = refl

parse_dockerfile-InOrder_example : InOrder 0 instructions 6
parse_dockerfile-InOrder_example =
    parse_dockerfile-InOrder no_json any_key same file true instructions parses

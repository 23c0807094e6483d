-- ===== src/EnvFile.antt =====
-- `config/extension.env`, as `fcc-extension/tools/pkg/validate/checks.go` reads it: the lines of
-- `bufio.Scanner`, the two parsers of `KEY=value` lines, and the two formats.
pub mod Agreement
pub mod Hex
pub mod Words
pub mod RoundTrip
use Prim.Native.Char.{Char, code}
use Prim.Native.String.{[] as nil, ◌∷◌ as ◌▸◌}
use aurelith.Base.{
  ℕ, zero, suc, String, Bool, true, false, ◌&&◌, ◌||◌, Option, none, some, List, [], ◌∷◌, ◌==◌,
  nat_eq, string_eq, ltb, ℕ_discrete, if◌then◌else◌,
}
use aurelith.Base.Text.{trim_space, split_at, cons_part, hex_value, len, is_space, ◌<>◌}
use aurelith.World.{World, FileState, missing, unreadable, contents}

-- The text between line feeds; what follows the last one counts unless it is empty.
unfoldable pub raw_lines : String → List String
raw_lines nil = []
raw_lines (c ▸ s) =
    let rest = raw_lines s in if code c == b'\n' then nil ∷ rest else cons_part c rest

-- `dropCR` of `bufio.ScanLines`
unfoldable pub drop_cr : String → String
drop_cr nil = nil
drop_cr (c ▸ nil) = if code c == b'\r' then nil else c ▸ nil
drop_cr (c ▸ d ▸ s) = c ▸ drop_cr (d ▸ s)

-- `bufio.MaxScanTokenSize`
abbrev pub max_token : ℕ
max_token = 65536

abbrev pub entry_line : String → String → String
entry_line key value = key <> "=" <> value

abbrev pub pre_build_comment : String
pre_build_comment = "# Auto-generated by pre-build.sh — do not edit manually"

-- What `fcc-extension/scripts/pre-build.sh` writes.
unfoldable pub pre_build_env : String → String → String
pre_build_env extension_id instruction_sender =
    pre_build_comment
    <> "\n"
    <> entry_line "EXTENSION_ID" extension_id
    <> "\n"
    <> entry_line "INSTRUCTION_SENDER" instruction_sender
    <> "\n"

-- The lines that the loop over `scanner.Scan` sees: a line that fills the buffer ends it.
scan : List String → List String
scan [] = []
scan (line ∷ lines) =
    let rest = scan lines in if ltb (len line) max_token then drop_cr line ∷ rest else []

unfoldable pub scan_lines : String → List String
unfolding raw_lines drop_cr scan
scan_lines text = scan (raw_lines text)

-- `strings.HasPrefix` for a prefix of one byte
abbrev pub begins_with : ℕ → String → Bool
begins_with b nil = false
begins_with b (c ▸ s) = code c == b

-- One round of either loop: the trimmed key and value of a line that holds an entry.
unfoldable pub parse_line : String → Option (String × String)
unfolding trim_space split_at
parse_line text =
    let line = trim_space text in
    if line == "" || begins_with b'#' line then none else elim (split_at b'=' line) [
      | none ↦ none
      | some (key, value) ↦ some (trim_space key, trim_space value)
    ]

abbrev pub store : Option (String × String) → List (String × String) → List (String × String)
store none vars = vars
store (some entry) vars = entry ∷ vars

-- The map of `CheckExtensionEnvFormat`, the newest entry first.
read_vars : List (String × String) → List String → List (String × String)
read_vars vars [] = vars
read_vars vars (line ∷ lines) = read_vars (store (parse_line line) vars) lines

unfoldable pub vars_of : String → List (String × String)
unfolding read_vars scan_lines parse_line
vars_of text = read_vars [] (scan_lines text)

-- The `switch key` of `parseExtensionEnv` on the two results.
abbrev pub assign : Option (String × String) → String × String → String × String
assign none found = found
assign (some (key, value)) (extension_id, instruction_sender) =
    if key == "EXTENSION_ID"
    then (value, instruction_sender)
    else if key == "INSTRUCTION_SENDER"
    then (extension_id, value)
    else (extension_id, instruction_sender)

read_pair : String × String → List String → String × String
read_pair found [] = found
read_pair found (line ∷ lines) = read_pair (assign (parse_line line) found) lines

unfoldable pub pair_of : String → String × String
unfolding read_pair scan_lines parse_line
pair_of text = read_pair ("", "") (scan_lines text)

-- `parseExtensionEnv`; its error is always nil.
unfoldable pub parse_extension_env : World → String → String × String
unfolding pair_of
parse_extension_env w path = elim (w.file path) [
  | missing ↦ ("", "")
  | unreadable ↦ ("", "")
  | contents text ↦ pair_of text
]

abbrev is_hex : ℕ → Bool
is_hex c = elim (hex_value c) [ none ↦ false | some _ ↦ true ]

-- `[0-9a-fA-F]{n}$`
unfoldable pub is_hex_digits : ℕ → String → Bool
is_hex_digits zero nil = true
is_hex_digits zero (c ▸ s) = false
is_hex_digits (suc n) nil = false
is_hex_digits (suc n) (c ▸ s) = is_hex (code c) && is_hex_digits n s

-- `^0x[0-9a-fA-F]{n}$`
unfoldable pub matches_hex : ℕ → String → Bool
unfolding is_hex_digits hex_value
matches_hex n (c ▸ d ▸ s) = code c == b'0' && code d == b'x' && is_hex_digits n s
matches_hex n _ = false

-- `addressRegex`
unfoldable pub is_address : String → Bool
unfolding matches_hex
is_address = matches_hex 40

-- `extensionIDRegex`
unfoldable pub is_extension_id : String → Bool
unfolding matches_hex
is_extension_id = matches_hex 64

-- `s[2:]` on a text that begins with two characters of one byte
abbrev pub drop_two : String → String
drop_two (c ▸ d ▸ s) = s
drop_two s = ""

-- ===== src/EnvFile/Agreement.antt =====
-- The two parsers of `extension.env` agree.
use aurelith.Base.{
  ◌≡◌, refl, String, Option, none, some, List, [], ◌∷◌, arith, lookup, string_eq, ◌≢◌,
}
use text.Mathlib.TextEquality.{eq_iff}
use aurelith.EnvFile.{scan_lines, parse_line, store, read_vars, vars_of, assign, read_pair, pair_of}

-- Reading a Go map of texts: an absent key reads as the empty text.
abbrev pub value_or_empty : Option String → String
value_or_empty none = ""
value_or_empty (some v) = v

abbrev pair_from : List (String × String) → String × String
pair_from vars =
    (value_or_empty (lookup "EXTENSION_ID" vars), value_or_empty (lookup "INSTRUCTION_SENDER" vars))

-- Two different names: no key is both.
names_differ : ◌≢◌ {A = String} "EXTENSION_ID" "INSTRUCTION_SENDER"
names_differ = ground (arith, eq_iff "EXTENSION_ID" "INSTRUCTION_SENDER")

assign-store :
    (entry : Option (String × String)) (vars : List (String × String))
    → assign entry (pair_from vars) ≡ pair_from (store entry vars)
assign-store none vars = refl
assign-store (some (key, value)) vars = ground (arith, names_differ)

read_pair-read_vars :
    (vars : List (String × String)) (lines : List String)
    → read_pair (pair_from vars) lines ≡ pair_from (read_vars vars lines)
unfolding read_pair read_vars
read_pair-read_vars vars [] = refl
read_pair-read_vars vars (line ∷ lines) =
    rw (assign-store (parse_line line) vars)
      (read_pair-read_vars (store (parse_line line) vars) lines)

-- On every text the switch of `parseExtensionEnv` finds what the map of
-- `CheckExtensionEnvFormat` holds under the two names, or the empty text.
pub pair_of-lookup :
    (text : String)
    → pair_of text ≡ (
      value_or_empty (lookup "EXTENSION_ID" (vars_of text)),
      value_or_empty (lookup "INSTRUCTION_SENDER" (vars_of text)),
    )
unfolding pair_of vars_of
pair_of-lookup text = read_pair-read_vars [] (scan_lines text)

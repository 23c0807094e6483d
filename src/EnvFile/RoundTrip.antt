-- ===== src/EnvFile/RoundTrip.antt =====
-- The file that `fcc-extension/scripts/pre-build.sh` writes is read back as it was written.
use text.Mathlib.TextPositions.{len-append}
use text.Mathlib.TextLemmas.{append-nil}
use aurelith.Base.{
  ◌+◌, ◌<◌, ◌≡◌, refl, ◌∙◌, ap, String, true, none, some, List, [], ◌∷◌, arith, lt→ltb, sym,
  ℕ_discrete, nat_eq, string_eq,
}
use aurelith.Base.Text.{◌<>◌, is_space, len}
use aurelith.EnvFile.{
  raw_lines, drop_cr, scan, parse_line, entry_line, max_token, read_pair, assign, pair_of,
  is_extension_id, is_address, pre_build_env, pre_build_comment,
}
use aurelith.EnvFile.Words.{
  all_chars, all_chars_mono, in_line, in_word, in_word-in_line, raw_lines-append, drop_cr-word,
  entry_line-word, parse_line-entry_line, matches_hex-word,
}

scan_cons :
    (l : String) (rest : List String)
    → all_chars in_word l ≡ true
    → len l < max_token
    → scan (l ∷ rest) ≡ l ∷ scan rest
unfolding scan
scan_cons l rest w h = rw (drop_cr-word l w, lt→ltb (len l) max_token h) refl

scan_nil : scan [] ≡ []
unfolding scan
scan_nil = refl

scan_comment :
    (rest : List String) → scan (pre_build_comment ∷ rest) ≡ pre_build_comment ∷ scan rest
unfolding scan drop_cr ℕ_discrete
scan_comment rest = refl

parse_line-comment : parse_line pre_build_comment ≡ none
unfolding parse_line is_space ℕ_discrete string_eq
parse_line-comment = refl

pair_of-lines : (text : String) → pair_of text ≡ read_pair ("", "") (scan (raw_lines text))
unfolding pair_of
pair_of-lines text = refl

pair_found :
    {id sender : String}
    → assign (some ("INSTRUCTION_SENDER", sender)) (assign (some ("EXTENSION_ID", id)) ("", ""))
      ≡ (id, sender)
unfolding string_eq
pair_found = refl

-- The file of two values: its comment and one line for each.
module _ (id sender : String) where
  id_line : String
  id_line = entry_line "EXTENSION_ID" id

  sender_line : String
  sender_line = entry_line "INSTRUCTION_SENDER" sender

  len-id_line : len id_line ≡ 13 + len id
  unfolding id_line
  len-id_line = omega (arith, len-append "EXTENSION_ID" ("=" <> id), len-append "=" id)

  len-sender_line : len sender_line ≡ 19 + len sender
  unfolding sender_line
  len-sender_line =
      omega (arith, len-append "INSTRUCTION_SENDER" ("=" <> sender), len-append "=" sender)

  module _ (id_word : all_chars in_word id ≡ true)
      (sender_word : all_chars in_word sender ≡ true) where
    id_line-word : all_chars in_word id_line ≡ true
    unfolding id_line is_space ℕ_discrete
    id_line-word = entry_line-word "EXTENSION_ID" id refl id_word

    sender_line-word : all_chars in_word sender_line ≡ true
    unfolding sender_line is_space ℕ_discrete
    sender_line-word = entry_line-word "INSTRUCTION_SENDER" sender refl sender_word

    parse_line-id_line : parse_line id_line ≡ some ("EXTENSION_ID", id)
    unfolding id_line is_space ℕ_discrete
    parse_line-id_line = parse_line-entry_line "E" "XTENSION_ID" id refl refl refl id_word

    parse_line-sender_line : parse_line sender_line ≡ some ("INSTRUCTION_SENDER", sender)
    unfolding sender_line is_space ℕ_discrete
    parse_line-sender_line =
        parse_line-entry_line "I" "NSTRUCTION_SENDER" sender refl refl refl sender_word

    raw_lines-pre_build_env :
        raw_lines (pre_build_env id sender) ≡ pre_build_comment ∷ id_line ∷ sender_line ∷ []
    unfolding pre_build_env ℕ_discrete id_line sender_line raw_lines
    raw_lines-pre_build_env =
        raw_lines-append pre_build_comment (id_line <> "\n" <> sender_line <> "\n") refl
        ∙ ap (λ ls. pre_build_comment ∷ ls)
            (raw_lines-append id_line (sender_line <> "\n")
                (all_chars_mono in_word in_line id_line in_word-in_line id_line-word)
              ∙ ap (λ ls. id_line ∷ ls) last_line)
      where
        last_line : raw_lines (sender_line <> "\n") ≡ sender_line ∷ []
        last_line =
            ap (λ t. raw_lines (sender_line <> t)) (sym (append-nil "\n"))
            ∙ raw_lines-append sender_line ""
                (all_chars_mono in_word in_line sender_line in_word-in_line sender_line-word)

    read_pair-lines :
        len id < 65000
        → len sender < 65000
        → read_pair ("", "") (scan (pre_build_comment ∷ id_line ∷ sender_line ∷ [])) ≡ (id, sender)
    unfolding read_pair
    read_pair-lines short_id short_sender =
        rw
          (
            scan_comment (id_line ∷ sender_line ∷ []),
            scan_cons id_line (sender_line ∷ []) id_line-word (omega (arith, len-id_line)),
            scan_cons sender_line [] sender_line-word (omega (arith, len-sender_line)),
            scan_nil,
            parse_line-comment,
            parse_line-id_line,
            parse_line-sender_line,
          )
          pair_found

-- The file that `pre-build.sh` writes from an extension id and an address of the two accepted
-- formats is read back as exactly these two.
pub pair_of-pre_build_env :
    (id sender : String)
    → is_extension_id id ≡ true
    → is_address sender ≡ true
    → pair_of (pre_build_env id sender) ≡ (id, sender)
unfolding is_extension_id is_address
pair_of-pre_build_env id sender id_ok sender_ok =
    let (id_len, id_word) = matches_hex-word 64 id id_ok in
    let (sender_len, sender_word) = matches_hex-word 40 sender sender_ok in
    pair_of-lines (pre_build_env id sender)
    ∙ rw (raw_lines-pre_build_env id sender id_word sender_word)
        (read_pair-lines id sender id_word sender_word (omega arith) (omega arith))

-- ===== src/Diagnosis/Laws.antt =====
-- The diagnosis of a revert names the error that it is.
use mathlib.Core.Path.{subst}
use aurelith.Base.{
  ℕ, ◌≡◌, ◌⊎◌, refl, sym, ap, ◌∙◌, String, true, false, none, some, List, [], ◌∷◌, Bool-cases, inl,
  inr, arith, length, ◌≤◌,
}
use aurelith.Revert.{CustomError, four, bytes_equal}
use aurelith.Diagnosis.{
  Source, Diagnosis, named, unknown, after_four, match_error, match_sources, Decoders, RpcError,
  extract_revert_data, error_string, diagnose, name_revert,
}

-- The error stands in a list, and its selector is that of the payload.
abbrev pub IsEntry : List ℕ → CustomError → List CustomError → Type 0
IsEntry payload e [] = ⊥
IsEntry payload e (f ∷ rest) =
    ((f ≡ e) × (bytes_equal e.selector (four payload) ≡ true)) ⊎ IsEntry payload e rest

-- The same of an error of some contract.
abbrev pub IsKnown : List ℕ → String → CustomError → List Source → Type 0
IsKnown payload contract e [] = ⊥
IsKnown payload contract e ((name, none) ∷ rest) = IsKnown payload contract e rest
IsKnown payload contract e ((name, some errors) ∷ rest) =
    ((name ≡ contract) × IsEntry payload e errors) ⊎ IsKnown payload contract e rest

-- What is found is an error of one of the contracts, or none of them has the selector.
abbrev pub IsDiagnosis : List Source → List ℕ → Diagnosis → Type 0
IsDiagnosis sources payload d =
    ((contract : String) × (e : CustomError) × (d
        ≡ named contract e.name (e.arguments (after_four payload)))
      × IsKnown payload contract e sources)
    ⊎ ((d ≡ unknown (four payload) payload)
        × ((contract : String) (e : CustomError) → ¬ IsKnown payload contract e sources))

match_error_cases :
    (contract : String) (errors : List CustomError) (payload : List ℕ)
    → ((e : CustomError) × (match_error contract errors payload
          ≡ some (named contract e.name (e.arguments (after_four payload))))
        × IsEntry payload e errors)
      ⊎ ((match_error contract errors payload ≡ none)
          × ((e : CustomError) → ¬ IsEntry payload e errors))
unfolding match_error
match_error_cases contract [] payload = inr (refl, λ e h. h)
match_error_cases contract (e ∷ rest) payload =
    elim (Bool-cases (bytes_equal e.selector (four payload))) [
      | inl same ↦ inl (e, rw same refl, inl (refl, same))
      | inr differ ↦ elim (match_error_cases contract rest payload) [
        | inl (f, found, entry) ↦ inl (f, rw differ found, inr entry)
        | inr (missing, none_there) ↦ inr (
          rw differ missing,
          λ f h. elim h [
            | inl (same, selected) ↦
                let mine = ap (λ g. bytes_equal g.selector (four payload)) same ∙ selected in
                absurd (ground (arith, differ, mine))
            | inr later ↦ none_there f later
          ],
        )
      ]
    ]

match_sources-found :
    (contract : String) (errors : List CustomError) (rest : List Source) (payload : List ℕ)
    (d : Diagnosis)
    → match_error contract errors payload ≡ some d
    → match_sources ((contract, some errors) ∷ rest) payload ≡ d
unfolding match_sources
match_sources-found contract errors rest payload d found = rw (found, match_sources) refl

match_sources-missed :
    (contract : String) (errors : List CustomError) (rest : List Source) (payload : List ℕ)
    → match_error contract errors payload ≡ none
    → match_sources ((contract, some errors) ∷ rest) payload ≡ match_sources rest payload
unfolding match_sources
match_sources-missed contract errors rest payload missing = rw (missing, match_sources) refl

match_sources-IsDiagnosis :
    (sources : List Source) (payload : List ℕ)
    → IsDiagnosis sources payload (match_sources sources payload)
unfolding match_sources
match_sources-IsDiagnosis [] payload = inr (refl, λ contract e h. h)
match_sources-IsDiagnosis ((contract, none) ∷ rest) payload = match_sources-IsDiagnosis rest payload
match_sources-IsDiagnosis ((contract, some errors) ∷ rest) payload =
    elim (match_error_cases contract errors payload) [
      | inl (e, found, entry) ↦
          inl (
            contract,
            e,
            match_sources-found contract errors rest payload _ found,
            inl (refl, entry),
          )
      | inr (missing, none_there) ↦
          let missed = match_sources-missed contract errors rest payload missing in
          elim (match_sources-IsDiagnosis rest payload) [
            | inl (other, e, found, known) ↦ inl (other, e, missed ∙ found, inr known)
            | inr (nowhere, none_known) ↦ inr (
              missed ∙ nowhere,
              λ other e h. elim h [
                | inl (same, entry) ↦ none_there e entry
                | inr later ↦ none_known other e later
              ],
            )
          ]
    ]

-- A refused call whose error carries at least four bytes that are no `Error(string)` is diagnosed
-- as an error of one of the contracts whose selector is the first four bytes, with the arguments
-- that its ABI reads after them; or as unknown, and then no error of these contracts has that
-- selector.
pub diagnose-IsDiagnosis :
    (lib : Decoders) (sources : List Source) (e : RpcError)
    → let payload = extract_revert_data lib (some e) in
      4 ≤ length payload
      → bytes_equal (four payload) error_string ≡ false
      → IsDiagnosis sources payload (diagnose lib sources (some e))
unfolding diagnose name_revert
diagnose-IsDiagnosis lib sources e long custom =
    let payload = extract_revert_data lib (some e) in
    let same : diagnose lib sources (some e) ≡ match_sources sources payload =
      ground (arith, long, custom) in
    subst (IsDiagnosis sources payload) (sym same) (match_sources-IsDiagnosis sources payload)

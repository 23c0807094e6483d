-- ===== src/Registration/File.antt =====
-- The state file of a registration: what is written to it is read back.
use Prim.Native.String.{[] as nil, ◌∷◌ as ◌▸◌}
use text.Mathlib.TextLemmas.{cons-append, nil-append}
use aurelith.Base.{ℕ, ◌≡◌, ap, ◌∙◌, String, ◌||◌, none, ok, nat_eq, arith}
use aurelith.Base.Text.{◌<>◌}
use aurelith.World.{contents}
use aurelith.Registration.{Machines, RegistrationState, mentions, load_state, save_state}

pub mentions-append :
    (letter : ℕ) (s t : String)
    → mentions letter (s <> t) ≡ (mentions letter s || mentions letter t)
unfolding mentions
mentions-append letter nil t = ap (mentions letter) (nil-append t)
mentions-append letter (c ▸ s) t =
    ap (mentions letter) (cons-append c s t) ∙ ground (arith, mentions-append letter s t)

module _ {C : Type 0} (k : Machines C) where
  -- A state can be written and read, and a file has what was written last.
  abbrev pub KeepsFiles : Type 0
  KeepsFiles =
      ((s : RegistrationState)
        → (text : String) × (k.show_state s ≡ ok text) × (k.parse_state text ≡ ok s))
      × ((path text : String) (c : C)
          → ((k.write_file path text c).1 ≡ none)
            × (k.read_file path (k.write_file path text c).0 ≡ contents text))

  save_state-written :
      (path : String) (s : RegistrationState) (c : C) (text : String)
      → k.show_state s ≡ ok text
      → (k.write_file path text c).1 ≡ none
      → ((save_state k path s c).0 ≡ (k.write_file path text c).0)
        × ((save_state k path s c).1 ≡ none)
  unfolding save_state
  save_state-written path s c text shown written = ground arith

  load_state-read :
      (path : String) (c : C) (text : String) (s : RegistrationState)
      → k.read_file path c ≡ contents text
      → k.parse_state text ≡ ok s
      → load_state k path c ≡ ok s
  unfolding load_state
  load_state-read path c text s read parsed = ground arith

  -- A state that `saveState` has written is what `loadState` reads, where files keep what is
  -- written to them.
  pub load_state-save_state :
      (path : String) (s : RegistrationState) (c : C)
      → KeepsFiles
      → ((save_state k path s c).1 ≡ none) × (load_state k path (save_state k path s c).0 ≡ ok s)
  load_state-save_state path s c (codec, keeps) =
      let (text, shown, parsed) = codec s in
      let (written, read) = keeps path text c in
      let (same, no_error) = save_state-written path s c text shown written in
      (no_error, ap (load_state k path) same ∙ load_state-read path _ text s read parsed)

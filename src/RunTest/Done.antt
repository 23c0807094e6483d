-- ===== src/RunTest/Done.antt =====
-- What a success of the end-to-end test of `fcc-extension/tools/cmd/run-test/main.go` tells.
use aurelith.Base.{ℕ, Error, ◌≡◌, ◌⊎◌, String, true, List, none, ok, err, string_eq}
use aurelith.Base.Text.{◌<>◌}
use aurelith.World.{Address, Hash}
use aurelith.TeeCalls.{action_result}
use aurelith.Extension.{ActionResult}
use aurelith.Chain.{sent}
use aurelith.Instructions.{Senders, instruction_fee, set_extension_id}
use aurelith.Instructions.Laws.{Instructed}
use aurelith.RunTest.{Proxy, judge_hello, judge_goodbye, already_set}

module _ {C : Type 0} (p : Proxy C) (k : Senders C) (proxy_url : String) (sender : Address) where
  -- The proxy has a result for the instruction that passes the judgement.
  abbrev pub Judged : (ActionResult → Error) → Hash → C → Type 0
  Judged judge id c =
      (ar : ActionResult) × (action_result p.decode_action_response
          (p.http_attempt (proxy_url <> "/action/result/" <> p.hash_hex id) c)
        ≡ ok ar)
      × (judge ar ≡ none)

  -- The extension's id has been set, or was set already.
  abbrev pub HasId : C → C → Type 0
  HasId c t =
      (set_extension_id k sender c ≡ (t, ok tt))
      ⊎ ((e : String) × (already_set p e ≡ true) × (set_extension_id k sender c ≡ (t, err e)))

  -- A greeting has been sent, mined and judged.
  abbrev pub Greeted : List ℕ → C → C → Type 0
  Greeted payload c t =
      (id : Hash) × (told : Hash) × (tx : Hash) × (c₁ : C) × (k.hello instruction_fee sender payload
          c
        ≡ (c₁, sent tx))
      × Instructed k tx told id c₁ t
      × Judged (judge_hello p) id t

  -- A farewell has been sent, mined and judged.
  abbrev pub Parted : C → C → Type 0
  Parted c t =
      (id : Hash) × (told : Hash) × (tx : Hash) × (c₁ : C) × (k.goodbye instruction_fee sender
          "World" "heading out" c
        ≡ (c₁, ok tx))
      × Instructed k tx told id c₁ t
      × Judged (judge_goodbye p) id t

-- ===== src/Extension/Locked/Decoding.antt =====
-- What the decoding of a request, before it asks for the lock, tells of its whole handler.
use mathlib.Core.Path.{subst}
use aurelith.Base.{
  ◌==◌, ◌≡◌, refl, ◌∙◌, true, false, arith, inl, inr, Bool-cases, Result-cases, string_eq, nat_eq,
}
use aurelith.Extension.{
  State, Wire, Action, DataFixed, Response, process_say_hello, process_say_goodbye,
  process_greeting, process_action, op_type_greeting, op_command_say_hello, op_command_say_goodbye,
  ActionResult, greet, take_leave, accepted,
}
use aurelith.Extension.Locked.{
  Phase, arrived, locking, counting, noting, unlocking, building, served, Task, counted, count_up,
  job_text, note_text, prepare_hello, prepare_goodbye, prepare, answer,
}

module _ (wire : Wire) where
  -- The state and the response that a handler gives for a task.
  abbrev Serves : (State → State × Response) → Action → DataFixed → Task → Type 0
  Serves handler a df task =
      (s : State)
      → handler s
        ≡ (note_text task (count_up task s), answer wire a df task (counted task s) (job_text task))

  -- What the decoding of a request tells of its handler.
  abbrev pub Explains : (State → State × Response) → Action → Phase → Type 0
  Explains handler a (served r) = (s : State) → handler s ≡ (s, r)
  Explains handler a (locking b df task) = (a ≡ b) × Serves handler b df task
  Explains handler a (arrived b) = true ≡ false
  Explains handler a (counting b df task) = true ≡ false
  Explains handler a (noting b df task n) = true ≡ false
  Explains handler a (unlocking b df task n text) = true ≡ false
  Explains handler a (building b df task n text) = true ≡ false

  -- A request on its way to the lock, or just under it, will do what the whole handler does.
  abbrev pub IsSure : Phase → Type 0
  IsSure (locking a df task) = Serves (process_action wire a) a df task
  IsSure (counting a df task) = Serves (process_action wire a) a df task
  IsSure (arrived a) = Unit
  IsSure (noting a df task n) = Unit
  IsSure (unlocking a df task n text) = Unit
  IsSure (building a df task n text) = Unit
  IsSure (served r) = Unit

  pub Explains-IsSure : (a : Action) (q : Phase) → Explains (process_action wire a) a q → IsSure q
  Explains-IsSure a (served r) h = tt
  Explains-IsSure a (locking b df task) (same, serves) =
      subst (λ z. Serves (process_action wire z) b df task) same serves
  Explains-IsSure a (arrived b) h = tt
  Explains-IsSure a (counting b df task) h = absurd (ground (arith, h))
  Explains-IsSure a (noting b df task n) h = tt
  Explains-IsSure a (unlocking b df task n text) h = tt
  Explains-IsSure a (building b df task n text) h = tt

  abbrev accept : State × ActionResult → State × Response
  accept (t, ar) = (t, accepted wire ar)

  prepare_hello-Explains :
      (a : Action) (df : DataFixed)
      → Explains (λ s. accept (process_say_hello wire a df s)) a (prepare_hello wire a df)
  unfolding prepare_hello process_say_hello greet answer
  prepare_hello-Explains a df = elim (Result-cases (wire.decode_hello df.original_message)) [
    | inr (m, e) ↦ rw (e, prepare_hello) (λ s. rw (e, process_say_hello) refl)
    | inl (req, e) ↦ elim (Bool-cases (req.name == "")) [
      | inl blank ↦
          rw (e, prepare_hello) (rw blank (λ s. rw (e, process_say_hello) (rw blank refl)))
      | inr named ↦
          rw (e, prepare_hello) (rw named (refl, λ s. rw (e, process_say_hello) (rw named refl)))
    ]
  ]

  prepare_goodbye-Explains :
      (a : Action) (df : DataFixed)
      → Explains (λ s. accept (process_say_goodbye wire a df s)) a (prepare_goodbye wire a df)
  unfolding prepare_goodbye process_say_goodbye take_leave answer
  prepare_goodbye-Explains a df = elim (Result-cases (wire.decode_goodbye df.original_message)) [
    | inr (m, e) ↦ rw (e, prepare_goodbye) (λ s. rw (e, process_say_goodbye) refl)
    | inl (req, e) ↦ elim (Bool-cases (req.name == "")) [
      | inl blank ↦
          rw (e, prepare_goodbye) (rw blank (λ s. rw (e, process_say_goodbye) (rw blank refl)))
      | inr named ↦
          rw (e, prepare_goodbye)
            (rw named (refl, λ s. rw (e, process_say_goodbye) (rw named refl)))
    ]
  ]

  -- Another handler that gives the same is explained as well.
  Explains-same :
      (f g : State → State × Response) (a : Action) (q : Phase)
      → ((s : State) → g s ≡ f s)
      → Explains f a q
      → Explains g a q
  Explains-same f g a (served r) same h = λ s. same s ∙ h s
  Explains-same f g a (locking b df task) same (p, h) = (p, λ s. same s ∙ h s)
  Explains-same f g a (arrived b) same h = h
  Explains-same f g a (counting b df task) same h = h
  Explains-same f g a (noting b df task n) same h = h
  Explains-same f g a (unlocking b df task n text) same h = h
  Explains-same f g a (building b df task n text) same h = h

  pub prepare-Explains : (a : Action) → Explains (process_action wire a) a (prepare wire a)
  unfolding prepare process_action process_greeting
  prepare-Explains a = elim (Result-cases (wire.parse_data_fixed a.message)) [
    | inr (m, e) ↦ rw (e, prepare) (λ s. rw (e, process_action) refl)
    | inl (df, e) ↦ elim (Bool-cases (df.op_type == wire.to_hash op_type_greeting)) [
      | inr other ↦ rw (e, prepare) (rw other (λ s. rw (e, process_action) (rw other refl)))
      | inl greeting ↦ elim (Bool-cases (df.op_command == wire.to_hash op_command_say_hello)) [
        | inl hello ↦
            rw (e, prepare)
              (rw greeting (
                rw hello (
                  Explains-same (λ s. accept (process_say_hello wire a df s))
                    (process_action wire a) a (prepare_hello wire a df)
                    (λ s. rw (e, process_action) (rw greeting (rw (hello, process_greeting) refl)))
                    (prepare_hello-Explains a df))))
        | inr no_hello ↦ elim (Bool-cases (df.op_command == wire.to_hash op_command_say_goodbye)) [
          | inl goodbye ↦
              rw (e, prepare)
                (rw greeting (
                  rw no_hello (
                    rw goodbye (
                      Explains-same (λ s. accept (process_say_goodbye wire a df s))
                        (process_action wire a) a (prepare_goodbye wire a df)
                        (λ s.
                          rw (e, process_action)
                            (rw greeting (rw (no_hello, process_greeting) (rw goodbye refl))))
                        (prepare_goodbye-Explains a df)))))
          | inr neither ↦
              rw (e, prepare)
                (rw greeting (
                  rw no_hello (
                    rw neither (λ s.
                      rw (e, process_action)
                        (rw greeting (rw (no_hello, process_greeting) (rw neither refl)))))))
        ]
      ]
    ]
  ]

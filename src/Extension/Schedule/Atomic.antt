-- ===== src/Extension/Schedule/Atomic.antt =====
-- Concurrent requests refine a server that serves each request in one step.
use aurelith.Base.{
  ℕ, zero, suc, ◌≡◌, refl, ap, ◌∙◌, List, [], ◌∷◌, map, some, none, arith, inl, inr, Result-cases,
  string_eq, nat_eq,
}
use aurelith.Extension.{
  State, Wire, Action, DataFixed, Response, build_result, accepted, process_say_hello,
  process_say_goodbye, process_greeting, process_action,
}
use aurelith.Extension.Schedule.{
  Request, System, waiting, greeted, farewelled, answered, enter_hello, enter_goodbye, enter,
  step_request, step_at, run,
}

-- A request of the specification: to be served, or served with a response.
pub data Job : Type 0 where
  todo : Action → Job
  done : Response → Job

module _ (wire : Wire) where
  -- The whole handler in one step, and no step of a request that is served.
  unfoldable pub serve : Job → State → State × Job
  serve (todo a) s = let (t, r) = process_action wire a s in (t, done r)
  serve (done r) s = (s, done r)

  unfoldable pub serve_at : ℕ → State → List Job → State × List Job
  unfolding serve
  serve_at i s [] = (s, [])
  serve_at zero s (j ∷ js) = let (t, k) = serve j s in (t, k ∷ js)
  serve_at (suc i) s (j ∷ js) = let (t, ks) = serve_at i s js in (t, j ∷ ks)

  unfoldable pub serve_all : List ℕ → State × List Job → State × List Job
  unfolding serve_at
  serve_all [] jobs = jobs
  serve_all (i ∷ is) (s, js) = serve_all is (serve_at i s js)

  -- A request past its critical section counts as served, with the answer it will give.
  abbrev pub job_of : Request → Job
  job_of (waiting a) = todo a
  job_of (greeted a df resp) =
      done (accepted wire (build_result a df (some (wire.marshal_hello resp)) 1 none))
  job_of (farewelled a df resp) =
      done (accepted wire (build_result a df (some (wire.marshal_goodbye resp)) 1 none))
  job_of (answered ns r) = done r

  abbrev view : State × Request → State × Job
  view (t, p) = (t, job_of p)

  view-enter_hello :
      (a : Action) (df : DataFixed) (s : State)
      → view (enter_hello wire a df s)
        ≡ let (t, ar) = process_say_hello wire a df s in (t, done (accepted wire ar))
  unfolding enter_hello process_say_hello
  view-enter_hello a df s = elim (Result-cases (wire.decode_hello df.original_message)) [
    | inl (req, e) ↦ ground arith
    | inr (message, e) ↦ ground arith
  ]

  view-enter_goodbye :
      (a : Action) (df : DataFixed) (s : State)
      → view (enter_goodbye wire a df s)
        ≡ let (t, ar) = process_say_goodbye wire a df s in (t, done (accepted wire ar))
  unfolding enter_goodbye process_say_goodbye
  view-enter_goodbye a df s = elim (Result-cases (wire.decode_goodbye df.original_message)) [
    | inl (req, e) ↦ ground arith
    | inr (message, e) ↦ ground arith
  ]

  view-enter :
      (a : Action) (s : State)
      → view (enter wire a s) ≡ let (t, r) = process_action wire a s in (t, done r)
  unfolding enter process_action process_greeting
  view-enter a s = elim (Result-cases (wire.parse_data_fixed a.message)) [
    | inl (df, e) ↦ ground (arith, view-enter_hello a df s, view-enter_goodbye a df s)
    | inr (message, e) ↦ ground arith
  ]

  view-step_request : (q : Request) (s : State) → view (step_request wire q s) ≡ serve (job_of q) s
  unfolding step_request serve
  view-step_request (waiting a) s = view-enter a s
  view-step_request (greeted a df resp) s = refl
  view-step_request (farewelled a df resp) s = refl
  view-step_request (answered ns r) s = refl

  abbrev view_all : State × List Request → State × List Job
  view_all (t, qs) = (t, map job_of qs)

  view_all-step_at :
      (i : ℕ) (s : State) (qs : List Request)
      → view_all (step_at wire i s qs) ≡ serve_at i s (map job_of qs)
  unfolding step_at serve_at
  view_all-step_at i s [] = refl
  view_all-step_at zero s (q ∷ qs) = ap (λ p. (p.0, p.1 ∷ map job_of qs)) (view-step_request q s)
  view_all-step_at (suc i) s (q ∷ qs) = ap (λ p. (p.0, job_of q ∷ p.1)) (view_all-step_at i s qs)

  -- Every schedule of the requests of a system, whatever their phases, leaves the state and
  -- gives the requests the answers that they get when each is served in one step by the whole
  -- handler, at the moment of its critical section.
  pub run-serve_all :
      (is : List ℕ) (sys : System)
      → let end = run wire is sys in
        (end.state, map job_of end.requests) ≡ serve_all is (sys.state, map job_of sys.requests)
  unfolding run serve_all
  run-serve_all [] sys = refl
  run-serve_all (i ∷ is) sys =
      let (t, ps) = step_at wire i sys.state sys.requests in
      run-serve_all is (record { state = t; requests = ps })
      ∙ ap (serve_all is) (view_all-step_at i sys.state sys.requests)

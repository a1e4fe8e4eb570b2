-- ===== src/Cockpit/Serve/Examples.antt =====
-- A cockpit whose container fails, one whose spec is refused, and a loop whose first event fails. The world
-- counts the replies.
use kagura_agent.Prelude.{
  ℕ, suc, String, ◌≡◌, refl, true, false, none, some, List, [], ◌∷◌, Result, ok, raised, ◌⊎◌,
}
use kagura_agent.Prelude.Text.{codes}
use kagura_agent.Prelude.Json.{Fields, int, pos, Codec}
use kagura_agent.Core.Session.{SessionResult, Brain}
use kagura_agent.Core.Container.{ContainerSession}
use kagura_agent.Membrane.Launcher.{LaunchSpec, FileSystem, ordinary}
use kagura_agent.Cockpit.Operator.{Event, launch}
use kagura_agent.Cockpit.Core.{Error, failed, cancelled, Cockpit, CockpitState}
use kagura_agent.Cockpit.Serve.{Backend, Runner, brain_of, provider_of}
use kagura_agent.Cockpit.Serve.Loop.{run_task, handle_task, serve_events}
use kagura_agent.Cockpit.Serve.Tasks.{prepare_run, IsSelected, IsClosed, handle_task-Closed}
use kagura_agent.Cockpit.Serve.Stays.{serve_events-append}

abbrev file_system : FileSystem
file_system = record {
  realpath = some;
  stat = λ _. some ordinary;
  is_dir = λ _. false;
  scandir = λ _. ([], false);
}

abbrev codec : Codec
codec = record { dumps = λ v. ""; loads = λ s. none; encode = λ s. []; loads_bytes = λ b. none }

-- A container whose first line is no JSON.
abbrev garbled : ContainerSession ℕ
garbled = record { container_id = "c1"; events = λ w. ("oops" ∷ [], none); aclose = λ w. (none, w) }

abbrev spec : List ℕ → LaunchSpec
spec target = record {
  image = codes "agent";
  mounts = record { source = codes "/w/src"; target = target; read_only = true } ∷ [];
  egress_allow = [];
  env = [];
}

abbrev backend : List ℕ → Backend ℕ
backend target = record {
  file_system = λ w. file_system;
  project_root = codes "/w";
  text_of = λ cs. "agent";
  spec_for = λ thread w. (ok (spec target), w);
  start = λ s input w. (ok garbled, w);
  live_container_ids = λ w. (ok [], w);
}

abbrev cockpit : Cockpit ℕ
cockpit = record {
  send = λ thread text w. (ok tt, suc w);
  remember = none;
  kill = none;
  clock = λ w. (0, w);
  operator_id = none;
  require_operator = false;
}

abbrev runner : List ℕ → Runner ℕ
runner target = record {
  cockpit = cockpit;
  codec = codec;
  tools = record { hexdigest = λ s. s; dumps_sorted = λ fs. "" };
  brain = record { run = λ task prior w. (([], none), w); turn_of = λ s. int (pos 0) };
  checkpoints = record { load = λ session w. (ok none, w); save = λ c w. (ok tt, w) };
  memory = none;
  container = some (backend target);
}

abbrev idle : CockpitState ℕ
idle = record {
  approvals = record { ttl = 300; pending = []; futures = [] };
  sessions = [];
  world = 10;
}

abbrev hello : Event
hello = record { thread_id = "T1"; text = "hello"; is_thread_reply = false; sender = none }

abbrev status_query : Event
status_query = record { thread_id = "T1"; text = "/status"; is_thread_reply = true; sender = none }

abbrev container_run : Result Error (SessionResult Fields) × CockpitState ℕ
container_run =
    run_task (runner (codes "/workspace")) hello launch
      (brain_of codec (provider_of (backend (codes "/workspace")) "T1" (spec (codes "/workspace"))))
      "hello" idle

failed_run_closed : container_run.0 ≡ raised failed
unfolding run_task brain_of provider_of
failed_run_closed = refl

abbrev hello_prepared : Result Error (Brain Fields (CockpitState ℕ) × String) × CockpitState ℕ
hello_prepared = prepare_run (runner (codes "/workspace")) hello idle

abbrev hello_done : Result Error (Unit {0}) × CockpitState ℕ
hello_done = handle_task (runner (codes "/workspace")) hello launch idle

handle_task-Closed_example :
    ((e : Error) × (hello_prepared.0 ≡ raised e)
      × (hello_done ≡ (raised e, hello_prepared.1))
      × (hello_done.1.sessions ≡ []))
    ⊎ ((valid : LaunchSpec) × (prompt : String) × IsSelected
          (backend (codes "/workspace"))
          "T1"
          idle
          valid
        × (let brain = brain_of codec (provider_of (backend (codes "/workspace")) "T1" valid) in
            (hello_prepared.0 ≡ ok (brain, prompt))
            × IsClosed
                (runner (codes "/workspace"))
                (backend (codes "/workspace"))
                hello
                valid
                []
                (run_task (runner (codes "/workspace")) hello launch brain prompt hello_prepared.1)
                hello_done))
handle_task-Closed_example =
    handle_task-Closed (runner (codes "/workspace")) (backend (codes "/workspace")) hello launch
      idle refl tt

bad_target_refused :
    handle_task (runner (codes "workspace")) hello launch idle ≡ (raised failed, idle)
unfolding handle_task
bad_target_refused = refl

-- The failed run is answered, and the query after it as well.
both_answered :
    (serve_events (runner (codes "/workspace")) (hello ∷ status_query ∷ []) idle).1.world ≡ 12
unfolding serve_events
both_answered = refl

serve_events-append_example :
    (((serve_events (runner (codes "/workspace")) (hello ∷ []) idle).0 ≡ raised cancelled)
      × (serve_events (runner (codes "/workspace")) (hello ∷ status_query ∷ []) idle
          ≡ serve_events (runner (codes "/workspace")) (hello ∷ []) idle))
    ⊎ (((serve_events (runner (codes "/workspace")) (hello ∷ []) idle).0 ≡ ok tt)
        × (serve_events (runner (codes "/workspace")) (hello ∷ status_query ∷ []) idle
            ≡ serve_events
                (runner (codes "/workspace"))
                (status_query ∷ [])
                (serve_events (runner (codes "/workspace")) (hello ∷ []) idle).1))
serve_events-append_example =
    serve_events-append (runner (codes "/workspace")) (hello ∷ []) (status_query ∷ []) idle

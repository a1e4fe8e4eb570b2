-- ===== src/Cockpit/Core/Examples.antt =====
-- The cockpit at a thread with one pending request, in a world that counts its clock readings and
-- remembers the last reply.
use kagura_agent.Prelude.Text.{member}
use kagura_agent.Prelude.{
  ℕ, suc, String, ◌≡◌, refl, true, false, none, some, [], ◌∷◌, ◌⊎◌, ok, raised,
}
use kagura_agent.Prelude.Dict
use kagura_agent.Cockpit.Approval
use kagura_agent.Cockpit.Approval.Invariant.{Approved}
use kagura_agent.Cockpit.Sessions.{SessionRegistry, add, sessions}
use kagura_agent.Cockpit.Sessions.History.{IsDistinct}
use kagura_agent.Cockpit.Operator.{Event}
use kagura_agent.Cockpit.Core.{
  failed, cancelled, pending_approval_exists, Cockpit, CockpitState, request_capability,
  resolve_pending, handle_kill, sender_is_operator,
}
use kagura_agent.Cockpit.Core.Approvals.{
  Granted, resolve_pending-Approved, request_capability_raised,
}
use kagura_agent.Cockpit.Core.Kill.{handle_kill_lem}

abbrev cockpit : Cockpit ℕ
cockpit = record {
  send = λ thread text w. (ok tt, w);
  remember = some (λ text tags w. (ok tt, w));
  kill = some (λ container w. (raised failed, w));
  clock = λ w. (w, suc w);
  operator_id = some "U1";
  require_operator = true;
}

abbrev mute : Cockpit ℕ
mute = record cockpit { send = λ thread text w. (raised failed, w) }

abbrev one_session : SessionRegistry
one_session = add [] "T1" (some "c1") none []

abbrev idle : CockpitState ℕ
idle = record {
  approvals = record { ttl = 300; pending = []; futures = [] };
  sessions = one_session;
  world = 10;
}

abbrev request : Approval.CapabilityRequest
request = record { thread_id = "T1"; capability = "memory:write"; reason = "notes" }

abbrev asked : CockpitState ℕ
asked = (request_capability cockpit request idle).1

abbrev approve_by : String → Event
approve_by user = record {
  thread_id = "T1";
  text = "/approve";
  is_thread_reply = true;
  sender = some user;
}

by_operator :
    (resolve_pending cockpit (approve_by "U1") true asked).1.approvals.futures
    ≡ Approval.decided true ∷ []
unfolding resolve_pending Approval.is_pending Dict.get request_capability Approval.register Dict.put
    Approval.claim
by_operator = refl

by_agent :
    (resolve_pending cockpit (approve_by "U2") true asked).1.approvals.futures
    ≡ Approval.waiting ∷ []
unfolding resolve_pending Approval.is_pending Dict.get request_capability Approval.register Dict.put
by_agent = refl

was-Approved : Approved (resolve_pending cockpit (approve_by "U1") true asked).1.approvals.futures 0
was-Approved = rw by_operator refl

resolve_pending-Approved_example :
    Approved asked.approvals.futures 0 ⊎ Granted cockpit (approve_by "U1") true asked 0
resolve_pending-Approved_example =
    resolve_pending-Approved cockpit (approve_by "U1") true asked 0 was-Approved

not_surfaced : (request_capability mute request idle).0 ≡ raised failed
unfolding request_capability Approval.register Dict.get
not_surfaced = refl

request_capability_raised_example :
    (failed ≡ pending_approval_exists)
    ⊎ (Dict.get (request_capability mute request idle).1.approvals.pending "T1" ≡ none)
request_capability_raised_example = request_capability_raised mute request idle failed not_surfaced

distinct : IsDistinct one_session
unfolding add Dict.put
distinct = (unfold Dict.get in refl, tt)

handle_kill_lem_example :
    ((sender_is_operator cockpit (approve_by "U1") ≡ false)
      × ((handle_kill cockpit (approve_by "U1") idle).1.sessions ≡ idle.sessions)
      × ((handle_kill cockpit (approve_by "U1") idle).1.world ≡ 10))
    ⊎ ((sender_is_operator cockpit (approve_by "U1") ≡ true)
        × (((handle_kill cockpit (approve_by "U1") idle).0 ≡ raised cancelled)
            ⊎ (member "T1" (sessions (handle_kill cockpit (approve_by "U1") idle).1.sessions)
                ≡ false)))
handle_kill_lem_example = handle_kill_lem cockpit (approve_by "U1") idle distinct

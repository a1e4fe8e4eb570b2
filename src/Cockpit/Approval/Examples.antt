-- ===== src/Cockpit/Approval/Examples.antt =====
-- The theorems on pending approvals at a registry with one request, made at time 10.
use kagura_agent.Prelude.{◌≡◌, refl, true, false, [], ◌∷◌}
use kagura_agent.Prelude.Dict
use kagura_agent.Cockpit.Approval.{CapabilityRequest, decided, Registry, register, resolve}
use kagura_agent.Cockpit.Approval.Futures.{Grows, operations-Grows}
use kagura_agent.Cockpit.Approval.Invariant.{Approved, IsValid, operations-IsValid}

abbrev pub write_request : CapabilityRequest
write_request = record { thread_id = "T1"; capability = "memory:write"; reason = "notes" }

abbrev pub empty_registry : Registry
empty_registry = record { ttl = 300; pending = []; futures = [] }

abbrev pub one_pending : Registry
one_pending = (register empty_registry 10 10 write_request).1

empty-IsValid : IsValid empty_registry
empty-IsValid = record {
  keyed = λ k e h. absurd (unfold Dict.get in cc h);
  unique = λ j k d e h i s. absurd (unfold Dict.get in cc h);
  undecided = λ k e h. absurd (unfold Dict.get in cc h);
}

one_pending-IsValid : IsValid one_pending
one_pending-IsValid =
    (operations-IsValid empty_registry empty-IsValid 10 10 write_request "T1" true).0

operations-IsValid_example : IsValid (register empty_registry 10 10 write_request).1
operations-IsValid_example =
    (operations-IsValid empty_registry empty-IsValid 10 10 write_request "T1" true).0

operations-Grows_example : Grows one_pending.futures (resolve one_pending 20 "T1" true).1.futures
operations-Grows_example = (operations-Grows one_pending 20 20 write_request "T1" true).3

granted : Approved (resolve one_pending 20 "T1" true).1.futures 0
unfolding resolve register Dict.get Dict.put Dict.remove
granted = refl

in_time : (resolve one_pending 20 "T1" true).1.futures ≡ decided true ∷ []
unfolding resolve register Dict.get Dict.put Dict.remove
in_time = refl

too_late : (resolve one_pending 311 "T1" true).1.futures ≡ decided false ∷ []
unfolding resolve register Dict.get Dict.put Dict.remove
too_late = refl

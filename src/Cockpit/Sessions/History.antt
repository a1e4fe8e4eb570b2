-- ===== src/Cockpit/Sessions/History.antt =====
-- The session table after any history, thread by thread.
use kagura_agent.Prelude.Text.{member}
use kagura_agent.Prelude.{
  String, subst, ◌≡◌, refl, sym, ◌∙◌, ap, Bool, true, false, ◌&&◌, Option, none, some, List, [],
  ◌∷◌, ◌==◌, eq_iff, arith, Bool-cases, Option-cases, if◌then◌else◌, inl, inr,
}
use kagura_agent.Prelude.Dict
use kagura_agent.Prelude.Dict.{get-put}
use kagura_agent.Cockpit.Sessions.{
  closed, Status, SessionRecord, SessionRegistry, is_running, new_record, add, armed, set_container,
  sessions, close, reconcile_one, reconcile,
}

pub data Event : Type 0 where
  adds : String → Option String → Option String → List String → Event
  sets : String → String → Option String → Event
  closes : String → Event
  reconciles : List String → Event

-- The table after a history, the latest event first.
unfoldable pub replay : List Event → SessionRegistry
replay [] = []
replay (adds t container image caps ∷ h) = add (replay h) t container image caps
replay (sets t container image ∷ h) = set_container (replay h) t container image
replay (closes t ∷ h) = close (replay h) t
replay (reconciles live ∷ h) = reconcile (replay h) live

pub record Session : Type 0 where
  pub container : Option String
  pub is_open : Bool

unfoldable pub shut : Option Session → Option Session
shut none = none
shut (some s) = some (record s { is_open = false })

-- A session whose container is gone is not open any more.
unfoldable pub survive : List String → Option Session → Option Session
survive live none = none
survive live (some s) = elim s.container [
  | none ↦ some s
  | some c ↦ some (record s { is_open = s.is_open && member c live })
]

-- One thread on its own: its container, and whether its last event left it open.
unfoldable pub view : String → List Event → Option Session
unfolding shut survive
view t [] = none
view t (adds u container image caps ∷ h) =
    let before = view t h in
    if u == t then some (record { container = container; is_open = true }) else before
view t (sets u container image ∷ h) =
    let before = view t h in
    if u == t then some (record { container = some container; is_open = true }) else before
view t (closes u ∷ h) = let before = view t h in if u == t then shut before else before
view t (reconciles live ∷ h) = survive live (view t h)

-- What the table's record says of the thread.
abbrev pub seen : Option SessionRecord → Option Session
seen none = none
seen (some rec) = some (record { container = rec.container_id; is_open = is_running rec })

seen-armed :
    (o : Option SessionRecord) (t container : String) (image : Option String)
    → seen (some (armed o t container image))
      ≡ some (record { container = some container; is_open = true })
unfolding armed new_record is_running
seen-armed none t container image = refl
seen-armed (some rec) t container none = refl
seen-armed (some rec) t container (some i) = refl

get-reconcile :
    (d : SessionRegistry) (live : List String) (t : String)
    → Dict.get (reconcile d live) t
      ≡ (elim (Dict.get d t) [ none ↦ none | some rec ↦ some (reconcile_one live rec) ])
unfolding reconcile Dict.get
get-reconcile [] live t = refl
get-reconcile ((u, rec) ∷ d) live t = elim (Bool-cases (u == t)) [
  | inl e ↦ rw e refl
  | inr e ↦ rw e (get-reconcile d live t)
]

seen-put :
    (d : SessionRegistry) (u t : String) (rec : SessionRecord) (o : Option Session)
    → seen (Dict.get d t) ≡ o
    → seen (Dict.get (Dict.put d u rec) t) ≡ (if u == t then seen (some rec) else o)
seen-put d u t rec o h = elim (Bool-cases (u == t)) [
  | inl e ↦ rw (get-put d u t rec, e) refl
  | inr e ↦ rw (get-put d u t rec, e) h
]

pub seen-close :
    (d : SessionRegistry) (u t : String)
    → seen (Dict.get (close d u) t)
      ≡ (if u == t then shut (seen (Dict.get d t)) else seen (Dict.get d t))
unfolding shut close is_running
seen-close d u t = elim (Option-cases (Dict.get d u)) [
  | inl e ↦ elim (Bool-cases (u == t)) [
    | inl same ↦
        let found : Dict.get d t ≡ none =
          subst (λ x. Dict.get d x ≡ none) ((eq_iff u t).0 same) e in
        rw (e, close, same, found) refl
    | inr other ↦ rw (e, close, other) refl
  ]
  | inr (rec, e) ↦ elim (Bool-cases (u == t)) [
    | inl same ↦
        let found : Dict.get d t ≡ some rec =
          subst (λ x. Dict.get d x ≡ some rec) ((eq_iff u t).0 same) e in
        rw (e, close, get-put d u t (record rec { status = closed }), same, found) refl
    | inr other ↦ rw (e, close, get-put d u t (record rec { status = closed }), other) refl
  ]
]

seen-reconcile_fields :
    (live : List String) (t : String) (container image : Option String) (caps : List String)
    (s : Status)
    → (let rec : SessionRecord = record {
      thread_id = t;
      container_id = container;
      image = image;
      granted_caps = caps;
      status = s;
    } in
        seen (some (reconcile_one live rec)) ≡ survive live (seen (some rec)))
unfolding survive reconcile_one is_running
seen-reconcile_fields live t none image caps s = refl
seen-reconcile_fields live t (some c) image caps s = elim (Bool-cases (member c live)) [
  | inl m ↦ rw m (ap (λ b. some (record { container = some c; is_open = b })) (still _))
  | inr m ↦ rw m (ap (λ b. some (record { container = some c; is_open = b })) (never _))
]
  where
    still : (b : Bool) → b ≡ (b && true)
    still true = refl
    still false = refl

    never : (b : Bool) → false ≡ (b && false)
    never true = refl
    never false = refl

seen-reconcile :
    (live : List String) (o : Option SessionRecord)
    → seen (elim o [ none ↦ none | some rec ↦ some (reconcile_one live rec) ])
      ≡ survive live (seen o)
unfolding survive
seen-reconcile live none = refl
seen-reconcile live (some rec) =
    seen-reconcile_fields live rec.thread_id rec.container_id rec.image rec.granted_caps rec.status

-- The table's record of a thread shows what the thread's own events made of it: its container, and
-- whether its session is running.
pub view-replay : (t : String) (h : List Event) → seen (Dict.get (replay h) t) ≡ view t h
unfolding replay view add set_container new_record is_running
view-replay t [] = unfold Dict.get in refl
view-replay t (adds u container image caps ∷ h) =
    seen-put (replay h) u t _ (view t h) (view-replay t h)
view-replay t (sets u container image ∷ h) =
    rw (sym (seen-armed (Dict.get (replay h) u) u container image))
      (seen-put (replay h) u t _ (view t h) (view-replay t h))
view-replay t (closes u ∷ h) = rw (sym (view-replay t h)) (seen-close (replay h) u t)
view-replay t (reconciles live ∷ h) =
    rw (sym (view-replay t h), get-reconcile (replay h) live t)
      (seen-reconcile live (Dict.get (replay h) t))

-- No thread has two entries.
abbrev pub IsDistinct : SessionRegistry → Type 0
IsDistinct [] = Unit
IsDistinct ((t, _) ∷ d) = (Dict.get d t ≡ none) × IsDistinct d

pub put-IsDistinct :
    (d : SessionRegistry) (u : String) (rec : SessionRecord)
    → IsDistinct d
    → IsDistinct (Dict.put d u rec)
unfolding Dict.put
put-IsDistinct [] u rec h = (unfold Dict.get in refl, tt)
put-IsDistinct ((t, x) ∷ d) u rec h = elim (Bool-cases (t == u)) [
  | inl e ↦ rw e h
  | inr e ↦
      rw e
        (ground (arith, get-put d u t rec, eq_iff t u, eq_iff u t, h.0), put-IsDistinct d u rec h.1)
]

pub close-IsDistinct : (d : SessionRegistry) (u : String) → IsDistinct d → IsDistinct (close d u)
unfolding close
close-IsDistinct d u h = elim (Option-cases (Dict.get d u)) [
  | inl e ↦ rw (e, close) h
  | inr (rec, e) ↦ rw (e, close) (put-IsDistinct d u _ h)
]

reconcile-IsDistinct :
    (d : SessionRegistry) (live : List String) → IsDistinct d → IsDistinct (reconcile d live)
unfolding reconcile
reconcile-IsDistinct [] live h = tt
reconcile-IsDistinct ((t, x) ∷ d) live h =
    (rw (get-reconcile d live t, h.0) refl, reconcile-IsDistinct d live h.1)

replay-IsDistinct : (h : List Event) → IsDistinct (replay h)
unfolding replay add set_container
replay-IsDistinct [] = tt
replay-IsDistinct (adds u container image caps ∷ h) = put-IsDistinct _ u _ (replay-IsDistinct h)
replay-IsDistinct (sets u container image ∷ h) = put-IsDistinct _ u _ (replay-IsDistinct h)
replay-IsDistinct (closes u ∷ h) = close-IsDistinct _ u (replay-IsDistinct h)
replay-IsDistinct (reconciles live ∷ h) = reconcile-IsDistinct _ live (replay-IsDistinct h)

unfoldable pub is_resumable : Option Session → Bool
is_resumable none = false
is_resumable (some s) = s.is_open

pub member-sessions :
    (d : SessionRegistry) (t : String)
    → IsDistinct d
    → member t (sessions d) ≡ is_resumable (seen (Dict.get d t))
unfolding sessions member is_resumable Dict.get
member-sessions [] t h = refl
member-sessions ((u, rec) ∷ d) t (fresh, h) = elim (Bool-cases (is_running rec)) [
  | inl r ↦ elim (Bool-cases (u == t)) [
    | inl e ↦ rw (r, e) (sym r)
    | inr e ↦ rw (r, e) (member-sessions d t h)
  ]
  | inr r ↦ elim (Bool-cases (u == t)) [
    | inl e ↦
        let absent : Dict.get d t ≡ none =
          subst (λ x. Dict.get d x ≡ none) ((eq_iff u t).0 e) fresh in
        rw (r, e) (member-sessions d t h ∙ ap (λ o. is_resumable (seen o)) absent ∙ sym r)
    | inr e ↦ rw (r, e) (member-sessions d t h)
  ]
]

-- After any history, a thread counts among the sessions that can be resumed exactly when its own
-- events leave it open: it was added or given a container, and since then neither closed nor, with
-- a container, found without it by a reconciliation.
pub member-sessions_replay :
    (t : String) (h : List Event) → member t (sessions (replay h)) ≡ is_resumable (view t h)
member-sessions_replay t h =
    member-sessions (replay h) t (replay-IsDistinct h) ∙ ap is_resumable (view-replay t h)

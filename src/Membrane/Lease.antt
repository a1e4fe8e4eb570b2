-- ===== src/Membrane/Lease.antt =====
-- membrane/lease.py, with the write-lock test of membrane/providers.py.
-- A provider is code behind an interface: its calls act on an outside world `W` that the model does
-- not look into. Clock readings and durations are whole ticks.
pub mod Keys
pub mod Cases
pub mod Tokens
pub mod Safety
pub mod Sweep
pub mod Histories
pub mod Renewal
pub mod Examples
pub mod Clearing
use Prim.Native.String.{◌++◌ as append}
use kagura_agent.Prelude.{
  ℕ, ◌+◌, ◌-◌, String, Bool, true, false, not, ◌&&◌, Option, none, some, List, [], ◌∷◌, ◌==◌, ltb,
  if◌then◌else◌, Result, ok, raised, Action, ◌>>=◌, ◌>>◌, pure, raise, lift,
}
use kagura_agent.Prelude.Dict
use kagura_agent.Prelude.Dict.{Dict}
use kagura_agent.Prelude.Text.{codes, strip, lower, eq_codes, starts_with}

-- The exceptions that reach the callers. `failed` is any other `Exception`; `cancelled` is a
-- `BaseException` that no `except Exception` catches.
pub data Error : Type 0 where
  budget_exhausted memory_write_locked key_error value_error grant_denied : Error
  revoke_permanent failed cancelled : Error

pub record Budget : Type 0 where
  pub total_seconds : ℕ
  pub spent_seconds : ℕ

unfoldable pub remaining : Budget → ℕ
remaining b = b.total_seconds - b.spent_seconds

unfoldable pub spend : Budget → ℕ → Result Error Budget
unfolding remaining
spend b seconds =
    if ltb (remaining b) seconds
    then raised budget_exhausted
    else ok (record b { spent_seconds = b.spent_seconds + seconds })

pub record Lease : Type 0 where
  pub provider : String
  pub scope : String
  pub budget : Budget
  pub cred : Option String
  pub expires_at : ℕ
  pub handle : Option String
  pub stateful : Bool

unfoldable pub for_checkpoint : Lease → Lease
for_checkpoint l = record l { cred = none }

-- `f"{handle}"`: a missing handle prints as `None`
unfoldable pub handle_text : Option String → String
handle_text none = "None"
handle_text (some h) = h

unfoldable pub token_key : String → Option String → String
unfolding handle_text
token_key provider handle = append provider (append ":" (handle_text handle))

unfoldable pub lease_key : Lease → String
unfolding token_key
lease_key l = token_key l.provider l.handle

abbrev pub Ledger : Type 0
Ledger = Dict Lease

unfoldable pub is_tracked_kind : Lease → Bool
is_tracked_kind l = elim l.handle [ none ↦ false | some h ↦ l.stateful ]

unfoldable pub record_lease : Ledger → Lease → Ledger
unfolding is_tracked_kind
record_lease d l = if is_tracked_kind l then Dict.put d (lease_key l) l else d

unfoldable pub forget : Ledger → Lease → Ledger
forget d l = Dict.remove d (lease_key l)

-- A `CredProvider`. `cred_to_env` is there for an `EnvCredProvider` only, and `write_approved` for a
-- `MemoryCloudProvider` only.
pub record CredProvider (W : Type 0) : Type 0 where
  pub stateful : Bool
  pub write_approved : Option Bool
  pub cred_to_env : Option (String → Result Error (Dict String))
  pub mint : String → ℕ → W → Result Error (String × Option String) × W
  pub revoke : Option String → W → Result Error (Unit {0}) × W

pub record Broker (W : Type 0) : Type 0 where
  pub providers : Dict (CredProvider W)
  pub clock : W → ℕ

pub record State (W : Type 0) : Type 0 where
  pub ledger : Ledger
  pub world : W

-- MemoryCloudProvider.requires_write_approval
unfoldable pub requires_write_approval : String → Bool
unfolding strip lower eq_codes starts_with
requires_write_approval scope =
    let normalized = lower (codes (strip scope)) in
    not (eq_codes normalized (codes "memory:read")) && starts_with normalized (codes "memory:")

-- `isinstance(p, MemoryCloudProvider) and p.write_approved`
unfoldable pub is_approved : Option Bool → Bool
is_approved none = false
is_approved (some approved) = approved

abbrev pub Call : Type 0 → Type 0 → Type 0
Call W = Action (State W) Error

-- `lease.handle == handle`
unfoldable pub same_handle : Option String → Option String → Bool
same_handle none none = true
same_handle (some h) (some k) = h == k
same_handle _ _ = false

-- The `except RevokePermanent` of `release`: the goal is reached.
unfoldable pub already_gone : Result Error (Unit {0}) → Result Error (Unit {0})
already_gone (raised revoke_permanent) = ok tt
already_gone r = r

-- `except Exception: log`
unfoldable pub swallow : Result Error (Unit {0}) → Result Error (Unit {0})
swallow (ok _) = ok tt
swallow (raised cancelled) = raised cancelled
swallow (raised _) = ok tt

module _ {W : Type 0} where
  unfoldable pub find_provider : Broker W → String → Result Error (CredProvider W)
  find_provider b name = elim (Dict.get b.providers name) [
    | none ↦ raised key_error
    | some p ↦ ok p
  ]

  unfoldable pub assert_scope_allowed : CredProvider W → String → Result Error (Unit {0})
  unfolding is_approved
  assert_scope_allowed p scope =
      if requires_write_approval scope && not (is_approved p.write_approved)
      then raised memory_write_locked
      else ok tt

  -- The outside calls: what they do to the world stays done when they raise.
  unfoldable pub call_mint : CredProvider W → String → ℕ → Call W (String × Option String)
  call_mint p scope ttl s = let (r, w) = p.mint scope ttl s.world in (r, record s { world = w })

  unfoldable pub call_revoke : CredProvider W → Option String → Call W (Unit {0})
  call_revoke p handle s = let (r, w) = p.revoke handle s.world in (r, record s { world = w })

  unfoldable pub read_clock : Broker W → Call W ℕ
  read_clock b s = (ok (b.clock s.world), s)

  unfoldable pub track : Lease → Call W (Unit {0})
  track l s = (ok tt, record s { ledger = record_lease s.ledger l })

  unfoldable pub untrack : Lease → Call W (Unit {0})
  untrack l s = (ok tt, record s { ledger = forget s.ledger l })

  unfoldable pub acquire : Broker W → String → String → ℕ → Budget → Call W Lease
  unfolding find_provider assert_scope_allowed call_mint read_clock track
  acquire b provider scope ttl budget = do
    p ← lift (find_provider b provider)
    lift (assert_scope_allowed p scope)
    (cred, handle) ← call_mint p scope ttl
    now ← read_clock b
    let lease : Lease = record {
      provider = provider;
      scope = scope;
      budget = budget;
      cred = some cred;
      expires_at = now + ttl;
      handle = handle;
      stateful = p.stateful;
    }
    track lease
    pure lease

  -- What follows the attempt to revoke the old token in `renew`: a token that is gone is forgotten,
  -- any other `Exception` leaves it tracked, and a cancellation goes on to the caller.
  unfoldable pub after_revoke : Result Error (Unit {0}) → Lease → Lease → Call W Lease
  unfolding untrack
  after_revoke (ok _) old renewed = do untrack old; pure renewed
  after_revoke (raised revoke_permanent) old renewed = do untrack old; pure renewed
  after_revoke (raised cancelled) old renewed = raise cancelled
  after_revoke (raised _) old renewed = pure renewed

  unfoldable pub settle_old : CredProvider W → Lease → Lease → Call W Lease
  unfolding call_revoke untrack after_revoke is_tracked_kind
  settle_old p old renewed =
      if is_tracked_kind old
      then (λ s. let (r, s') = call_revoke p old.handle s in after_revoke r old renewed s')
      else (do untrack old; pure renewed)

  unfoldable pub renew : Broker W → Lease → ℕ → Call W Lease
  unfolding spend find_provider assert_scope_allowed call_mint read_clock track same_handle
      settle_old
  renew b lease ttl = do
    budget ← lift (spend lease.budget ttl)
    p ← lift (find_provider b lease.provider)
    lift (assert_scope_allowed p lease.scope)
    (cred, handle) ← call_mint p lease.scope ttl
    now ← read_clock b
    let renewed = record lease {
      budget = budget;
      cred = some cred;
      expires_at = now + ttl;
      handle = handle;
    }
    track renewed
    if same_handle lease.handle handle then pure renewed else settle_old p lease renewed

  unfoldable pub revoke_held : Broker W → Lease → Call W (Unit {0})
  unfolding find_provider call_revoke already_gone
  revoke_held b lease = do
    p ← lift (find_provider b lease.provider)
    λ s. let (r, s') = call_revoke p lease.handle s in (already_gone r, s')

  unfoldable pub release : Broker W → Lease → Call W (Unit {0})
  unfolding revoke_held untrack
  release b lease = do if lease.stateful then revoke_held b lease else pure tt; untrack lease

  unfoldable pub sweep_one : Broker W → Lease → Call W (Unit {0})
  unfolding find_provider release swallow
  sweep_one b lease s = elim (Dict.get b.providers lease.provider) [
    | none ↦ (ok tt, s)
    | some _ ↦ let (r, s') = release b lease s in (swallow r, s')
  ]

  unfoldable pub sweep_all : Broker W → List Lease → Call W (Unit {0})
  unfolding sweep_one
  sweep_all b [] = pure tt
  sweep_all b (lease ∷ rest) = sweep_one b lease >> sweep_all b rest

  unfoldable pub open_leases : State W → List Lease
  open_leases s = Dict.values s.ledger

  unfoldable pub sweep : Broker W → Call W (Unit {0})
  unfolding sweep_all open_leases
  sweep b s = sweep_all b (open_leases s) s

-- ===== src/Membrane/Launcher.antt =====
-- membrane/launcher.py: the checks on a launch and the arguments of `docker run`. Texts are lists of their
-- code points. The file system is a parameter and does not change during a launch; the environment
-- variables and the bundled seccomp profile are arguments. An entry of a directory that cannot be asked
-- for its kind is a listing that breaks off there. A path that `realpath` gives is absolute, of POSIX.
pub mod Subtree
pub mod Args
pub mod Accepted
pub mod Routed
pub mod Words
mod Examples
use kagura_agent.Prelude.{
  ℕ, zero, suc, ◌+◌, String, Bool, true, false, not, ◌&&◌, ◌||◌, Option, none, some, List, [], ◌∷◌,
  ◌++◌, eqb, ltb, if◌then◌else◌, Result, ok, raised, bind,
}
use kagura_agent.Prelude.Text.{codes, lower, eq_codes, starts_with}
use kagura_agent.Membrane.Egress.{
  Host, EgressError, strip_host, has_char, is_nil, make_policy, as_label,
}

pub record Mount : Type 0 where
  pub source : List ℕ
  pub target : List ℕ
  pub read_only : Bool

pub record LaunchSpec : Type 0 where
  pub image : List ℕ
  pub mounts : List Mount
  pub egress_allow : List Host
  pub env : List (List ℕ × List ℕ)

pub data FileType : Type 0 where
  socket char_device block_device ordinary : FileType

-- `mode` is `none` where the entry cannot be inspected.
pub record Entry : Type 0 where
  pub path : List ℕ
  pub is_symlink : Bool
  pub mode : Option FileType
  pub is_dir : Bool

-- `scandir` gives the entries, and `true` where it raises after them. The other calls give `none` where
-- they raise.
pub record FileSystem : Type 0 where
  pub realpath : List ℕ → Option (List ℕ)
  pub stat : List ℕ → Option FileType
  pub is_dir : List ℕ → Bool
  pub scandir : List ℕ → List Entry × Bool

pub data Reason : Type 0 where
  control_socket unix_socket sock_suffix : Reason
  too_deep too_many uninspected socket_inside device_inside unreadable : Reason

pub data MembraneViolation : Type 0 where
  bad_target unresolved outside_root unconfined_seccomp : MembraneViolation
  dangerous : Reason → MembraneViolation
  bad_egress : EgressError → MembraneViolation

unfoldable pub is_one_of : List ℕ → List (List ℕ) → Bool
unfolding eq_codes
is_one_of s [] = false
is_one_of s (t ∷ ts) = eq_codes s t || is_one_of s ts

unfoldable pub dangerous_sockets : List (List ℕ)
dangerous_sockets =
    codes "/var/run/docker.sock"
    ∷ codes "/run/docker.sock"
    ∷ codes "/run/containerd/containerd.sock"
    ∷ codes "/var/run/containerd/containerd.sock"
    ∷ codes "/run/podman/podman.sock"
    ∷ codes "/var/run/podman/podman.sock"
    ∷ codes "/var/run/crio/crio.sock"
    ∷ codes "/run/crio/crio.sock"
    ∷ []

-- the text cut at each slash
unfoldable pub cut_slashes : List ℕ → List (List ℕ)
cut_slashes [] = [] ∷ []
cut_slashes (c ∷ s) = elim (cut_slashes s) [
  | [] ↦ (c ∷ []) ∷ []
  | w ∷ ws ↦ if eqb c 47 then [] ∷ w ∷ ws else (c ∷ w) ∷ ws
]

unfoldable pub real_parts : List (List ℕ) → List (List ℕ)
unfolding is_nil eq_codes
real_parts [] = []
real_parts (w ∷ ws) =
    let rest = real_parts ws in if is_nil w || eq_codes w (46 ∷ []) then rest else w ∷ rest

-- `PurePath(s).parts` of an absolute path, without the root
unfoldable pub parts : List ℕ → List (List ℕ)
unfolding cut_slashes real_parts
parts s = real_parts (cut_slashes s)

unfoldable pub last_part : List (List ℕ) → List ℕ
last_part [] = []
last_part (w ∷ []) = w
last_part (_ ∷ v ∷ ws) = last_part (v ∷ ws)

-- `s.endswith(t)`
unfoldable pub ends_with : List ℕ → List ℕ → Bool
unfolding eq_codes
ends_with [] t = eq_codes [] t
ends_with (c ∷ s) t = eq_codes (c ∷ s) t || ends_with s t

unfoldable pub is_socket : Option FileType → Bool
is_socket (some socket) = true
is_socket _ = false

unfoldable pub dangerous_mount_reason : FileSystem → List ℕ → Option Reason
unfolding is_one_of dangerous_sockets is_socket ends_with last_part parts lower
dangerous_mount_reason fs resolved =
    let lowered = lower resolved in
    if is_one_of lowered dangerous_sockets
    then some control_socket
    else if is_socket (fs.stat resolved)
    then some unix_socket
    else if ends_with (last_part (parts lowered)) (codes ".sock")
    then some sock_suffix
    else none

-- What the loop over a directory leaves: a reason to refuse, or the number of entries and the stack.
pub data Scan : Type 0 where
  refused : Reason → Scan
  more : ℕ → List (List ℕ × ℕ) → Scan

-- `file_type` of an entry that is no link, and whether the loop goes on
unfoldable pub kind_reason : Option FileType → Option Reason
kind_reason none = some uninspected
kind_reason (some socket) = some socket_inside
kind_reason (some char_device) = some device_inside
kind_reason (some block_device) = some device_inside
kind_reason (some ordinary) = none

unfoldable pub push : Entry → ℕ → List (List ℕ × ℕ) → List (List ℕ × ℕ)
push e depth stack = if e.is_dir then (e.path, depth + 1) ∷ stack else stack

module _ (max_entries max_depth : ℕ) where
  unfoldable pub scan_entries : List Entry → Bool → ℕ → ℕ → List (List ℕ × ℕ) → Scan
  unfolding kind_reason push
  scan_entries [] broken depth n stack = if broken then refused unreadable else more n stack
  scan_entries (e ∷ es) broken depth n stack =
      let skipped = scan_entries es broken depth (n + 1) stack in
      let pushed = scan_entries es broken depth (n + 1) (push e depth stack) in
      if ltb max_entries (n + 1)
      then refused too_many
      else if e.is_symlink
      then skipped
      else elim (kind_reason e.mode) [ some r ↦ refused r | none ↦ pushed ]

  -- The loop over the stack, whose top comes first. The first number is fuel; `none` is the lack of it.
  unfoldable pub scan_stack : FileSystem → ℕ → List (List ℕ × ℕ) → ℕ → Option (Option Reason)
  unfolding scan_entries
  scan_stack fs zero stack n = none
  scan_stack fs (suc fuel) [] n = some none
  scan_stack fs (suc fuel) ((current, depth) ∷ stack) n =
      let (entries, broken) = fs.scandir current in
      let step =
        if ltb max_depth depth
        then refused too_deep
        else scan_entries entries broken depth n stack in
      elim step [ refused r ↦ some (some r) | more m rest ↦ scan_stack fs fuel rest m ]

-- With fuel for one round more than there can be directories: see Subtree.
unfoldable pub subtree_special_file_reason : FileSystem → List ℕ → Option (Option Reason)
unfolding scan_stack
subtree_special_file_reason fs directory = scan_stack 50000 64 fs 50002 ((directory, 0) ∷ []) 0

unfoldable pub is_prefix : List (List ℕ) → List (List ℕ) → Bool
unfolding eq_codes
is_prefix [] ws = true
is_prefix (v ∷ vs) [] = false
is_prefix (v ∷ vs) (w ∷ ws) = eq_codes v w && is_prefix vs ws

unfoldable pub is_within : List ℕ → List ℕ → Bool
unfolding is_prefix parts
is_within child parent = is_prefix (parts parent) (parts child)

unfoldable pub check_subtree : Option (Option Reason) → Result MembraneViolation (Unit {0})
check_subtree none = raised unresolved
check_subtree (some none) = ok tt
check_subtree (some (some r)) = raised (dangerous r)

-- the checks of a resolved source against the resolved root
unfoldable pub check_source : FileSystem → List ℕ → List ℕ → Result MembraneViolation (Unit {0})
unfolding dangerous_mount_reason is_within check_subtree subtree_special_file_reason
check_source fs source root = elim (dangerous_mount_reason fs source) [
  | some r ↦ raised (dangerous r)
  | none ↦
      if not (is_within source root)
      then raised outside_root
      else if fs.is_dir source
      then check_subtree (subtree_special_file_reason fs source)
      else ok tt
]

unfoldable pub resolved : Option (List ℕ) → Result MembraneViolation (List ℕ)
resolved none = raised unresolved
resolved (some path) = ok path

unfoldable pub is_bad_target : List ℕ → Bool
unfolding has_char starts_with
is_bad_target target = has_char 58 target || not (starts_with target (47 ∷ []))

unfoldable pub resolve_mount : FileSystem → List ℕ → Mount → Result MembraneViolation Mount
unfolding is_bad_target resolved check_source
resolve_mount fs project_root mount =
    if is_bad_target mount.target
    then raised bad_target
    else bind (resolved (fs.realpath mount.source)) λ source.
      bind (resolved (fs.realpath project_root))
        λ root. bind (check_source fs source root) λ _. ok (record mount { source = source })

unfoldable pub resolve_mounts :
    FileSystem → List ℕ → List Mount → Result MembraneViolation (List Mount)
unfolding resolve_mount
resolve_mounts fs project_root [] = ok []
resolve_mounts fs project_root (mount ∷ mounts) =
    let rest = resolve_mounts fs project_root mounts in
    bind (resolve_mount fs project_root mount) λ m. bind rest λ ms. ok (m ∷ ms)

-- `EgressPolicy.from_spec`, its ValueError turned into a violation
unfoldable pub from_spec : LaunchSpec → Result MembraneViolation (List Host)
unfolding make_policy
from_spec spec = elim (make_policy spec.egress_allow) [
  | raised e ↦ raised (bad_egress e)
  | ok hosts ↦ ok hosts
]

unfoldable pub validate_spec :
    FileSystem → List ℕ → LaunchSpec → Result MembraneViolation LaunchSpec
unfolding resolve_mounts from_spec
validate_spec fs project_root spec =
    bind (resolve_mounts fs project_root spec.mounts)
      λ ms. bind (from_spec spec) λ _. ok (record spec { mounts = ms })

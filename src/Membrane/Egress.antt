-- ===== src/Membrane/Egress.antt =====
-- membrane/egress.py: the hosts that a container may reach, and membrane/egress_proxy.py, which
-- decides the requests. Hosts are texts as lists of their code points; sets of hosts
-- are lists that are asked for membership. The Docker edge is not modelled.
pub mod Label
mod Examples
use kagura_agent.Prelude.{
  ℕ, suc, ◌+◌, String, Bool, true, false, not, ◌&&◌, ◌||◌, Option, none, some, List, [], ◌∷◌, ◌++◌,
  eqb, leb, if◌then◌else◌, Result, ok, raised, bind,
}
use kagura_agent.Prelude.Text.{is_space, lower, eq_codes}

abbrev pub Host : Type 0
Host = List ℕ

unfoldable pub drop_space : Host → Host
unfolding is_space
drop_space [] = []
drop_space (c ∷ s) = let rest = drop_space s in if is_space c then rest else c ∷ s

unfoldable pub trim_cons : ℕ → Host → Host
unfolding is_space
trim_cons c [] = if is_space c then [] else c ∷ []
trim_cons c (d ∷ s) = c ∷ d ∷ s

unfoldable pub trim : Host → Host
unfolding trim_cons
trim [] = []
trim (c ∷ s) = trim_cons c (trim s)

-- s.strip()
unfoldable pub strip_host : Host → Host
unfolding drop_space trim
strip_host s = trim (drop_space s)

-- c in s
unfoldable pub has_char : ℕ → Host → Bool
has_char c [] = false
has_char c (d ∷ s) = eqb d c || has_char c s

-- s.count(c)
unfoldable pub count : ℕ → Host → ℕ
count c [] = 0
count c (d ∷ s) = let rest = count c s in if eqb d c then suc rest else rest

-- the text before the first `c`
unfoldable pub before : ℕ → Host → Host
before c [] = []
before c (d ∷ s) = let rest = before c s in if eqb d c then [] else d ∷ rest

-- the port's removal, for a text that is in lower case
unfoldable pub drop_port : Host → Host
unfolding count before has_char
drop_port [] = []
drop_port (c ∷ s) =
    if eqb c 91
    then (if has_char 93 s then before 93 s else c ∷ s)
    else if eqb (count 58 (c ∷ s)) 1
    then before 58 (c ∷ s)
    else c ∷ s

-- `_normalize_host`
unfoldable pub normalize_host : Host → Host
unfolding strip_host lower drop_port
normalize_host host = drop_port (lower (strip_host host))

unfoldable pub any_space : Host → Bool
unfolding is_space
any_space [] = false
any_space (c ∷ s) = is_space c || any_space s

unfoldable pub starts_with_dot : Host → Bool
starts_with_dot [] = false
starts_with_dot (c ∷ s) = eqb c 46

unfoldable pub is_nil : Host → Bool
is_nil [] = true
is_nil (c ∷ s) = false

-- the test on a normalized entry of the allowlist
unfoldable pub is_refused : Host → Bool
unfolding is_nil has_char starts_with_dot any_space normalize_host eq_codes
is_refused host =
    is_nil host
    || has_char 42 host
    || starts_with_dot host
    || has_char 91 host
    || has_char 93 host
    || has_char 44 host
    || any_space host
    || not (eq_codes (normalize_host host) host)

pub data EgressError : Type 0 where
  empty_entry not_plain : EgressError

unfoldable pub check_entry : Host → Result EgressError Host
unfolding strip_host is_nil normalize_host is_refused
check_entry entry =
    let raw = strip_host entry in
    let host = normalize_host raw in
    if is_nil raw then raised empty_entry else if is_refused host then raised not_plain else ok host

-- `EgressPolicy.__init__`: the allowlist
unfoldable pub make_policy : List Host → Result EgressError (List Host)
unfolding check_entry
make_policy [] = ok []
make_policy (entry ∷ entries) =
    let rest = make_policy entries in
    bind (check_entry entry) λ host. bind rest λ hosts. ok (host ∷ hosts)

-- `normalized in self._allow`
unfoldable pub allows_host : List Host → Host → Bool
unfolding eq_codes
allows_host [] host = false
allows_host (h ∷ hosts) host = eq_codes h host || allows_host hosts host

-- A policy with its log of decisions, the oldest first.
pub record EgressPolicy : Type 0 where
  pub allow : List Host
  pub log : List (Host × Bool)

-- `true` stands for `EgressDecision.ALLOW`
unfoldable pub decide_host : EgressPolicy → Host → Bool × EgressPolicy
unfolding normalize_host allows_host
decide_host p host =
    let normalized = normalize_host host in
    let decision = allows_host p.allow normalized in
    (decision, record p { log = p.log ++ (normalized, decision) ∷ [] })

-- s.split(",")
unfoldable pub split_cons : ℕ → List Host → List Host
split_cons c [] = (c ∷ []) ∷ []
split_cons c (w ∷ ws) = (c ∷ w) ∷ ws

unfoldable pub split_comma : Host → List Host
unfolding split_cons
split_comma [] = [] ∷ []
split_comma (c ∷ s) = let rest = split_comma s in if eqb c 44 then [] ∷ rest else split_cons c rest

unfoldable pub stripped_parts : List Host → List Host
unfolding strip_host is_nil
stripped_parts [] = []
stripped_parts (part ∷ parts) =
    let rest = stripped_parts parts in
    let p = strip_host part in if is_nil p then rest else p ∷ rest

-- `policy_from_label`: a malformed label allows nothing
unfoldable pub policy_from_label : Option Host → List Host
unfolding strip_host is_nil stripped_parts split_comma make_policy
policy_from_label none = []
policy_from_label (some label) =
    let made = make_policy (stripped_parts (split_comma label)) in
    if is_nil (strip_host label) then [] else elim made [ raised _ ↦ [] | ok hosts ↦ hosts ]

-- ",".join(hosts)
unfoldable pub join_comma : List Host → Host
join_comma [] = []
join_comma (h ∷ []) = h
join_comma (h ∷ g ∷ hosts) = h ++ 44 ∷ join_comma (g ∷ hosts)

-- the order of texts
unfoldable pub host_le : Host → Host → Bool
host_le [] t = true
host_le (a ∷ s) [] = false
host_le (a ∷ s) (b ∷ t) = if eqb a b then host_le s t else leb a b

unfoldable pub insert_host : Host → List Host → List Host
unfolding host_le
insert_host h [] = h ∷ []
insert_host h (g ∷ hosts) =
    let rest = insert_host h hosts in if host_le h g then h ∷ g ∷ hosts else g ∷ rest

-- `sorted(set(hosts))`
unfoldable pub sort_hosts : List Host → List Host
unfolding insert_host allows_host
sort_hosts [] = []
sort_hosts (h ∷ hosts) =
    let rest = sort_hosts hosts in if allows_host rest h then rest else insert_host h rest

unfoldable pub as_label : List Host → Host
unfolding join_comma sort_hosts
as_label hosts = join_comma (sort_hosts hosts)

-- `parse_connect_host` and `is_allowed` see a request line as its words. The method is compared in lower
-- case, which is the same on ASCII.
unfoldable pub parse_connect_host : List Host → Option Host
unfolding eq_codes lower
parse_connect_host [] = none
parse_connect_host (_ ∷ []) = none
parse_connect_host (method ∷ host ∷ _) =
    if eq_codes (lower method) (99 ∷ 111 ∷ 110 ∷ 110 ∷ 101 ∷ 99 ∷ 116 ∷ []) then some host else none

unfoldable pub is_allowed : EgressPolicy → List Host → Bool × EgressPolicy
unfolding parse_connect_host decide_host
is_allowed p words = elim (parse_connect_host words) [
  | none ↦ (false, p)
  | some host ↦ decide_host p host
]

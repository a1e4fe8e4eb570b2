-- ===== src/Membrane/Egress/Label.antt =====
-- The proxy and the launcher agree: the label of a policy gives the policy back.
use kagura_agent.Prelude.{
  ℕ, subst, inl, inr, ◌≡◌, refl, ◌∙◌, ap, ap₂, true, false, ◌||◌, some, List, [], ◌∷◌, ◌++◌, eqb,
  eqb_iff, Bool-cases, ok, bind_rule, ok_inj, All, arith,
}
use kagura_agent.Prelude.Text.{is_space, eq_codes}
use kagura_agent.Membrane.Egress.{
  Host, drop_space, trim_cons, trim, strip_host, has_char, normalize_host, any_space, is_nil,
  is_refused, check_entry, make_policy, allows_host, split_cons, split_comma, stripped_parts,
  policy_from_label, join_comma, host_le, insert_host, sort_hosts, as_label,
}

-- The host passed the test of the allowlist.
abbrev pub IsPlain : Host → Type 0
IsPlain h = is_refused h ≡ false

pub eq_codes_sound : (s t : Host) → eq_codes s t ≡ true → s ≡ t
unfolding eq_codes
eq_codes_sound [] [] h = refl
eq_codes_sound [] (b ∷ t) h = absurd (cc h)
eq_codes_sound (a ∷ s) [] h = absurd (cc h)
eq_codes_sound (a ∷ s) (b ∷ t) h =
    ap₂ (λ x y. x ∷ y) ((eqb_iff a b).0 (ground (arith, h)))
      (eq_codes_sound s t (ground (arith, h)))

pub eq_codes_refl : (s : Host) → eq_codes s s ≡ true
unfolding eq_codes
eq_codes_refl [] = refl
eq_codes_refl (a ∷ s) = ground (arith, eq_codes_refl s)

trim_plain : (s : Host) → any_space s ≡ false → trim s ≡ s
unfolding any_space trim trim_cons
trim_plain [] h = refl
trim_plain (c ∷ []) h = ground (arith, h)
trim_plain (c ∷ d ∷ s) h = rw (trim_plain (d ∷ s) (ground (arith, h))) refl

strip_plain : (s : Host) → any_space s ≡ false → strip_host s ≡ s
unfolding any_space strip_host drop_space
strip_plain [] h = trim_plain [] h
strip_plain (c ∷ s) h =
    let no_space : is_space c ≡ false = ground (arith, h) in rw no_space (trim_plain (c ∷ s) h)

split_plain : (h : Host) → has_char 44 h ≡ false → split_comma h ≡ h ∷ []
unfolding has_char split_comma split_cons
split_plain [] p = refl
split_plain (c ∷ h) p =
    let other : eqb c 44 ≡ false = ground (arith, p) in
    rw (other, split_plain h (ground (arith, p))) refl

split_first : (h t : Host) → has_char 44 h ≡ false → split_comma (h ++ 44 ∷ t) ≡ h ∷ split_comma t
unfolding has_char split_comma split_cons
split_first [] t p = refl
split_first (c ∷ h) t p =
    let other : eqb c 44 ≡ false = ground (arith, p) in
    rw (other, split_first h t (ground (arith, p))) refl

-- What the test gives of a plain host.
record Plain (h : Host) : Type 0 where
  some_char : is_nil h ≡ false
  no_comma : has_char 44 h ≡ false
  no_space : any_space h ≡ false
  stable : normalize_host h ≡ h

plain : (h : Host) → IsPlain h → Plain h
unfolding is_refused
plain h p = record {
  some_char = ground (arith, p);
  no_comma = ground (arith, p);
  no_space = ground (arith, p);
  stable = eq_codes_sound _ _ (ground (arith, p));
}

check_plain : (h : Host) → IsPlain h → check_entry h ≡ ok h
unfolding check_entry
check_plain h p = let q = plain h p in rw (strip_plain h q.no_space, q.some_char, q.stable, p) refl

make_plain : (hs : List Host) → All IsPlain hs → make_policy hs ≡ ok hs
unfolding make_policy
make_plain [] p = refl
make_plain (h ∷ hs) p = rw (check_plain h p.0, make_plain hs p.1) refl

parts_plain : (hs : List Host) → All IsPlain hs → stripped_parts hs ≡ hs
unfolding stripped_parts
parts_plain [] p = refl
parts_plain (h ∷ hs) p =
    let q = plain h p.0 in rw (strip_plain h q.no_space, q.some_char, parts_plain hs p.1) refl

split_join :
    (h : Host) (hs : List Host) → All IsPlain (h ∷ hs) → split_comma (join_comma (h ∷ hs)) ≡ h ∷ hs
unfolding join_comma
split_join h [] p = split_plain h (plain h p.0).no_comma
split_join h (g ∷ hs) p =
    split_first h _ (plain h p.0).no_comma ∙ ap (λ t. h ∷ t) (split_join g hs p.1)

strip_some : (c : ℕ) (s : Host) → is_space c ≡ false → is_nil (strip_host (c ∷ s)) ≡ false
unfolding strip_host drop_space trim trim_cons is_nil
strip_some c s p = rw p (trim_some (trim s))
  where
    trim_some : (t : Host) → is_nil (trim_cons c t) ≡ false
    trim_some [] = rw p refl
    trim_some (d ∷ t) = refl

join_some :
    (h : Host) (hs : List Host) → IsPlain h → is_nil (strip_host (join_comma (h ∷ hs))) ≡ false
unfolding join_comma is_nil any_space
join_some [] hs p = absurd (cc ((plain [] p).some_char))
join_some (c ∷ h) [] p = strip_some c h (ground (arith, (plain (c ∷ h) p).no_space))
join_some (c ∷ h) (g ∷ hs) p = strip_some c _ (ground (arith, (plain (c ∷ h) p).no_space))

-- The label of plain hosts is read as these hosts.
label_plain : (hs : List Host) → All IsPlain hs → policy_from_label (some (join_comma hs)) ≡ hs
unfolding policy_from_label
label_plain [] p = unfold join_comma strip_host drop_space trim is_nil in refl
label_plain (h ∷ hs) p =
    rw (join_some h hs p.0, split_join h hs p, parts_plain (h ∷ hs) p, make_plain (h ∷ hs) p) refl

check_entry-IsPlain : (e h : Host) → check_entry e ≡ ok h → IsPlain h
unfolding check_entry
check_entry-IsPlain e h done = elim (Bool-cases (is_nil (strip_host e))) [
  | inl a ↦ absurd (cc (simp a at done))
  | inr a ↦ elim (Bool-cases (is_refused (normalize_host (strip_host e)))) [
    | inl b ↦ absurd (cc (simp (a, b) at done))
    | inr b ↦ subst IsPlain (ok_inj (simp (a, b) at done)) b
  ]
]

make_policy-IsPlain : (es hs : List Host) → make_policy es ≡ ok hs → All IsPlain hs
unfolding make_policy
make_policy-IsPlain [] hs done = subst (All IsPlain) (ok_inj done) tt
make_policy-IsPlain (e ∷ es) hs done =
    bind_rule (check_entry e) _
      (λ h one g.
        bind_rule (make_policy es) _
          (λ others all f.
            subst (All IsPlain) (ok_inj f)
              (check_entry-IsPlain e h one, make_policy-IsPlain es others all))
          g)
      done

insert-IsPlain :
    (h : Host) (hs : List Host) → IsPlain h → All IsPlain hs → All IsPlain (insert_host h hs)
unfolding insert_host
insert-IsPlain h [] p ps = (p, tt)
insert-IsPlain h (g ∷ hs) p ps = elim (Bool-cases (host_le h g)) [
  | inl e ↦ rw e (p, ps)
  | inr e ↦ rw e (ps.0, insert-IsPlain h hs p ps.1)
]

sort-IsPlain : (hs : List Host) → All IsPlain hs → All IsPlain (sort_hosts hs)
unfolding sort_hosts
sort-IsPlain [] ps = tt
sort-IsPlain (h ∷ hs) ps = elim (Bool-cases (allows_host (sort_hosts hs) h)) [
  | inl e ↦ rw e (sort-IsPlain hs ps.1)
  | inr e ↦ rw e (insert-IsPlain h _ ps.0 (sort-IsPlain hs ps.1))
]

allows-insert :
    (h x : Host) (hs : List Host)
    → allows_host (insert_host h hs) x ≡ (eq_codes h x || allows_host hs x)
unfolding insert_host allows_host
allows-insert h x [] = refl
allows-insert h x (g ∷ hs) = elim (Bool-cases (host_le h g)) [
  | inl e ↦ rw e refl
  | inr e ↦ rw e (ground (arith, allows-insert h x hs))
]

allows-sort : (x : Host) (hs : List Host) → allows_host (sort_hosts hs) x ≡ allows_host hs x
unfolding sort_hosts allows_host
allows-sort x [] = refl
allows-sort x (h ∷ hs) = elim (Bool-cases (allows_host (sort_hosts hs) h)) [
  | inr e ↦
      rw e (allows-insert h x (sort_hosts hs) ∙ ap (λ b. eq_codes h x || b) (allows-sort x hs))
  | inl e ↦ elim (Bool-cases (eq_codes h x)) [
    | inl s ↦ rw (e, s) (subst (λ y. allows_host (sort_hosts hs) y ≡ true) (eq_codes_sound h x s) e)
    | inr s ↦ rw (e, s) (allows-sort x hs)
  ]
]

-- If the launcher accepts an allowlist, then the proxy, which reads the label that the launcher makes of
-- it, allows exactly the hosts that the launcher's policy allows.
pub label-allows :
    (entries hosts : List Host) (host : Host)
    → make_policy entries ≡ ok hosts
    → allows_host (policy_from_label (some (as_label hosts))) host ≡ allows_host hosts host
unfolding as_label
label-allows entries hosts host done =
    ap (λ hs. allows_host hs host)
      (label_plain (sort_hosts hosts) (sort-IsPlain hosts (make_policy-IsPlain entries hosts done)))
    ∙ allows-sort host hosts

-- ===== src/Membrane/Launcher/Subtree.antt =====
-- The scan of a directory's subtree ends, and what it clears holds no socket and no device.
use kagura_agent.Prelude.{
  ℕ, zero, suc, ◌+◌, ◌≤◌, ◌≡◌, ◌≢◌, refl, sym, ◌∙◌, ap, subst, Bool, true, false, Option, none,
  some, List, [], ◌∷◌, ltb, length, Bool-cases, Option-cases, inl, inr, ◌⊎◌, arith,
}
use kagura_agent.Membrane.Launcher.{
  Entry, FileSystem, FileType, socket, char_device, block_device, ordinary, Reason, too_deep, Scan,
  refused, more, kind_reason, push, scan_entries, scan_stack, subtree_special_file_reason,
}

refused-ne-more : {r : Reason} {m : ℕ} {rest : List (List ℕ × ℕ)} → refused r ≢ more m rest
refused-ne-more h = absurd (cc h)

more_inj :
    {n m : ℕ} {stack rest : List (List ℕ × ℕ)}
    → more n stack ≡ more m rest
    → (n ≡ m) × (stack ≡ rest)
more_inj h = (cc h, cc h)

Scan-cases :
    (s : Scan)
    → ((r : Reason) × (s ≡ refused r)) ⊎ ((m : ℕ) × (rest : List (List ℕ × ℕ)) × (s ≡ more m rest))
Scan-cases (refused r) = inl (r, refl)
Scan-cases (more m rest) = inr (m, rest, refl)

-- The directory is on the stack.
abbrev OnStack : List ℕ → List (List ℕ × ℕ) → Type 0
OnStack dir [] = ⊥
OnStack dir (p ∷ stack) = (dir ≡ p.0) ⊎ OnStack dir stack

abbrev Listed : Entry → List Entry → Type 0
Listed e [] = ⊥
Listed e (d ∷ es) = (d ≡ e) ⊎ Listed e es

-- The entries of a subtree; the scan does not follow a link, and a mount does not either.
pub data InTree (fs : FileSystem) : List ℕ → Entry → Type 0 where
  here : {dir : List ℕ} {e : Entry} → Listed e (fs.scandir dir).0 → InTree fs dir e
  below :
      {dir : List ℕ} (d : Entry) {e : Entry}
      → Listed d (fs.scandir dir).0
      → d.is_symlink ≡ false
      → d.is_dir ≡ true
      → InTree fs d.path e
      → InTree fs dir e

-- A link, or what is neither a socket nor a device.
abbrev pub IsClear : Entry → Type 0
IsClear e = (e.is_symlink ≡ true) ⊎ (e.mode ≡ some ordinary)

kind-ordinary : (mode : Option FileType) → kind_reason mode ≡ none → mode ≡ some ordinary
unfolding kind_reason
kind-ordinary none h = absurd (cc h)
kind-ordinary (some socket) h = absurd (cc h)
kind-ordinary (some char_device) h = absurd (cc h)
kind-ordinary (some block_device) h = absurd (cc h)
kind-ordinary (some ordinary) h = refl

push-keeps :
    (dir : List ℕ) (e : Entry) (depth : ℕ) (stack : List (List ℕ × ℕ))
    → OnStack dir stack
    → OnStack dir (push e depth stack)
unfolding push
push-keeps dir e depth stack h = elim (Bool-cases e.is_dir) [
  | inl d ↦ rw d (inr h)
  | inr d ↦ rw d h
]

push-top :
    (e : Entry) (depth : ℕ) (stack : List (List ℕ × ℕ))
    → e.is_dir ≡ true
    → OnStack e.path (push e depth stack)
unfolding push
push-top e depth stack d = rw d (inl refl)

module _ (max_entries max_depth : ℕ) where
  -- What a round of the scan tells of the entries that it went through.
  record Passes (es : List Entry) (n m : ℕ) (stack rest : List (List ℕ × ℕ)) : Type 0 where
    capped : m ≤ max_entries
    balance : length rest + n ≤ length stack + m
    keeps : (dir : List ℕ) → OnStack dir stack → OnStack dir rest
    clear : (e : Entry) → Listed e es → IsClear e
    pushed :
        (e : Entry) → Listed e es → e.is_symlink ≡ false → e.is_dir ≡ true → OnStack e.path rest

  length-push :
      (e : Entry) (depth : ℕ) (stack : List (List ℕ × ℕ))
      → length (push e depth stack) ≤ length stack + 1
  unfolding push
  length-push e depth stack = elim (Bool-cases e.is_dir) [
    | inl d ↦ rw d (omega arith)
    | inr d ↦ rw d (omega arith)
  ]

  scan_entries-Passes :
      (es : List Entry) (broken : Bool) (depth n m : ℕ) (stack rest : List (List ℕ × ℕ))
      → n ≤ max_entries
      → scan_entries max_entries max_depth es broken depth n stack ≡ more m rest
      → Passes es n m stack rest
  unfolding scan_entries
  scan_entries-Passes [] broken depth n m stack rest le h = elim (Bool-cases broken) [
    | inl b ↦ absurd (refused-ne-more (rw b at h))
    | inr b ↦
        (let (same, rest_same) = more_inj (rw b at h) in
          record {
            capped = omega (arith, same, le);
            balance = omega (arith, same, ap length rest_same);
            keeps = λ dir on. subst (OnStack dir) rest_same on;
            clear = λ e l. absurd l;
            pushed = λ e l _ _. absurd l;
          })
  ]
  scan_entries-Passes (e ∷ es) broken depth n m stack rest le h =
      elim (Bool-cases (ltb max_entries (n + 1))) [
        | inl over ↦ absurd (refused-ne-more (rw over at h))
        | inr under ↦ elim (Bool-cases e.is_symlink) [
          | inl link ↦
              let f =
                scan_entries-Passes es broken depth (n + 1) m stack rest (ground (arith, under))
                  (rw (under, link) at h) in
              record {
                capped = f.capped;
                balance = omega (arith, f.balance);
                keeps = f.keeps;
                clear = λ d l. elim l [
                  | inl q ↦ inl (subst (λ x. x.is_symlink ≡ true) q link)
                  | inr k ↦ f.clear d k
                ];
                pushed = λ d l a b. elim l [
                  | inl q ↦ absurd (cc (sym a ∙ subst (λ x. x.is_symlink ≡ true) q link))
                  | inr k ↦ f.pushed d k a b
                ];
              }
          | inr file ↦ elim (Option-cases (kind_reason e.mode)) [
            | inr (r, bad) ↦ absurd (refused-ne-more (rw (under, file, bad) at h))
            | inl good ↦
                let f =
                  scan_entries-Passes es broken depth (n + 1) m (push e depth stack) rest
                    (ground (arith, under)) (rw (under, file, good) at h) in
                record {
                  capped = f.capped;
                  balance = omega (arith, f.balance, length-push e depth stack);
                  keeps = λ dir on. f.keeps dir (push-keeps dir e depth stack on);
                  clear = λ d l. elim l [
                    | inl q ↦
                        inr (subst (λ x. x.mode ≡ some ordinary) q (kind-ordinary e.mode good))
                    | inr k ↦ f.clear d k
                  ];
                  pushed = λ d l a b. elim l [
                    | inl q ↦
                        subst (λ x. OnStack x.path rest) q
                          (f.keeps e.path
                            (push-top e depth stack (subst (λ x. x.is_dir ≡ true) (sym q) b)))
                    | inr k ↦ f.pushed d k a b
                  ];
                }
          ]
        ]
      ]

  -- One round refuses, or goes on with what it leaves on the stack.
  scan_round :
      (fs : FileSystem) (fuel n depth : ℕ) (current : List ℕ) (stack : List (List ℕ × ℕ))
      → n ≤ max_entries
      → ((r : Reason) × (scan_stack max_entries max_depth fs (suc fuel) ((current, depth) ∷ stack) n
            ≡ some (some r)))
        ⊎ ((m : ℕ) × (rest : List (List ℕ × ℕ)) × Passes (fs.scandir current).0 n m stack rest
            × (scan_stack max_entries max_depth fs (suc fuel) ((current, depth) ∷ stack) n
                ≡ scan_stack max_entries max_depth fs fuel rest m))
  unfolding scan_stack
  scan_round fs fuel n depth current stack le =
      let (entries, broken) = fs.scandir current in
      elim (Bool-cases (ltb max_depth depth)) [
        | inl deep ↦ inl (too_deep, rw (scan_stack, deep) refl)
        | inr fine ↦
            elim (Scan-cases (scan_entries max_entries max_depth entries broken depth n stack)) [
              | inl (r, e) ↦ inl (r, rw (scan_stack, fine, e) refl)
              | inr (m, rest, e) ↦ inr (
                m,
                rest,
                scan_entries-Passes entries broken depth n m stack rest le e,
                rw (scan_stack, fine, e) refl,
              )
            ]
      ]

  -- Fuel for the entries still allowed, the directories on the stack and one round more is enough.
  scan_stack-returns :
      (fs : FileSystem) (fuel : ℕ) (stack : List (List ℕ × ℕ)) (n : ℕ)
      → n ≤ max_entries
      → max_entries + length stack + 1 ≤ fuel + n
      → scan_stack max_entries max_depth fs fuel stack n ≢ none
  unfolding scan_stack
  scan_stack-returns fs zero stack n le enough = absurd (omega (arith, le, enough))
  scan_stack-returns fs (suc fuel) [] n le enough = λ h. absurd (cc h)
  scan_stack-returns fs (suc fuel) ((current, depth) ∷ stack) n le enough =
      elim (scan_round fs fuel n depth current stack le) [
        | inl (r, e) ↦ λ h. absurd (cc (sym e ∙ h))
        | inr (m, rest, f, e) ↦ λ h.
            scan_stack-returns fs fuel rest m f.capped (omega (arith, f.balance, enough))
              (sym e ∙ h)
      ]

  IsClear-below :
      (fs : FileSystem) (dir : List ℕ) (n m : ℕ) (stack rest : List (List ℕ × ℕ)) (x : Entry)
      → Passes (fs.scandir dir).0 n m stack rest
      → ((d : List ℕ) → OnStack d rest → InTree fs d x → IsClear x)
      → InTree fs dir x
      → IsClear x
  IsClear-below fs dir n m stack rest x f later (here l) = f.clear x l
  IsClear-below fs dir n m stack rest x f later (below d l a b t) =
      later d.path (f.pushed d l a b) t

  -- Whatever stands below a directory on the stack is clear, if the scan finds no reason to refuse.
  scan_stack-clears :
      (fs : FileSystem) (fuel : ℕ) (stack : List (List ℕ × ℕ)) (n : ℕ) (dir : List ℕ) (x : Entry)
      → n ≤ max_entries
      → scan_stack max_entries max_depth fs fuel stack n ≡ some none
      → OnStack dir stack
      → InTree fs dir x
      → IsClear x
  unfolding scan_stack
  scan_stack-clears fs zero stack n dir x le h on t = absurd (cc h)
  scan_stack-clears fs (suc fuel) [] n dir x le h on t = absurd on
  scan_stack-clears fs (suc fuel) ((current, depth) ∷ stack) n dir x le h on t =
      elim (scan_round fs fuel n depth current stack le) [
        | inl (r, e) ↦ absurd (cc (sym e ∙ h))
        | inr (m, rest, f, e) ↦
            let later : (d : List ℕ) → OnStack d rest → InTree fs d x → IsClear x =
              λ d o. scan_stack-clears fs fuel rest m d x f.capped (sym e ∙ h) o in
            elim on [
              | inl q ↦
                  IsClear-below fs current n m stack rest x f later (subst (λ d. InTree fs d x) q t)
              | inr o ↦ later dir (f.keeps dir o) t
            ]
      ]

-- The scan of a subtree returns, whatever the file system holds, links that loop and directories
-- without end included.
pub subtree_special_file_reason-returns :
    (fs : FileSystem) (directory : List ℕ) → subtree_special_file_reason fs directory ≢ none
unfolding subtree_special_file_reason
subtree_special_file_reason-returns fs directory =
    scan_stack-returns 50000 64 fs 50002 ((directory, 0) ∷ []) 0 (omega arith) (omega arith)

pub subtree_special_file_reason-clears :
    (fs : FileSystem) (directory : List ℕ) (x : Entry)
    → subtree_special_file_reason fs directory ≡ some none
    → InTree fs directory x
    → IsClear x
unfolding subtree_special_file_reason
subtree_special_file_reason-clears fs directory x h t =
    scan_stack-clears 50000 64 fs 50002 ((directory, 0) ∷ []) 0 directory x (omega arith) h
      (inl refl) t

-- ===== src/Mcp/Local/Valid.antt =====
-- The invariant of the local memory.
use kagura_agent.Prelude.{
  ℕ, ◌+◌, ◌≤◌, String, ◌≡◌, refl, Bool, not, none, some, List, ◌==◌, eq_iff, Option-cases,
  Bool-cases, inl, inr, arith,
}
use kagura_agent.Prelude.Dict
use kagura_agent.Prelude.Dict.{Dict, get-put, get-remove, put-IsDistinct, remove-IsDistinct}
use kagura_agent.Prelude.Decimal.{decimal_inj}
use kagura_agent.Mcp.Local.{
  Memory, FeedbackRecord, LocalMemory, new_client, memory_id, is_delivery_mode, remember,
  create_edge, has_memory, promote, record_feedback, forget,
}
use text.Mathlib.TextLemmas.{append_cancel_left}

-- No id stands twice, every memory stands under its own id, no number to come is in use, and feedback is on memories that
-- are there.
pub record IsValid (c : LocalMemory) : Type 0 where
  pub distinct : Dict.IsDistinct c.memories
  pub keyed : (k : String) (m : Memory) → Dict.get c.memories k ≡ some m → m.id ≡ k
  pub fresh : (n : ℕ) → c.next_id ≤ n → Dict.get c.memories (memory_id n) ≡ none
  pub owned : (k : String) → Dict.get c.memories k ≡ none → Dict.get c.feedback k ≡ none

pub new_client-IsValid : (rerank : Bool) → IsValid (new_client rerank)
unfolding new_client Dict.get
new_client-IsValid rerank = record {
  distinct = tt;
  keyed = λ k m h. absurd (cc h);
  fresh = λ n le. refl;
  owned = λ k h. refl;
}

memory_id_inj : {m n : ℕ} → memory_id m ≡ memory_id n → m ≡ n
unfolding memory_id
memory_id_inj e = decimal_inj (append_cancel_left "m" _ _ e)

module _ (c : LocalMemory) (v : IsValid c) where
  remembered-IsValid :
      (m : Memory)
      → m.id ≡ memory_id c.next_id
      → IsValid (record c {
        memories = Dict.put c.memories (memory_id c.next_id) m;
        next_id = c.next_id + 1;
      })
  remembered-IsValid m e =
      let mid = memory_id c.next_id in
      let stored = get-put c.memories mid in
      record {
        distinct = put-IsDistinct c.memories mid m v.distinct;
        keyed = λ k d h. elim (Bool-cases (mid == k)) [
          | inl q ↦ ground (arith, stored k m, q, h, e, eq_iff mid k)
          | inr q ↦ v.keyed k d (ground (arith, stored k m, q, h))
        ];
        fresh = λ n le. elim (Bool-cases (mid == memory_id n)) [
          | inl q ↦ absurd (omega (arith, memory_id_inj ((eq_iff _ _).0 q), le))
          | inr q ↦ ground (arith, stored (memory_id n) m, q, v.fresh n (omega (arith, le)))
        ];
        owned = λ k h. elim (Bool-cases (mid == k)) [
          | inl q ↦ absurd (ground (arith, stored k m, q, h))
          | inr q ↦ v.owned k (ground (arith, stored k m, q, h))
        ];
      }

  pub remember-IsValid :
      (text : String) (tags : List String) (tier mode : String)
      → IsValid (remember c text tags tier mode).1
  unfolding remember
  remember-IsValid text tags tier mode = elim (Bool-cases (not (is_delivery_mode mode))) [
    | inl e ↦ rw e v
    | inr e ↦ rw e (remembered-IsValid _ refl)
  ]

  pub create_edge-IsValid : (src dst type : String) → IsValid (create_edge c src dst type)
  unfolding create_edge
  create_edge-IsValid src dst type = record {
    distinct = v.distinct;
    keyed = v.keyed;
    fresh = v.fresh;
    owned = v.owned;
  }

  rewritten-IsValid :
      (k : String) (m n : Memory)
      → Dict.get c.memories k ≡ some m
      → n.id ≡ m.id
      → IsValid (record c { memories = Dict.put c.memories k n })
  rewritten-IsValid k m n h e =
      let stored = get-put c.memories k in
      record {
        distinct = put-IsDistinct c.memories k n v.distinct;
        keyed = λ j d g. elim (Bool-cases (k == j)) [
          | inl q ↦ ground (arith, stored j n, q, g, e, v.keyed k m h, eq_iff k j)
          | inr q ↦ v.keyed j d (ground (arith, stored j n, q, g))
        ];
        fresh = λ i le. elim (Bool-cases (k == memory_id i)) [
          | inl q ↦ absurd (ground (arith, v.fresh i le, h, eq_iff k (memory_id i), q))
          | inr q ↦ ground (arith, stored (memory_id i) n, q, v.fresh i le)
        ];
        owned = λ j g. elim (Bool-cases (k == j)) [
          | inl q ↦ absurd (ground (arith, stored j n, q, g))
          | inr q ↦ v.owned j (ground (arith, stored j n, q, g))
        ];
      }

  pub promote-IsValid : (mid : String) → IsValid (promote c mid).1
  unfolding promote
  promote-IsValid mid = elim (Option-cases (Dict.get c.memories mid)) [
    | inl e ↦ rw (e, promote) v
    | inr (m, e) ↦ rw (e, promote) (rewritten-IsValid mid m _ e refl)
  ]

  fed-IsValid :
      (mid : String) (m : Memory) (fs : List FeedbackRecord)
      → Dict.get c.memories mid ≡ some m
      → IsValid (record c { feedback = Dict.put c.feedback mid fs })
  fed-IsValid mid m fs e = record {
    distinct = v.distinct;
    keyed = v.keyed;
    fresh = v.fresh;
    owned = λ k h. elim (Bool-cases (mid == k)) [
      | inl q ↦ absurd (ground (arith, eq_iff mid k, q, e, h))
      | inr q ↦ ground (arith, get-put c.feedback mid k fs, q, v.owned k h)
    ];
  }

  pub record_feedback-IsValid :
      (mid query : String) (helpful : Bool) → IsValid (record_feedback c mid query helpful).1
  unfolding record_feedback has_memory
  record_feedback-IsValid mid query helpful = elim (Option-cases (Dict.get c.memories mid)) [
    | inl e ↦ rw (e, record_feedback, has_memory) v
    | inr (m, e) ↦ rw (e, record_feedback, has_memory) (fed-IsValid mid m _ e)
  ]

  pub forget-IsValid : (mid : String) → IsValid (forget c mid).1
  unfolding forget
  forget-IsValid mid = elim (Bool-cases (has_memory c mid)) [
    | inr e ↦ rw e v
    | inl e ↦ rw e (record {
      distinct = remove-IsDistinct c.memories mid v.distinct;
      keyed = λ k d h. v.keyed k d (ground (arith, get-remove c.memories mid k, h));
      fresh = λ n le. ground (arith, get-remove c.memories mid (memory_id n), v.fresh n le);
      owned = λ k h.
          ground (arith, get-remove c.feedback mid k, get-remove c.memories mid k, v.owned k, h);
    })
  ]

-- Every call of the client and of its host that changes the memory keeps it valid, the calls that
-- raise included.
pub client_calls-IsValid :
    (c : LocalMemory) (mid text query : String) (tags : List String) (tier mode : String)
    (helpful : Bool)
    → IsValid c
    → IsValid (remember c text tags tier mode).1
      × IsValid (create_edge c mid text query)
      × IsValid (promote c mid).1
      × IsValid (record_feedback c mid query helpful).1
      × IsValid (forget c mid).1
client_calls-IsValid c mid text query tags tier mode helpful v = (
  remember-IsValid c v text tags tier mode,
  create_edge-IsValid c v mid text query,
  promote-IsValid c v mid,
  record_feedback-IsValid c v mid query helpful,
  forget-IsValid c v mid,
)

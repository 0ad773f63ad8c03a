-- ===== src/Accounts/Service/Moves/Routing.antt =====
-- The choice of an account, by its elementary changes.
use chatgpt_codex_proxy.Base.{
  ℕ, ◌≡◌, refl, Bool, true, not, Option, none, some, inl, inr, String, if_keeps, Bool-cases,
  Option-cases, List, [], ◌∷◌,
}
use chatgpt_codex_proxy.Base.Text.{trim_space, is_empty}
use chatgpt_codex_proxy.Base.Dict.{Dict, lookup, values}
use chatgpt_codex_proxy.Base.Dict.Entries.{has}
use chatgpt_codex_proxy.Accounts.Types.{Record, clone_record}
use chatgpt_codex_proxy.Accounts.Quota.{is_eligible, quota_blocks_general_routing, after}
use chatgpt_codex_proxy.Accounts.Service.{
  Service, ThreadAffinity, RotationStrategy, least_used, round_robin, sticky, sticky_thread, other,
  Env, Op, refresh_all, allows,
}
use chatgpt_codex_proxy.Accounts.Service.Acquire.{
  usable, preferred_of, candidates_of, choose, choose_among, selected, sticky_of,
  acquire_matching_locked, acquire_matching,
}
use chatgpt_codex_proxy.Accounts.Service.Affinity.{
  acquire_thread, thread_affinity, release_blocked, bound_record, binding_record, or_acquire,
  affine_record, affinity_record,
}
use chatgpt_codex_proxy.Accounts.Service.Moves.{Keeps}
use chatgpt_codex_proxy.Accounts.Service.Moves.Ops.{then_on-keeps}

-- A record that is found under a name is there.
pub has_of : (id : String) (m : Dict Record) {r : Record} → lookup id m ≡ some r → has id m ≡ true
has_of id m e = rw e

module _ {env : Env} (P : Service → Type 0) (k : Keeps env P) where
  -- Choosing moves the index and nothing else.
  pub selected-keeps : (s : Service) (r : Option (Record × ℕ)) → P s → P (selected s r).0
  selected-keeps s none h = h
  selected-keeps s (some (r, index)) h = k.turns s index h

  pub choose-keeps :
      (strategy : RotationStrategy) (rs : List Record) (s : Service)
      → P s
      → P (choose strategy rs s).0
  unfolding choose
  choose-keeps round_robin rs s h = selected-keeps s _ h
  choose-keeps sticky rs s h = elim (Option-cases (sticky_of s.sticky_account_id rs)) [
    | inl e ↦ rw (e, choose) (selected-keeps s _ h)
    | inr (r, e) ↦ rw (e, choose) h
  ]
  choose-keeps least_used rs s h = selected-keeps s _ h
  choose-keeps sticky_thread rs s h = selected-keeps s _ h
  choose-keeps (other _) rs s h = selected-keeps s _ h

  pub choose_among-keeps : (rs : List Record) (s : Service) → P s → P (choose_among rs s).0
  unfolding choose_among
  choose_among-keeps [] s h = h
  choose_among-keeps (r ∷ rs) s h = choose-keeps s.rotation_strategy (r ∷ rs) s h

  pub acquire_matching_locked-keeps :
      (preferred_id : String) (allow : Option (Record → Bool)) (now : ℕ) (s : Service)
      → P s
      → P (acquire_matching_locked preferred_id allow now s).0
  unfolding acquire_matching_locked
  acquire_matching_locked-keeps preferred_id allow now s h =
      elim (Option-cases (preferred_of allow now preferred_id s)) [
        | inl e ↦
            rw (e, acquire_matching_locked)
              (choose_among-keeps (candidates_of allow now (values s.records)) s h)
        | inr (r, e) ↦ rw (e, acquire_matching_locked) h
      ]

  pub acquire_matching-keeps :
      (preferred_id : String) (allow : Option (Record → Bool)) (s : Service)
      → P s
      → P (acquire_matching env preferred_id allow s).0
  unfolding acquire_matching
  acquire_matching-keeps preferred_id allow s h =
      let refreshed = k.refreshes s h in
      then_on-keeps P (refresh_all env s).0 (refresh_all env s).1 _ refreshed
        (λ _. acquire_matching_locked-keeps preferred_id allow env.now _ refreshed)

  pub release_blocked-keeps :
      (now : ℕ) (key : String) (r : Record) (s : Service) → P s → P (release_blocked now key r s)
  release_blocked-keeps now key r s h =
      if_keeps P (quota_blocks_general_routing r.cached_quota now) (λ _. k.unbinds s key h) (λ _. h)

  pub bound_record-keeps :
      (allow : Option (Record → Bool)) (now : ℕ) (key : String) (b : ThreadAffinity)
      (found : Option Record) (s : Service)
      → P s
      → lookup b.account_id s.records ≡ found
      → P (bound_record allow now key b found s).0
  unfolding bound_record
  bound_record-keeps allow now key b none s h e = h
  bound_record-keeps allow now key b (some r) s h e =
      elim (Option-cases (usable allow now (some r))) [
        | inl t ↦ rw (t, bound_record) (release_blocked-keeps now key r s h)
        | inr (c, t) ↦
            rw (t, bound_record)
              (k.binds s now key b.account_id (has_of b.account_id s.records e) h)
      ]

  pub binding_record-keeps :
      (allow : Option (Record → Bool)) (now : ℕ) (key : String) (b : Option ThreadAffinity)
      (s : Service)
      → P s
      → P (binding_record allow now key b s).0
  unfolding binding_record
  binding_record-keeps allow now key none s h = h
  binding_record-keeps allow now key (some b) s h = elim (Bool-cases (after b.expires_at now)) [
    | inl t ↦ rw (t, binding_record) (bound_record-keeps allow now key b _ s h refl)
    | inr t ↦ rw (t, binding_record) (k.unbinds s key h)
  ]

  pub or_acquire-keeps :
      (preferred_id : String) (allow : Option (Record → Bool)) (now : ℕ) (s : Service)
      (r : Option Record)
      → P s
      → P (or_acquire preferred_id allow now (s, r)).0
  unfolding or_acquire
  or_acquire-keeps preferred_id allow now s none h =
      acquire_matching_locked-keeps preferred_id allow now s h
  or_acquire-keeps preferred_id allow now s (some r) h = h

  pub acquire_thread-keeps :
      (key preferred_id : String) (allow : Option (Record → Bool)) (s : Service)
      → P s
      → P (acquire_thread env key preferred_id allow s).0
  unfolding acquire_thread
  acquire_thread-keeps key preferred_id allow s h =
      if_keeps (λ (op : Op Record). P (op s).0) (is_empty (trim_space key))
        (λ _. acquire_matching-keeps preferred_id allow s h)
        (λ _. then_on-keeps P fresh (refresh_all env s).1 _ refreshed (λ _.
          or_acquire-keeps preferred_id allow env.now (bound fresh).0 (bound fresh).1
            (binding_record-keeps allow env.now (trim_space key) _ fresh refreshed)))
    where
      fresh : Service
      fresh = (refresh_all env s).0

      refreshed : P fresh
      refreshed = k.refreshes s h

      bound : Service → Service × Option Record
      bound t =
          binding_record allow env.now (trim_space key)
            (lookup (trim_space key) t.thread_affinities) t

  pub affine_record-keeps :
      (allow : Option (Record → Bool)) (now : ℕ) (key : String) (b : ThreadAffinity)
      (found : Option Record) (s : Service)
      → P s
      → lookup b.account_id s.records ≡ found
      → P (affine_record allow now key b found s).0
  unfolding affine_record
  affine_record-keeps allow now key b none s h e = h
  affine_record-keeps allow now key b (some r) s h e =
      if_keeps (λ (x : Service × Option Record). P x.0) (not (is_eligible r now))
        (λ _. release_blocked-keeps now key r s h)
        (λ _.
          if_keeps (λ (x : Service × Option Record). P x.0) (not (allows allow (clone_record r)))
            (λ _. h) (λ _. k.binds s now key b.account_id (has_of b.account_id s.records e) h))

  pub affinity_record-keeps :
      (allow : Option (Record → Bool)) (now : ℕ) (key : String) (b : Option ThreadAffinity)
      (s : Service)
      → P s
      → P (affinity_record allow now key b s).0
  unfolding affinity_record
  affinity_record-keeps allow now key none s h = h
  affinity_record-keeps allow now key (some b) s h = elim (Bool-cases (after b.expires_at now)) [
    | inl t ↦ rw (t, affinity_record) (affine_record-keeps allow now key b _ s h refl)
    | inr t ↦ rw (t, affinity_record) (k.unbinds s key h)
  ]

  pub thread_affinity-keeps :
      (key : String) (allow : Option (Record → Bool)) (s : Service)
      → P s
      → P (thread_affinity env key allow s).0
  unfolding thread_affinity
  thread_affinity-keeps key allow s h =
      if_keeps (λ (op : Op (Option Record)). P (op s).0) (is_empty (trim_space key)) (λ _. h)
        (λ _. then_on-keeps P (refresh_all env s).0 (refresh_all env s).1 _ (k.refreshes s h) (λ _.
          affinity_record-keeps allow env.now (trim_space key) _ (refresh_all env s).0
            (k.refreshes s h)))

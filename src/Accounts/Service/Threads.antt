-- ===== src/Accounts/Service/Threads.antt =====
-- What a thread may rely on: the account that served it serves it again, until its term ends.
use native.Mathlib.Nat.{le_refl}
use text.Mathlib.TextPositions.{eq_refl}
use chatgpt_codex_proxy.Base.{
  ℕ, ◌+◌, ◌≡◌, ◌<◌, ◌≤◌, sym, ap, ◌∙◌, Bool, true, false, Option, some, inl, inr, String, arith,
  Option-cases, lt→ltb,
}
use chatgpt_codex_proxy.Base.Text.{trim_space, is_empty}
use chatgpt_codex_proxy.Base.Dict.{lookup, map_values, lookup-insert, lookup-map_values}
use chatgpt_codex_proxy.Accounts.Types.{Record, clone_record}
use chatgpt_codex_proxy.Accounts.Quota.{is_eligible, quota_blocks_general_routing, cooling}
use chatgpt_codex_proxy.Accounts.Quota.Laws.{quota_blocks-normalize}
use chatgpt_codex_proxy.Accounts.Service.{
  Service, ThreadAffinity, Env, ok, refresh_record, normalize_cached_quota, clear_expired_cooldown,
  refresh_all, allows,
}
use chatgpt_codex_proxy.Accounts.Service.Affinity.{
  bind, note_thread_success, bound_record, binding_record, or_acquire, acquire_thread,
}

blocks-normalize_cached_quota :
    (r : Record) (now later : ℕ)
    → now ≤ later
    → quota_blocks_general_routing (normalize_cached_quota r now).0.cached_quota later
      ≡ quota_blocks_general_routing r.cached_quota later
unfolding normalize_cached_quota
blocks-normalize_cached_quota r now later h = elim (Option-cases r.cached_quota) [
  | inl e ↦ rw (e, normalize_cached_quota) (ap (λ u. quota_blocks_general_routing u later) e)
  | inr (q, e) ↦ rw (e, normalize_cached_quota) (quota_blocks-normalize q now later h)
]

normalize_cached_quota-frame :
    (r : Record) (now : ℕ)
    → ((normalize_cached_quota r now).0.status ≡ r.status)
      × ((normalize_cached_quota r now).0.token ≡ r.token)
      × ((normalize_cached_quota r now).0.cooldown_until ≡ r.cooldown_until)
unfolding normalize_cached_quota
normalize_cached_quota-frame r now = ground arith

cleared :
    (r : Record) (now later : ℕ)
    → now ≤ later
    → ((clear_expired_cooldown r now).0.status ≡ r.status)
      × ((clear_expired_cooldown r now).0.token ≡ r.token)
      × ((clear_expired_cooldown r now).0.cached_quota ≡ r.cached_quota)
      × (cooling (clear_expired_cooldown r now).0.cooldown_until later
          ≡ cooling r.cooldown_until later)
unfolding clear_expired_cooldown
cleared r now later h = ground arith

refresh_record-frame :
    (r : Record) (now : ℕ)
    → let c = (clear_expired_cooldown (normalize_cached_quota r now).0 now).0 in
      ((refresh_record now r).0.status ≡ c.status)
      × ((refresh_record now r).0.token ≡ c.token)
      × ((refresh_record now r).0.cached_quota ≡ c.cached_quota)
      × ((refresh_record now r).0.cooldown_until ≡ c.cooldown_until)
unfolding refresh_record
refresh_record-frame r now = ground arith

is_eligible-eq :
    (r r' : Record) (t : ℕ)
    → r'.status ≡ r.status
    → r'.token ≡ r.token
    → cooling r'.cooldown_until t ≡ cooling r.cooldown_until t
    → quota_blocks_general_routing r'.cached_quota t ≡ quota_blocks_general_routing r.cached_quota t
    → is_eligible r' t ≡ is_eligible r t
unfolding is_eligible
is_eligible-eq r r' t a b c d = rw (a, b, c, d)

-- The refresh of a record changes its eligibility neither at the time of the refresh nor at any
-- later time.
pub is_eligible-refresh_record :
    (now later : ℕ) (r : Record)
    → now ≤ later
    → is_eligible (refresh_record now r).0 later ≡ is_eligible r later
is_eligible-refresh_record now later r h =
    let q = (normalize_cached_quota r now).0 in
    let (a, b, c, d) = refresh_record-frame r now in
    let (a', b', c', d') = cleared q now later h in
    let (a'', b'', d'') = normalize_cached_quota-frame r now in
    is_eligible-eq r (refresh_record now r).0 later (a ∙ a' ∙ a'') (b ∙ b' ∙ b'')
      (ap (λ u. cooling u later) d ∙ d' ∙ ap (λ u. cooling u later) d'')
      (ap (λ u. quota_blocks_general_routing u later) (c ∙ c')
        ∙ blocks-normalize_cached_quota r now later h)

pub refresh_all-frame :
    (env : Env) (s : Service)
    → ((refresh_all env s).0.records ≡ map_values (λ r. (refresh_record env.now r).0) s.records)
      × ((refresh_all env s).0.thread_affinities ≡ s.thread_affinities)
      × ((refresh_all env s).0.thread_affinity_ttl ≡ s.thread_affinity_ttl)
unfolding refresh_all
refresh_all-frame env s = ground arith

bound_record-some :
    (allow : Option (Record → Bool)) (now : ℕ) (key : String) (b : ThreadAffinity) (r : Record)
    (s : Service)
    → is_eligible r now ≡ true
    → allows allow (clone_record r) ≡ true
    → bound_record allow now key b (some r) s ≡ (bind now key b.account_id s, some (clone_record r))
unfolding bound_record
bound_record-some allow now key b r s el al = rw (el, al, bound_record)

-- A bound account that can still be used is the answer.
bound_answer :
    (allow : Option (Record → Bool)) (now : ℕ) (key preferred_id : String) (b : ThreadAffinity)
    (r : Record) (s : Service)
    → lookup b.account_id s.records ≡ some r
    → now < b.expires_at
    → is_eligible r now ≡ true
    → allows allow (clone_record r) ≡ true
    → (or_acquire preferred_id allow now (binding_record allow now key (some b) s)).1
      ≡ ok (clone_record r)
unfolding or_acquire binding_record
bound_answer allow now key preferred_id b r s e t el al =
    rw (lt→ltb now b.expires_at t, e, bound_record-some allow now key b r s el al)

noted_binding :
    (now : ℕ) (key id : String) (s : Service) (r : Record)
    → is_empty (trim_space key) ≡ false
    → is_empty (trim_space id) ≡ false
    → lookup (trim_space id) s.records ≡ some r
    → note_thread_success now key id s ≡ bind now (trim_space key) (trim_space id) s
unfolding note_thread_success
noted_binding now key id s r ke ie found = rw (ke, ie, found)

refreshed_lookup :
    (env : Env) (id : String) (s : Service) (r : Record)
    → lookup id s.records ≡ some r
    → lookup id (refresh_all env s).0.records ≡ some (refresh_record env.now r).0
refreshed_lookup env id s r e =
    ap (lookup id) (refresh_all-frame env s).0
    ∙ lookup-map_values id (λ r. (refresh_record env.now r).0) s.records
    ∙ (rw e)

acquire_thread-step :
    (env : Env) (key preferred_id : String) (allow : Option (Record → Bool)) (s : Service)
    → is_empty (trim_space key) ≡ false
    → (refresh_all env s).1 ≡ ok tt
    → let u = (refresh_all env s).0 in
      acquire_thread env key preferred_id allow s
      ≡ or_acquire preferred_id allow env.now (
          binding_record allow env.now
            (trim_space key)
            (lookup (trim_space key) u.thread_affinities)
            u)
unfolding acquire_thread
acquire_thread-step env key preferred_id allow s ke saved = rw (ke, saved)

-- After NoteThreadSuccess for a thread and an account of the service, the two not blank,
-- AcquireThread for that thread returns that account, as the refresh of the call leaves it, if the
-- time to live has not passed, the account is eligible, it is allowed and the refresh is not
-- refused by the store, whatever the strategy and the preferred id.
pub acquire_thread-note_thread_success :
    (env : Env) (noted : ℕ) (key id preferred_id : String) (allow : Option (Record → Bool))
    (s : Service) (r : Record)
    → is_empty (trim_space key) ≡ false
    → is_empty (trim_space id) ≡ false
    → lookup (trim_space id) s.records ≡ some r
    → is_eligible r env.now ≡ true
    → allows allow (clone_record (refresh_record env.now r).0) ≡ true
    → env.now < noted + s.thread_affinity_ttl
    → (refresh_all env (note_thread_success noted key id s)).1 ≡ ok tt
    → (acquire_thread env key preferred_id allow (note_thread_success noted key id s)).1
      ≡ ok (clone_record (refresh_record env.now r).0)
acquire_thread-note_thread_success env noted key id preferred_id allow s r ke ie found el al lt
      saved =
    ap (λ t. (acquire_thread env key preferred_id allow t).1) same
    ∙ ap (λ u. u.1)
        (acquire_thread-step env key preferred_id allow bound ke
          (ap (λ t. (refresh_all env t).1) (sym same) ∙ saved))
    ∙ ap
        (λ b.
          (or_acquire preferred_id allow env.now
            (binding_record allow env.now (trim_space key) b (refresh_all env bound).0)).1)
        binding
    ∙ bound_answer allow env.now (trim_space key) preferred_id term (refresh_record env.now r).0
        (refresh_all env bound).0 (refreshed_lookup env (trim_space id) bound r found) lt
        (is_eligible-refresh_record env.now env.now r (le_refl env.now) ∙ el) al
  where
    bound : Service
    bound = bind noted (trim_space key) (trim_space id) s

    same : note_thread_success noted key id s ≡ bound
    same = noted_binding noted key id s r ke ie found

    term : ThreadAffinity
    term = record { account_id = trim_space id; expires_at = noted + s.thread_affinity_ttl }

    binding : lookup (trim_space key) (refresh_all env bound).0.thread_affinities ≡ some term
    binding =
        ap (lookup (trim_space key)) (refresh_all-frame env bound).1
        ∙ lookup-insert (trim_space key) (trim_space key) term s.thread_affinities
        ∙ (rw (eq_refl (trim_space key)))

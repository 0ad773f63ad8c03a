-- ===== src/Accounts/Service/Affinity.antt =====
-- service.go: the accounts that threads are bound to, and the account of the last success.
use text.Mathlib.Text.{◌==◌ as str_eq}
use chatgpt_codex_proxy.Base.{
  ℕ, ◌+◌, Bool, false, ◌||◌, not, Option, none, some, String, is_some, if◌then◌else◌,
}
use chatgpt_codex_proxy.Base.Int.{ℤ, pos, negsuc}
use chatgpt_codex_proxy.Base.Text.{trim_space, is_empty}
use chatgpt_codex_proxy.Base.Dict.{lookup, insert, delete, delete_where}
use chatgpt_codex_proxy.Accounts.Types.{Record, clone_record}
use chatgpt_codex_proxy.Accounts.Quota.{is_eligible, quota_blocks_general_routing, after}
use chatgpt_codex_proxy.Accounts.Service.{
  Service, ThreadAffinity, Env, Result, ok, Op, ◌>>=◌, ◌>>◌, return, get, refresh_all, allows,
}
use chatgpt_codex_proxy.Accounts.Service.Acquire.{acquire_matching, acquire_matching_locked, usable}
use chatgpt_codex_proxy.Accounts.Service.Load.{default_thread_affinity_ttl}

unfoldable pub note_success : String → Service → Service
unfolding lookup
note_success id s = if is_some (lookup id s.records) then record s { sticky_account_id = id } else s

-- A duration that is not positive asks for the default.
unfoldable pub set_thread_affinity_ttl : ℤ → Service → Service
set_thread_affinity_ttl (pos ℕ.zero) s = record s {
  thread_affinity_ttl = default_thread_affinity_ttl;
}
set_thread_affinity_ttl (pos (ℕ.suc n)) s = record s { thread_affinity_ttl = ℕ.suc n }
set_thread_affinity_ttl (negsuc n) s = record s {
  thread_affinity_ttl = default_thread_affinity_ttl;
}

-- `m[key] = threadAffinity{…}` with a full term from now on.
abbrev pub bind : ℕ → String → String → Service → Service
bind now key account_id s = record s {
  thread_affinities =
      insert key (record { account_id = account_id; expires_at = now + s.thread_affinity_ttl })
        s.thread_affinities;
}

abbrev pub unbind : String → Service → Service
unbind key s = record s { thread_affinities = delete key s.thread_affinities }

unfoldable pub note_thread_success : ℕ → String → String → Service → Service
unfolding lookup insert
note_thread_success now raw_key raw_id s =
    let key = trim_space raw_key in
    let id = trim_space raw_id in
    if is_empty key || is_empty id
    then s
    else if not (is_some (lookup id s.records))
    then s
    else bind now key id s

abbrev pub bound_to : String → Option ThreadAffinity → Bool
bound_to id none = false
bound_to id (some b) = str_eq b.account_id id

-- The time until which the account is held is not read.
unfoldable pub note_thread_quota_failure : String → String → Option ℕ → Service → Service
unfolding lookup delete
note_thread_quota_failure raw_key raw_id hold_until s =
    let key = trim_space raw_key in
    let id = trim_space raw_id in
    if is_empty key || is_empty id
    then s
    else if not (is_some (lookup id s.records))
    then s
    else if bound_to id (lookup key s.thread_affinities)
    then unbind key s
    else s

unfoldable pub sweep_thread_affinities : ℕ → Service → Service
unfolding delete_where
sweep_thread_affinities now s = record s {
  thread_affinities = delete_where (λ b. not (after b.expires_at now)) s.thread_affinities;
}

-- A bound record that cannot be used loses its binding if its quota is what blocks it.
abbrev pub release_blocked : ℕ → String → Record → Service → Service
release_blocked now key r s =
    if quota_blocks_general_routing r.cached_quota now then unbind key s else s

-- The account of a binding, with a new term, or none and what becomes of the binding.
unfoldable pub bound_record :
    Option (Record → Bool)
    → ℕ
    → String
    → ThreadAffinity
    → Option Record
    → Service
    → Service × Option Record
unfolding insert delete quota_blocks_general_routing
bound_record allow now key b none s = (s, none)
bound_record allow now key b (some r) s = elim (usable allow now (some r)) [
  | some candidate ↦ (bind now key b.account_id s, some candidate)
  | none ↦ (release_blocked now key r s, none)
]

-- A binding that has run out is deleted.
unfoldable pub binding_record :
    Option (Record → Bool) → ℕ → String → Option ThreadAffinity → Service → Service × Option Record
unfolding bound_record lookup
binding_record allow now key none s = (s, none)
binding_record allow now key (some b) s =
    if after b.expires_at now
    then bound_record allow now key b (lookup b.account_id s.records) s
    else (unbind key s, none)

unfoldable pub or_acquire :
    String → Option (Record → Bool) → ℕ → Service × Option Record → Service × Result Record
unfolding acquire_matching_locked
or_acquire preferred_id allow now (s, some r) = (s, ok r)
or_acquire preferred_id allow now (s, none) = acquire_matching_locked preferred_id allow now s

unfoldable pub acquire_thread : Env → String → String → Option (Record → Bool) → Op Record
unfolding binding_record or_acquire acquire_matching
acquire_thread env raw_key preferred_id allow =
    let key = trim_space raw_key in
    if is_empty key then acquire_matching env preferred_id allow else do
      refresh_all env
      s ← get
      λ t.
          or_acquire preferred_id allow env.now
            (binding_record allow env.now key (lookup key s.thread_affinities) t)

-- As the lookup of a binding in `AcquireThread`, but what is bound and not allowed stays bound, and an
-- account that is not eligible is looked at for its quota.
unfoldable pub affine_record :
    Option (Record → Bool)
    → ℕ
    → String
    → ThreadAffinity
    → Option Record
    → Service
    → Service × Option Record
unfolding insert delete quota_blocks_general_routing
affine_record allow now key b none s = (s, none)
affine_record allow now key b (some r) s =
    if not (is_eligible r now)
    then (release_blocked now key r s, none)
    else if not (allows allow (clone_record r))
    then (s, none)
    else (bind now key b.account_id s, some (clone_record r))

unfoldable pub affinity_record :
    Option (Record → Bool) → ℕ → String → Option ThreadAffinity → Service → Service × Option Record
unfolding affine_record lookup
affinity_record allow now key none s = (s, none)
affinity_record allow now key (some b) s =
    if after b.expires_at now
    then affine_record allow now key b (lookup b.account_id s.records) s
    else (unbind key s, none)

unfoldable pub thread_affinity : Env → String → Option (Record → Bool) → Op (Option Record)
unfolding affinity_record
thread_affinity env raw_key allow =
    let key = trim_space raw_key in
    if is_empty key then return none else do
      refresh_all env
      s ← get
      λ t.
          let (t', found) = affinity_record allow env.now key (lookup key s.thread_affinities) t in
          (t', ok found)

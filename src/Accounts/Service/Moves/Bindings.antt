-- ===== src/Accounts/Service/Moves/Bindings.antt =====
-- The bookkeeping of threads, by its elementary changes.
use chatgpt_codex_proxy.Base.{
  ℕ, zero, suc, ◌||◌, not, Option, inl, inr, String, arith, if_keeps, Bool-cases,
}
use chatgpt_codex_proxy.Base.Int.{ℤ, pos, negsuc}
use chatgpt_codex_proxy.Base.Text.{trim_space, is_empty}
use chatgpt_codex_proxy.Base.Dict.{lookup}
use chatgpt_codex_proxy.Base.Dict.Entries.{has}
use chatgpt_codex_proxy.Accounts.Service.{Service, Env}
use chatgpt_codex_proxy.Accounts.Service.Affinity.{
  note_success, set_thread_affinity_ttl, note_thread_success, note_thread_quota_failure, bound_to,
}
use chatgpt_codex_proxy.Accounts.Service.Moves.{Keeps}

module _ {env : Env} (P : Service → Type 0) (k : Keeps env P) where
  pub note_success-keeps : (id : String) (s : Service) → P s → P (note_success id s)
  unfolding note_success
  note_success-keeps id s h = elim (Bool-cases (has id s.records)) [
    | inl e ↦ rw (e, note_success) (k.sticks s id e h)
    | inr e ↦ rw (e, note_success) h
  ]

  pub set_thread_affinity_ttl-keeps :
      (ttl : ℤ) (s : Service) → P s → P (set_thread_affinity_ttl ttl s)
  unfolding set_thread_affinity_ttl
  set_thread_affinity_ttl-keeps (pos zero) s h = k.times s _ h
  set_thread_affinity_ttl-keeps (pos (suc n)) s h = k.times s _ h
  set_thread_affinity_ttl-keeps (negsuc n) s h = k.times s _ h

  pub note_thread_success-keeps :
      (now : ℕ) (key id : String) (s : Service) → P s → P (note_thread_success now key id s)
  unfolding note_thread_success
  note_thread_success-keeps now key id s h =
      if_keeps P (is_empty (trim_space key) || is_empty (trim_space id)) (λ _. h)
        (λ _.
          if_keeps P (not (has (trim_space id) s.records)) (λ _. h)
            (λ e. k.binds s now (trim_space key) (trim_space id) (ground arith) h))

  pub note_thread_quota_failure-keeps :
      (key id : String) (hold_until : Option ℕ) (s : Service)
      → P s
      → P (note_thread_quota_failure key id hold_until s)
  unfolding note_thread_quota_failure
  note_thread_quota_failure-keeps key id hold_until s h =
      if_keeps P (is_empty (trim_space key) || is_empty (trim_space id)) (λ _. h)
        (λ _.
          if_keeps P (not (has (trim_space id) s.records)) (λ _. h)
            (λ _.
              if_keeps P (bound_to (trim_space id) (lookup (trim_space key) s.thread_affinities))
                (λ _. k.unbinds s (trim_space key) h) (λ _. h)))

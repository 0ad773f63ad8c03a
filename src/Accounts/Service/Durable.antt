-- ===== src/Accounts/Service/Durable.antt =====
-- What the store holds: while it accepts, it holds the accounts as they are in memory.
use chatgpt_codex_proxy.Base.{
  ℕ, ◌≡◌, refl, sym, subst, false, none, inl, inr, String, List, [], ◌∷◌, arith, Bool-cases,
  Option-cases, All,
}
use chatgpt_codex_proxy.Base.Dict.{Dict, lookup, map_values, values}
use chatgpt_codex_proxy.Accounts.Types.{Record}
use chatgpt_codex_proxy.Accounts.Service.{
  Service, Env, persist, refresh_record, refresh_all, any_changed, state_of,
}
use chatgpt_codex_proxy.Accounts.Service.Ops.{remove}
use chatgpt_codex_proxy.Accounts.Service.Affinity.{sweep_thread_affinities}
use chatgpt_codex_proxy.Accounts.Service.Calls.{Call, run}
use chatgpt_codex_proxy.Accounts.Service.Moves.{Keeps}
use chatgpt_codex_proxy.Accounts.Service.Moves.Step.{run-keeps}

-- The store holds what is in memory.
abbrev pub IsSaved : Service → Type 0
IsSaved s = s.disk ≡ state_of s

-- A Save in this call is accepted.
abbrev pub Accepts : Env → Type 0
Accepts env = env.save_error ≡ none

persist-IsSaved : (env : Env) (s : Service) → Accepts env → IsSaved (persist env s).0
unfolding persist
persist-IsSaved env s e = rw (e, persist)

refresh_record-same :
    (now : ℕ) (r : Record) → (refresh_record now r).1 ≡ false → (refresh_record now r).0 ≡ r
unfolding refresh_record
refresh_record-same now r h = ground arith

-- A refresh that changes nothing leaves the map as it was.
refreshed_same :
    (now : ℕ) (m : Dict Record)
    → any_changed now (values m) ≡ false
    → map_values (λ r. (refresh_record now r).0) m ≡ m
unfolding any_changed map_values
refreshed_same now [] h = refl
refreshed_same now ((k, r) ∷ m) h = ground (arith, refresh_record-same now r, refreshed_same now m)

refresh_all-IsSaved :
    (env : Env) (s : Service) → Accepts env → IsSaved s → IsSaved (refresh_all env s).0
unfolding refresh_all
refresh_all-IsSaved env s a h = elim (Bool-cases (any_changed env.now (values s.records))) [
  | inl e ↦ rw (e, refresh_all) (persist-IsSaved env _ a)
  | inr e ↦
      rw (e, refresh_all)
        (subst (λ m. s.disk ≡ state_of (record s { records = m }))
          (sym (refreshed_same env.now s.records e)) h)
]

remove-IsSaved :
    (env : Env) (s : Service) (id : String) → Accepts env → IsSaved s → IsSaved (remove env id s).0
unfolding remove
remove-IsSaved env s id a h = elim (Option-cases (lookup id s.records)) [
  | inl e ↦ rw (e, remove) h
  | inr (r, e) ↦ rw (e, remove) (persist-IsSaved env _ a)
]

keeps_IsSaved : (env : Env) → Accepts env → Keeps env IsSaved
unfolding sweep_thread_affinities
keeps_IsSaved env a = record {
  refreshes = λ s h. refresh_all-IsSaved env s a h;
  saves = λ s id r r' e i h. persist-IsSaved env _ a;
  saves_same = λ s b u id r r' e i h. persist-IsSaved env _ a;
  adds = λ s r h. persist-IsSaved env _ a;
  removes = λ s id h. remove-IsSaved env s id a h;
  switches = λ s strategy h. persist-IsSaved env _ a;
  prolongs = λ s id now h. h;
  binds = λ s now key id e h. h;
  unbinds = λ s key h. h;
  sweeps = λ s now h. h;
  sticks = λ s id e h. h;
  times = λ s ttl h. h;
  turns = λ s index h. h;
}

-- If the store has the accounts and the strategy that are in memory, it has them again after every
-- sequence of calls in each of which it accepts a Save.
pub run-IsSaved :
    (s : Service) (cs : List (Env × Call))
    → All (λ c. Accepts c.0) cs
    → IsSaved s
    → IsSaved (run s cs)
run-IsSaved s cs a h = run-keeps IsSaved Accepts keeps_IsSaved s cs a h

-- ===== src/Accounts/Service/Moves.antt =====
-- The elementary changes that the operations of the service are made of. What each of them keeps,
-- every call keeps: the children go through the operations once, for any such property.
pub mod Ops
pub mod Bindings
pub mod Routing
pub mod Step
use chatgpt_codex_proxy.Base.{ℕ, ◌≡◌, true, some, String}
use chatgpt_codex_proxy.Base.Dict.{insert, lookup}
use chatgpt_codex_proxy.Base.Dict.Entries.{has}
use chatgpt_codex_proxy.Accounts.Types.{Record}
use chatgpt_codex_proxy.Accounts.Service.{Service, Env, RotationStrategy, persist, refresh_all}
use chatgpt_codex_proxy.Accounts.Service.Ops.{find_same, prolong, remove}
use chatgpt_codex_proxy.Accounts.Service.Affinity.{bind, unbind, sweep_thread_affinities}

pub record Keeps (env : Env) (P : Service → Type 0) : Type 0 where
  pub refreshes : (s : Service) → P s → P (refresh_all env s).0
  -- a record that was read under its key, changed and saved
  pub saves :
      (s : Service) (id : String) (r r' : Record)
      → lookup id s.records ≡ some r
      → r'.id ≡ r.id
      → P s
      → P (persist env (record s { records = insert id r' s.records })).0
  -- a record that was found by its account
  pub saves_same :
      (s : Service) (account_id user_id id : String) (r r' : Record)
      → find_same account_id user_id s.records ≡ some (id, r)
      → r'.id ≡ r.id
      → P s
      → P (persist env (record s { records = insert id r' s.records })).0
  -- a new record
  pub adds :
      (s : Service) (r : Record)
      → P s
      → P (persist env (record s { records = insert r.id r s.records })).0
  pub removes : (s : Service) (id : String) → P s → P (remove env id s).0
  pub switches :
      (s : Service) (strategy : RotationStrategy)
      → P s
      → P (persist env (record s { rotation_strategy = strategy })).0
  pub prolongs :
      (s : Service) (id : String) (now : ℕ)
      → P s
      → P (record s { thread_affinities = prolong s id now })
  pub binds :
      (s : Service) (now : ℕ) (key id : String)
      → has id s.records ≡ true
      → P s
      → P (bind now key id s)
  pub unbinds : (s : Service) (key : String) → P s → P (unbind key s)
  pub sweeps : (s : Service) (now : ℕ) → P s → P (sweep_thread_affinities now s)
  pub sticks :
      (s : Service) (id : String)
      → has id s.records ≡ true
      → P s
      → P (record s { sticky_account_id = id })
  pub times : (s : Service) (ttl : ℕ) → P s → P (record s { thread_affinity_ttl = ttl })
  pub turns : (s : Service) (index : ℕ) → P s → P (record s { round_robin_index = index })

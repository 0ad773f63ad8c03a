-- ===== src/Accounts/Service/Ops.antt =====
-- service.go: the operations that change accounts.
use text.Mathlib.Text.{◌==◌ as str_eq}
use chatgpt_codex_proxy.Base.{
  ℕ, ◌+◌, Bool, true, false, ◌||◌, not, Option, none, some, [], ◌∷◌, String, if◌then◌else◌,
}
use chatgpt_codex_proxy.Base.Text.{trim_space, is_empty}
use chatgpt_codex_proxy.Base.Dict.{Dict, lookup, insert, delete, delete_where, map_values}
use chatgpt_codex_proxy.Accounts.Types.{
  Status, Record, OAuthToken, QuotaSnapshot, clone_record, is_active, active, disabled, banned,
}
use chatgpt_codex_proxy.Accounts.Quota.{normalize_quota_snapshot, quota_blocks_general_routing}
use chatgpt_codex_proxy.Accounts.Metadata.{TokenMetadata, metadata_from_token}
use chatgpt_codex_proxy.Accounts.Service.{
  Service, ThreadAffinity, Env, account_not_found, RotationStrategy, err, Op, ◌>>=◌, ◌>>◌, return,
  get, put, persist,
}

unfoldable pub same_account : Record → String → String → Bool
same_account existing account_id user_id =
    if not (str_eq existing.account_id account_id)
    then false
    else if is_empty (trim_space existing.user_id) || is_empty (trim_space user_id)
    then true
    else str_eq (trim_space existing.user_id) (trim_space user_id)

-- The first record, in the order of the map, that is the same account, with its key.
unfoldable pub find_same : String → String → Dict Record → Option (String × Record)
find_same account_id user_id [] = none
find_same account_id user_id ((k, r) ∷ m) =
    if same_account r account_id user_id then some (k, r) else find_same account_id user_id m

abbrev pub refreshed_record : Env → TokenMetadata → OAuthToken → Record → Record
refreshed_record env metadata token r = record r {
  token = token;
  email = metadata.email;
  plan_type = metadata.plan_type;
  user_id = metadata.user_id;
  status = active;
  last_error = "";
  cooldown_until = none;
  updated_at = env.now;
}

abbrev pub new_record : Env → TokenMetadata → String → OAuthToken → Record
new_record env metadata account_id token = record {
  id = env.next_account_id;
  account_id = account_id;
  user_id = metadata.user_id;
  email = metadata.email;
  plan_type = metadata.plan_type;
  label = "";
  status = active;
  last_error = "";
  token = token;
  cookies = some [];
  cached_quota = none;
  cooldown_until = none;
  created_at = env.now;
  updated_at = env.now;
}

-- Write a record, save, and return a copy.
abbrev pub store_record : Env → String → Record → Op Record
store_record env key r = do
  s ← get
  put (record s { records = insert key r s.records })
  persist env
  return (clone_record r)

unfoldable pub upsert_from_token : Env → String → OAuthToken → Op Record
unfolding metadata_from_token find_same insert persist
upsert_from_token env account_id token s =
    let metadata = metadata_from_token env.decode_payload token in
    elim (find_same account_id metadata.user_id s.records) [
      | some (key, r) ↦ store_record env key (refreshed_record env metadata token r) s
      | none ↦ store_record env env.next_account_id (new_record env metadata account_id token) s
    ]

unfoldable pub remove : Env → String → Op (Unit {0})
unfolding lookup delete delete_where persist
remove env id s = elim (lookup id s.records) [
  | none ↦ (s, err account_not_found)
  | some _ ↦ persist env (record s {
    records = delete id s.records;
    sticky_account_id = if str_eq s.sticky_account_id id then "" else s.sticky_account_id;
    thread_affinities = delete_where (λ b. str_eq b.account_id id) s.thread_affinities;
  })
]

abbrev pub with_label : Option String → Record → Record
with_label none r = r
with_label (some label) r = record r { label = trim_space label }

abbrev pub with_status : Option Status → Record → Record
with_status none r = r
with_status (some active) r = record r {
  status = active;
  cooldown_until = none;
  last_error = "";
  cached_quota = none;
}
with_status (some disabled) r = record r {
  status = disabled;
  cooldown_until = none;
  last_error = "";
}
with_status (some status) r = record r { status = status }

unfoldable pub patch : Env → String → Option String → Option Status → Op Record
unfolding lookup insert persist
patch env id label status s = elim (lookup id s.records) [
  | none ↦ (s, err account_not_found)
  | some r ↦
      let labelled = with_label label r in
      let restated = with_status status labelled in
      store_record env id (record restated { updated_at = env.now }) s
]

-- Write a record and save.
abbrev pub save_record : Env → String → Record → Op (Unit {0})
save_record env key r s = persist env (record s { records = insert key r s.records })

abbrev pub with_plan : String → Record → Record
with_plan plan r =
    if is_empty plan || str_eq plan "unknown" then r else record r { plan_type = plan }

abbrev pub prolong : Service → String → ℕ → Dict ThreadAffinity
prolong s id now =
    map_values
      (λ b.
        if str_eq b.account_id id then record b { expires_at = now + s.thread_affinity_ttl } else b)
      s.thread_affinities

unfoldable pub observe_snapshot : Env → String → Record → QuotaSnapshot → Op (Unit {0})
unfolding insert map_values persist
observe_snapshot env id r quota s =
    let q = (normalize_quota_snapshot quota env.now).0 in
    let planned = with_plan (trim_space q.plan_type) (record r { cached_quota = some q }) in
    if quota_blocks_general_routing (some q) env.now
    then save_record env id (record planned { updated_at = env.now }) s
    else save_record env id (record planned { cooldown_until = none; updated_at = env.now })
        (record s { thread_affinities = prolong s id env.now })

unfoldable pub observe_quota : Env → String → Option QuotaSnapshot → Op (Unit {0})
unfolding lookup insert persist observe_snapshot
observe_quota env id quota s = elim (lookup id s.records) [
  | none ↦ (s, err account_not_found)
  | some r ↦ elim quota [
    | none ↦ save_record env id (record r { cached_quota = none; updated_at = env.now }) s
    | some q ↦ observe_snapshot env id r q s
  ]
]

abbrev pub if_given : String → String → String
if_given given old = if is_empty given then old else given

-- Neither a disabled nor a banned account comes back by a new token.
abbrev pub status_after_auth : Status → Status
status_after_auth disabled = disabled
status_after_auth banned = banned
status_after_auth _ = active

unfoldable pub update_auth : Env → String → String → OAuthToken → Op (Unit {0})
unfolding lookup insert persist metadata_from_token
update_auth env id account_id token s = elim (lookup id s.records) [
  | none ↦ (s, err account_not_found)
  | some r ↦
      let metadata = metadata_from_token env.decode_payload token in
      save_record env id
        (record r {
          account_id = if_given (trim_space account_id) r.account_id;
          token = token;
          email = if_given metadata.email r.email;
          plan_type = if_given metadata.plan_type r.plan_type;
          user_id = if_given metadata.user_id r.user_id;
          status = status_after_auth r.status;
          last_error = "";
          updated_at = env.now;
        })
        s
]

unfoldable pub mark_error : Env → String → Status → String → Op (Unit {0})
unfolding lookup insert persist
mark_error env id status message s = elim (lookup id s.records) [
  | none ↦ (s, err account_not_found)
  | some r ↦
      save_record env id
        (record r {
          status = status;
          last_error = trim_space message;
          cooldown_until = if is_active status then r.cooldown_until else none;
          updated_at = env.now;
        })
        s
]

unfoldable pub set_cooldown : Env → String → Option ℕ → String → Op (Unit {0})
unfolding lookup insert persist
set_cooldown env id until message s = elim (lookup id s.records) [
  | none ↦ (s, err account_not_found)
  | some r ↦
      save_record env id
        (record r { cooldown_until = until; last_error = trim_space message; updated_at = env.now })
        s
]

unfoldable pub set_rotation_strategy : Env → RotationStrategy → Op (Unit {0})
unfolding persist
set_rotation_strategy env strategy s = persist env (record s { rotation_strategy = strategy })

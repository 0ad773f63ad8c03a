-- ===== src/Accounts/Service/Load.antt =====
-- service.go: NewService and normalizeLoadedRecord.
use chatgpt_codex_proxy.Base.{
  ℕ, Bool, true, false, ◌&&◌, ◌||◌, not, none, some, List, [], ◌∷◌, String, ◌==◌, is_some,
  if◌then◌else◌,
}
use chatgpt_codex_proxy.Base.Text.{trim_space, is_empty}
use chatgpt_codex_proxy.Base.Dict.{Dict, insert}
use chatgpt_codex_proxy.Accounts.Types.{
  Status, Record, clone_record, active, disabled, expired, banned, other,
}
use chatgpt_codex_proxy.Accounts.Metadata.{metadata_from_token}
use chatgpt_codex_proxy.Accounts.Service.{
  Service, State, Env, RotationStrategy, Result, ok, err, panic, persist, clear_expired_cooldown,
  normalize_cached_quota,
}

-- Both tests on the status at once: one that is not known becomes active.
abbrev known_status : Status → Status × Bool
known_status active = (active, false)
known_status disabled = (disabled, false)
known_status expired = (expired, false)
known_status banned = (banned, false)
known_status (other s) = (active, true)

-- A text that is missing, from the claims.
abbrev fill_text : String → String → String × Bool
fill_text old given =
    if is_empty old && not (is_empty (trim_space given))
    then (trim_space given, true)
    else (old, false)

unfoldable pub normalize_loaded_record : Env → Record → Record × Bool
unfolding metadata_from_token normalize_cached_quota clear_expired_cooldown
normalize_loaded_record env r =
    let metadata = metadata_from_token env.decode_payload r.token in
    let (status, status_changed) = known_status r.status in
    let created = if r.created_at == 0 then env.now else r.created_at in
    let updated = if r.updated_at == 0 then created else r.updated_at in
    let (user_id, user_changed) = fill_text r.user_id metadata.user_id in
    let (email, email_changed) = fill_text r.email metadata.email in
    let (plan, plan_changed) = fill_text r.plan_type metadata.plan_type in
    let filled = record r {
      status = status;
      created_at = created;
      updated_at = updated;
      cookies = elim r.cookies [ none ↦ some [] | some c ↦ some c ];
      user_id = user_id;
      email = email;
      plan_type = plan;
    } in
    let (fresh, quota_changed) = normalize_cached_quota filled env.now in
    let (warm, cooldown_changed) = clear_expired_cooldown fresh env.now in
    (
      warm,
      status_changed
          || (r.created_at == 0
              || (r.updated_at == 0
                  || (not (is_some r.cookies)
                      || (user_changed
                          || (email_changed
                              || (plan_changed || (quota_changed || cooldown_changed))))))),
    )

-- The loop over the stored records: the map, and whether anything was changed.
unfoldable pub load_records : Env → Dict Record → Bool → List Record → Dict Record × Bool
unfolding normalize_loaded_record insert
load_records env m changed [] = (m, changed)
load_records env m changed (stored ∷ rest) =
    let (r, c) = normalize_loaded_record env (clone_record stored) in
    load_records env (insert r.id r m) (changed || c) rest

-- `cmp.Or(state.RotationStrategy, defaultStrategy)`
abbrev or_strategy : RotationStrategy → RotationStrategy → RotationStrategy
or_strategy (RotationStrategy.other s) default =
    if is_empty s then default else RotationStrategy.other s
or_strategy chosen default = chosen

-- 30 minutes
abbrev pub default_thread_affinity_ttl : ℕ
default_thread_affinity_ttl = 1800000000000

-- From what the store loads, which is then what it keeps.
unfoldable pub new_service : Env → Result State → RotationStrategy → Result Service
unfolding load_records persist
new_service env (err e) strategy = err e
new_service env panic strategy = panic
new_service env (ok state) strategy =
    let (m, changed) = load_records env [] false state.records in
    let s : Service = record {
      records = m;
      rotation_strategy = or_strategy state.rotation_strategy strategy;
      round_robin_index = 0;
      sticky_account_id = "";
      thread_affinity_ttl = default_thread_affinity_ttl;
      thread_affinities = [];
      disk = state;
    } in
    let saved = persist env s in
    if changed then elim saved.1 [ ok _ ↦ ok saved.0 | err e ↦ err e | panic ↦ panic ] else ok s

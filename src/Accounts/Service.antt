-- ===== src/Accounts/Service.antt =====
-- internal/accounts/service.go and persistence.go: the state of the service, and what its operations share. An
-- operation runs under the lock from start to end, so it is a function of the state; it returns the
-- state also where it fails, since nothing is rolled back.
pub mod Load
pub mod Reads
pub mod Ops
pub mod Affinity
pub mod Acquire
pub mod Calls
pub mod Moves
pub mod Links
pub mod Durable
pub mod Choice
pub mod Threads
use chatgpt_codex_proxy.Base.{
  ℕ, Bool, true, false, ◌||◌, Option, none, some, List, [], ◌∷◌, map, String, if◌then◌else◌,
}
use chatgpt_codex_proxy.Base.Dict.{Dict, values, map_values}
use chatgpt_codex_proxy.Accounts.Types.{Record, clone_record}
use chatgpt_codex_proxy.Accounts.Quota.{normalize_quota_snapshot, after}
use chatgpt_codex_proxy.Accounts.Metadata.{JwtClaims}

pub data RotationStrategy : Type 0 where
  least_used round_robin sticky sticky_thread : RotationStrategy
  other : String → RotationStrategy

pub record ThreadAffinity : Type 0 where
  pub account_id : String
  pub expires_at : ℕ

-- What the store is given to keep.
pub record State : Type 0 where
  pub records : List Record
  pub rotation_strategy : RotationStrategy

-- `disk` is the state that the store accepted last.
pub record Service : Type 0 where
  pub records : Dict Record
  pub rotation_strategy : RotationStrategy
  pub round_robin_index : ℕ
  pub sticky_account_id : String
  pub thread_affinity_ttl : ℕ
  pub thread_affinities : Dict ThreadAffinity
  pub disk : State

-- What one call meets outside the service: the time, the answer of the store to a Save, the next
-- account id and the reading of a token's claims.
pub record Env : Type 0 where
  pub now : ℕ
  pub save_error : Option String
  pub next_account_id : String
  pub decode_payload : String → Option JwtClaims

pub data Error : Type 0 where
  store_error : String → Error
  account_not_found no_active_accounts ambiguous_reference : Error

pub data Result {ℓ} (A : Type ℓ) : Type ℓ where
  ok : A → Result A
  err : Error → Result A
  panic : Result A

abbrev pub Op : Type 0 → Type 0
Op A = Service → Service × Result A

abbrev pub then_on : {A B : Type 0} → Service → Result A → (A → Op B) → Service × Result B
then_on s (ok a) f = f a s
then_on s (err e) f = (s, err e)
then_on s panic f = (s, panic)

infixl 5 ◌>>=◌ ◌>>◌
abbrev pub ◌>>=◌ : {A B : Type 0} → Op A → (A → Op B) → Op B
◌>>=◌ m f s = then_on (m s).0 (m s).1 f

abbrev pub ◌>>◌ : {B : Type 0} → Op (Unit {0}) → Op B → Op B
m >> k = m >>= λ _. k

abbrev pub return : {A : Type 0} → A → Op A
return a s = (s, ok a)

abbrev pub fail : {A : Type 0} → Error → Op A
fail e s = (s, err e)

abbrev pub get : Op Service
get s = (s, ok s)

abbrev pub put : Service → Op (Unit {0})
put s' s = (s', ok tt)

-- What the service asks the store to keep: a copy of each record.
abbrev pub state_of : Service → State
state_of s = record {
  records = map clone_record (values s.records);
  rotation_strategy = s.rotation_strategy;
}

-- `persistLocked`: a state that the store refuses leaves its last one.
unfoldable pub persist : Env → Op (Unit {0})
persist env s = elim env.save_error [
  | none ↦ (record s { disk = state_of s }, ok tt)
  | some e ↦ (s, err (store_error e))
]

-- `clearExpiredCooldownLocked`
unfoldable pub clear_expired_cooldown : Record → ℕ → Record × Bool
clear_expired_cooldown r now = elim r.cooldown_until [
  | none ↦ (r, false)
  | some t ↦ if after t now then (r, false) else (record r { cooldown_until = none }, true)
]

-- The quota of a record brought up to date.
unfoldable pub normalize_cached_quota : Record → ℕ → Record × Bool
unfolding normalize_quota_snapshot
normalize_cached_quota r now = elim r.cached_quota [
  | none ↦ (r, false)
  | some q ↦ (
    record r { cached_quota = some (normalize_quota_snapshot q now).0 },
    (normalize_quota_snapshot q now).1,
  )
]

-- The body of the loop of `refreshAllLocked`.
unfoldable pub refresh_record : ℕ → Record → Record × Bool
unfolding normalize_cached_quota clear_expired_cooldown
refresh_record now r =
    let (q, quota_changed) = normalize_cached_quota r now in
    let (c, cooldown_changed) = clear_expired_cooldown q now in
    let changed = quota_changed || cooldown_changed in
    (if changed then record c { updated_at = now } else c, changed)

unfoldable pub any_changed : ℕ → List Record → Bool
unfolding refresh_record
any_changed now [] = false
any_changed now (r ∷ rs) = (refresh_record now r).1 || any_changed now rs

unfoldable pub refresh_all : Env → Op (Unit {0})
unfolding persist any_changed refresh_record map_values
refresh_all env s =
    let s' = record s { records = map_values (λ r. (refresh_record env.now r).0) s.records } in
    if any_changed env.now (values s.records) then persist env s' else (s', ok tt)

-- `allow == nil || allow(candidate)`
abbrev pub allows : Option (Record → Bool) → Record → Bool
allows none r = true
allows (some allow) r = allow r

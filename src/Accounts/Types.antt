-- ===== src/Accounts/Types.antt =====
-- internal/accounts/account.go, clone.go. A time is a number of nanoseconds since Go's zero time, so `IsZero`
-- is the test for 0 and `UTC()` changes nothing. A percentage is a finite float64 times 2 ^ 1074,
-- an integer: the code only compares it. A pointer is an Option; values are not shared.
use chatgpt_codex_proxy.Base.{ℕ, Bool, Option, none, some, String, ◌≡◌, [], arith}
use chatgpt_codex_proxy.Base.Int.{ℤ}
use chatgpt_codex_proxy.Base.Dict.{Dict}

-- A text that is none of the four known ones is kept as it is, the empty text too.
pub data Status : Type 0 where
  active disabled expired banned : Status
  other : String → Status

pub record OAuthToken : Type 0 where
  pub access_token : String
  pub refresh_token : String
  pub expires_at : ℕ

pub record RateLimitWindow : Type 0 where
  pub allowed : Bool
  pub limit_reached : Bool
  pub used_percent : Option ℤ
  pub reset_at : Option ℕ
  pub limit_window_seconds : Option ℤ

pub record CreditsSnapshot : Type 0 where
  pub has_credits : Bool
  pub unlimited : Bool
  pub balance : Option ℤ
  pub active_limit : String

pub record QuotaSnapshot : Type 0 where
  pub plan_type : String
  pub rate_limit : RateLimitWindow
  pub secondary_rate_limit : Option RateLimitWindow
  pub code_review_rate_limit : Option RateLimitWindow
  pub credits : Option CreditsSnapshot
  pub origin : String
  pub fetched_at : ℕ

pub record Record : Type 0 where
  pub id : String
  pub account_id : String
  pub user_id : String
  pub email : String
  pub plan_type : String
  pub label : String
  pub status : Status
  pub last_error : String
  pub token : OAuthToken
  pub cookies : Option (Dict String)
  pub cached_quota : Option QuotaSnapshot
  pub cooldown_until : Option ℕ
  pub created_at : ℕ
  pub updated_at : ℕ

abbrev pub is_active : Status → Bool
is_active Status.active = Bool.true
is_active _ = Bool.false

-- A nil map of cookies becomes an empty one; all else is copied.
unfoldable pub clone_record : Record → Record
clone_record r = record r { cookies = elim r.cookies [ none ↦ some [] | some c ↦ some c ] }

pub clone_record_idem : (r : Record) → clone_record (clone_record r) ≡ clone_record r
unfolding clone_record
clone_record_idem r = ground arith

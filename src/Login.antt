-- ===== src/Login.antt =====
-- internal/codexauth/client.go: the refresh of a token. The HTTP exchange with the login service and the decoding
-- of a token's claims are parameters.
use chatgpt_codex_proxy.Base.{
  ℕ, ◌+◌, ◌-◌, ◌*◌, Bool, false, Option, none, some, List, [], ◌∷◌, String, if◌then◌else◌,
}
use chatgpt_codex_proxy.Base.Int.{ℤ, pos, negsuc}
use chatgpt_codex_proxy.Base.Text.{trim_space, is_empty, or_text}
use chatgpt_codex_proxy.Accounts.Types.{OAuthToken}

-- A number of seconds that is missing is none.
pub record OauthTokenResponse : Type 0 where
  pub access_token : String
  pub refresh_token : String
  pub id_token : String
  pub expires_in : Option ℤ

-- An error: the code of an oauthTokenError, if it is one, and its text.
pub record RefreshFailure : Type 0 where
  pub code : Option String
  pub message : String

-- The two places of an account id in the claims of a token.
pub record OauthClaims : Type 0 where
  pub chatgpt_account_id : String
  pub auth_account_id : String

pub data Exchanged : Type 0 where
  answered : OauthTokenResponse → Exchanged
  refused : RefreshFailure → Exchanged

-- `exchange` is what doForm returns for a refresh token, `decode_claims` is jwtutil.DecodePayload, with empty claims where
-- it fails, and `equal_fold` is strings.EqualFold.
pub record OauthService : Type 0 where
  pub exchange : String → Exchanged
  pub decode_claims : String → OauthClaims
  pub equal_fold : String → String → Bool

unfoldable pub is_terminal_credential_failure : OauthService → RefreshFailure → Bool
unfolding trim_space
is_terminal_credential_failure o f = elim f.code [
  | none ↦ false
  | some c ↦ o.equal_fold (trim_space c) "invalid_grant"
]

-- A number of seconds after a time, in nanoseconds; a time before Go's zero time reads as it.
abbrev pub seconds_after : ℕ → ℤ → ℕ
seconds_after now (pos n) = now + n * 1000000000
seconds_after now (negsuc n) = now - (n + 1) * 1000000000

abbrev pub lifetime : Option ℤ → ℤ
lifetime none = pos 3600
lifetime (some n) = n

unfoldable pub build_oauth_token : ℕ → OauthTokenResponse → OAuthToken
build_oauth_token now raw = record {
  access_token = raw.access_token;
  refresh_token = raw.refresh_token;
  expires_at = seconds_after now (lifetime raw.expires_in);
}

abbrev pub id_in_claims : OauthClaims → String
id_in_claims c = or_text c.chatgpt_account_id c.auth_account_id

unfoldable pub account_id_among : OauthService → List String → String
account_id_among o [] = ""
account_id_among o (token ∷ tokens) =
    let rest = account_id_among o tokens in
    if is_empty token then rest else or_text (id_in_claims (o.decode_claims token)) rest

unfoldable pub extract_account_id : OauthService → OauthTokenResponse → String
unfolding account_id_among
extract_account_id o raw = account_id_among o (raw.id_token ∷ raw.access_token ∷ [])

pub data Refreshed : Type 0 where
  renewed : OAuthToken → String → Refreshed
  failed_refresh : RefreshFailure → Refreshed

abbrev pub keep_refresh_token : OAuthToken → OAuthToken → OAuthToken
keep_refresh_token existing next =
    if is_empty (trim_space next.refresh_token)
    then record next { refresh_token = existing.refresh_token }
    else next

abbrev pub refreshed_from : OauthService → ℕ → OAuthToken → String → Exchanged → Refreshed
refreshed_from o now existing account_id (refused f) = failed_refresh f
refreshed_from o now existing account_id (answered raw) =
    renewed (keep_refresh_token existing (build_oauth_token now raw))
      (or_text (extract_account_id o raw) account_id)

-- `OAuthService.Refresh`
unfoldable pub refresh : OauthService → ℕ → OAuthToken → String → Refreshed
unfolding build_oauth_token extract_account_id
refresh o now existing account_id =
    refreshed_from o now existing account_id (o.exchange existing.refresh_token)

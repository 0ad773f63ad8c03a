-- ===== src/Accounts/Metadata.antt =====
-- internal/accounts/token_metadata.go. Reading the claims of a token (base64 and JSON) is a parameter.
use chatgpt_codex_proxy.Base.{Option, none, some, String}
use chatgpt_codex_proxy.Base.Text.{trim_space, or_text}
use chatgpt_codex_proxy.Accounts.Types.{OAuthToken}

pub record JwtProfileClaims : Type 0 where
  pub email : String
  pub user_id : String

pub record JwtAuthClaims : Type 0 where
  pub plan_type : String
  pub user_id : String

pub record JwtClaims : Type 0 where
  pub email : String
  pub plan_type : String
  pub user_id : String
  pub profile : Option JwtProfileClaims
  pub auth : Option JwtAuthClaims

pub record TokenMetadata : Type 0 where
  pub email : String
  pub plan_type : String
  pub user_id : String

abbrev profile_or_empty : Option JwtProfileClaims → JwtProfileClaims
profile_or_empty none = record { email = ""; user_id = "" }
profile_or_empty (some p) = p

abbrev auth_or_empty : Option JwtAuthClaims → JwtAuthClaims
auth_or_empty none = record { plan_type = ""; user_id = "" }
auth_or_empty (some a) = a

abbrev metadata_of_claims : JwtClaims → TokenMetadata
metadata_of_claims claims =
    let profile = profile_or_empty claims.profile in
    let auth = auth_or_empty claims.auth in
    record {
      email = or_text (trim_space claims.email) (trim_space profile.email);
      plan_type = or_text (trim_space claims.plan_type) (trim_space auth.plan_type);
      user_id =
          or_text (trim_space claims.user_id)
            (or_text (trim_space profile.user_id) (trim_space auth.user_id));
    }

unfoldable pub metadata_from_token : (String → Option JwtClaims) → OAuthToken → TokenMetadata
metadata_from_token decode_payload token = elim (decode_payload token.access_token) [
  | none ↦ record { email = ""; plan_type = ""; user_id = "" }
  | some claims ↦ metadata_of_claims claims
]

-- ===== src/Adapter.antt =====
-- oidc/adapter.ts and oidc/authorization-context.ts: what the OIDC provider calls to store and
-- look up its models. A request carries a map from clients to the generation at which it has seen
-- them; outside a request there is none.
pub mod Requests
mod Tests
use Prim.Native.String.{◌++◌ as str_append}
use cqut_auth.Base.{
  ℕ, String, Bool, true, false, not, Option, none, some, List, [], ◌∷◌, ◌==◌, string_eq,
  if◌then◌else◌,
}
use cqut_auth.Contracts.{Result, ok, err, Failure, error, ClientLifecycleStatus}
use cqut_auth.Dict
use cqut_auth.Dict.{Dict}
use cqut_auth.Artifacts.{
  Payload, ArtifactStore, OpportunisticCleanupOptions, Found, mapped, is_some, upsert_artifact,
  find_artifact, find_artifact_by_uid, find_artifact_by_user_code, destroy_artifact,
  consume_artifact, revoke_artifacts_by_grant_id,
}
use cqut_auth.Artifacts.Current.{authorization_state}
use cqut_auth.Clients.Records.{
  ClientStore, ClientType, ActiveOidcClientRecord, TokenEndpointAuthMethod,
}
use cqut_auth.Clients.Queries.{find_oidc_client}

abbrev pub Context : Type 0
Context = Option (Dict String ℕ)

unfoldable pub capture_authorization_generation : String → ℕ → Context → Context
capture_authorization_generation client_id generation none = none
capture_authorization_generation client_id generation (some m) =
    some (Dict.set client_id generation m)

unfoldable pub current_authorization_generation : String → Context → Option ℕ
current_authorization_generation client_id none = none
current_authorization_generation client_id (some m) = Dict.get client_id m

-- The metadata that the provider is given for a client; the secret is a placeholder.
pub record ProviderClientMetadata : Type 0 where
  pub client_id : String
  pub client_name : String
  pub application_type : String
  pub token_endpoint_auth_method : TokenEndpointAuthMethod
  pub redirect_uris : List String
  pub post_logout_redirect_uris : List String
  pub grant_types : List String
  pub response_types : List String
  pub scope : String
  pub allow_refresh_token_for_public_client : Bool
  pub client_secret_digests : List String
  pub require_pkce : Bool
  pub client_secret : Option String
  pub client_secret_expires_at : Option ℕ

-- `texts.join(" ")`
abbrev joined : List String → String
joined [] = ""
joined (x ∷ []) = x
joined (x ∷ xs) = str_append x (str_append " " (joined xs))

abbrev placeholder : ClientType → String → Option String
placeholder ClientType.web client_id = some (str_append "placeholder:" client_id)
placeholder ClientType.spa client_id = none

-- The placeholder does not expire.
abbrev expires_at : ClientType → Option ℕ
expires_at ClientType.web = some 0
expires_at ClientType.spa = none

abbrev pub provider_client_metadata : ActiveOidcClientRecord → ProviderClientMetadata
provider_client_metadata c = record {
  client_id = c.client.client_id;
  client_name = c.client.display_name;
  application_type = "web";
  token_endpoint_auth_method = c.token_endpoint_auth_method;
  redirect_uris = c.redirect_uris;
  post_logout_redirect_uris = c.post_logout_redirect_uris;
  grant_types = c.grant_types;
  response_types = c.response_types;
  scope = joined c.scope_whitelist;
  allow_refresh_token_for_public_client = c.allow_refresh_token_for_public_client;
  client_secret_digests = c.client_secret_digests;
  require_pkce = c.client.require_pkce;
  client_secret = placeholder c.client.client_type c.client.client_id;
  client_secret_expires_at = expires_at c.client.client_type;
}

-- What a lookup answers: a client's metadata, or an artifact without its internal keys.
pub data Model : Type 0 where
  client : ProviderClientMetadata → Model
  artifact : Found → Model

abbrev is_active : ClientLifecycleStatus → Bool
is_active ClientLifecycleStatus.active = true
is_active _ = false

abbrev pub artifact_id : String → String → String
artifact_id model id = str_append model (str_append ":" id)

-- `captureArtifactContext`: the internal keys go into the request's map and out of the answer.
unfoldable pub capture_artifact_context :
    Context → ArtifactStore × Option Found → Context × ArtifactStore × Option Found
capture_artifact_context ctx (s, none) = (ctx, s, none)
capture_artifact_context ctx (s, some f) = elim f.authorization [
  | none ↦ (ctx, s, some f)
  | some a ↦
      (capture_authorization_generation a.0 a.1 ctx, s, some (record f { authorization = none }))
]

abbrev answered : Context × ArtifactStore × Option Found → Context × ArtifactStore × Option Model
answered (ctx, s, f) = (ctx, s, mapped artifact f)

-- A lookup by uid answers an artifact only where its payload names the model.
abbrev of_model :
    String → Context × ArtifactStore × Option Found → Context × ArtifactStore × Option Found
of_model model (ctx, s, none) = (ctx, s, none)
of_model model (ctx, s, some f) = (ctx, s, (if is_some f.payload.kind model then some f else none))

abbrev pub destroy : String → String → ArtifactStore → ArtifactStore
destroy model id = destroy_artifact (artifact_id model id)

abbrev pub consume : String → String → ℕ → ArtifactStore → ArtifactStore × Bool
consume model id = consume_artifact (artifact_id model id)

module _ (hash : String → String) (options : OpportunisticCleanupOptions) where
  unfoldable pub upsert :
      String
      → ClientStore
      → Context
      → String
      → Payload
      → ℕ
      → Bool
      → ℕ
      → ArtifactStore
      → Result ArtifactStore
  upsert model clients ctx id payload expires_in sampled now s =
      if model == "Client"
      then err (error "Client adapter upsert is disabled in managed profile")
      else ok (
          upsert_artifact hash (authorization_state clients) options (artifact_id model id) model
            payload expires_in
            (elim payload.client_id [
              | none ↦ none
              | some c ↦ current_authorization_generation c ctx
            ])
            sampled now s)

  unfoldable pub find :
      String
      → ClientStore
      → Context
      → String
      → Bool
      → ℕ
      → ArtifactStore
      → Context × ArtifactStore × Option Model
  find model clients ctx id sampled now s =
      if model == "Client"
      then elim (find_oidc_client id now clients) [
        | none ↦ (ctx, s, none)
        | some c ↦
            if is_active c.client.lifecycle_status
            then (
              capture_authorization_generation c.client.client_id c.client.authorization_generation
                  ctx,
              s,
              some (client (provider_client_metadata c)),
            )
            else (ctx, s, none)
      ]
      else answered (
          capture_artifact_context ctx (
            find_artifact hash (authorization_state clients) options (artifact_id model id) sampled
              now s))

  unfoldable pub find_by_uid :
      String
      → ClientStore
      → Context
      → String
      → Bool
      → ℕ
      → ArtifactStore
      → Context × ArtifactStore × Option Found
  find_by_uid model clients ctx uid sampled now s = of_model model (
      capture_artifact_context ctx (
        find_artifact_by_uid hash (authorization_state clients) options uid (some model) sampled now
          s))

  unfoldable pub find_by_user_code :
      ClientStore
      → Context
      → String
      → Bool
      → ℕ
      → ArtifactStore
      → Context × ArtifactStore × Option Found
  find_by_user_code clients ctx user_code sampled now s = capture_artifact_context ctx (
      find_artifact_by_user_code hash (authorization_state clients) options user_code sampled now s)

  abbrev pub revoke_by_grant_id : ClientStore → String → ArtifactStore → ArtifactStore
  revoke_by_grant_id clients =
      revoke_artifacts_by_grant_id hash (authorization_state clients) options

-- ===== src/Ws/State.antt =====
-- auth/ws/state.rs: the channel state, its readiness tests and the recovery token; the credential
-- identity and authority are those of auth/balance.rs. The prefix `AuthenticatedUser` is dropped.
use rspm.Common.{
  ℕ, Bool, true, false, not, ◌&&◌, Option, none, some, List, ◌==◌, if◌then◌else◌, is_some, is_none,
  option_eq, ℕ_discrete,
}

pub data ConnectionState : Type 0 where
  disconnected connecting connected : ConnectionState

pub data AuthenticationState : Type 0 where
  inactive credentials_submitted : AuthenticationState

pub data SubscriptionState : Type 0 where
  inactive awaiting_server_proof server_responsive : SubscriptionState

pub data CounterExhaustion : Type 0 where
  generation liveness gap_version transport_sequence raw_frame_sequence durable_sequence :
      CounterExhaustion

-- The 32 bytes of the digest, read as one number.
abbrev pub CredentialIdentity : Type 0
CredentialIdentity = ℕ

pub record CredentialAuthority : Type 0 where
  pub identity : CredentialIdentity
  pub generation : ℕ

pub record WsState : Type 0 where
  pub credential_identity : CredentialIdentity
  pub connection : ConnectionState
  pub authentication : AuthenticationState
  pub subscription : SubscriptionState
  pub generation : ℕ
  pub liveness_version : ℕ
  pub gap_version : ℕ
  pub transport_sequence : ℕ
  pub enqueued_sequence : ℕ
  pub durable_sequence : ℕ
  pub raw_frame_sequence : ℕ
  pub pending_raw_frame_count : ℕ
  pub catch_up_generation : Option ℕ
  pub rest_proof_generation : Option ℕ
  pub rest_credential_authority : Option CredentialAuthority
  pub rest_proof_liveness_floor : Option ℕ
  pub schema_gap : Bool
  pub delivery_gap : Bool
  pub consumer_closed : Bool
  pub evidence_gap : Bool
  pub authority_poisoned : Bool
  pub counter_exhaustion : Option CounterExhaustion

pub record RecoveryToken : Type 0 where
  pub generation : ℕ
  pub gap_version : ℕ
  pub credential_identity : CredentialIdentity

pub record CatchUpFinalization : Type 0 where
  pub expected_state : WsState
  pub next_state : WsState
  pub expected_durable_out_of_order : List ℕ
  pub next_durable_out_of_order : List ℕ
  pub expected_dropped_ranges : List (ℕ × ℕ)
  pub next_dropped_ranges : List (ℕ × ℕ)

-- The derived `PartialEq` of the state, and of the lists that the finalization compares.
unfoldable pub WsState-discrete : Discrete WsState
unfolding ℕ_discrete
WsState-discrete = hlevel ℕ_discrete

unfoldable pub sequences-discrete : Discrete (List ℕ)
unfolding ℕ_discrete
sequences-discrete = hlevel ℕ_discrete

unfoldable pub ranges-discrete : Discrete (List (ℕ × ℕ))
unfolding ℕ_discrete
ranges-discrete = hlevel ℕ_discrete

-- `WsState::default()` with the identity of the credentials.
unfoldable pub initial_state : CredentialIdentity → WsState
initial_state identity = record {
  credential_identity = identity;
  connection = disconnected;
  authentication = AuthenticationState.inactive;
  subscription = SubscriptionState.inactive;
  generation = 0;
  liveness_version = 0;
  gap_version = 0;
  transport_sequence = 0;
  enqueued_sequence = 0;
  durable_sequence = 0;
  raw_frame_sequence = 0;
  pending_raw_frame_count = 0;
  catch_up_generation = none;
  rest_proof_generation = none;
  rest_credential_authority = none;
  rest_proof_liveness_floor = none;
  schema_gap = false;
  delivery_gap = false;
  consumer_closed = false;
  evidence_gap = false;
  authority_poisoned = false;
  counter_exhaustion = none;
}

abbrev pub is_connected : ConnectionState → Bool
is_connected connected = true
is_connected _ = false

abbrev pub is_submitted : AuthenticationState → Bool
is_submitted credentials_submitted = true
is_submitted _ = false

abbrev pub is_responsive : SubscriptionState → Bool
is_responsive server_responsive = true
is_responsive _ = false

-- `AwaitingServerProof | ServerResponsive`.
abbrev pub is_subscribed : SubscriptionState → Bool
is_subscribed awaiting_server_proof = true
is_subscribed server_responsive = true
is_subscribed _ = false

unfoldable pub channel_authority_intact : WsState → Bool
channel_authority_intact s =
    is_connected s.connection
    && is_submitted s.authentication
    && is_responsive s.subscription
    && not (s.generation == 0)
    && option_eq s.catch_up_generation (some s.generation)
    && is_some s.rest_credential_authority
    && not s.schema_gap
    && not s.delivery_gap
    && not s.consumer_closed
    && not s.evidence_gap
    && not s.authority_poisoned
    && is_none s.counter_exhaustion

unfoldable pub is_ready : WsState → Bool
unfolding channel_authority_intact
is_ready s =
    channel_authority_intact s
    && s.durable_sequence == s.transport_sequence
    && s.pending_raw_frame_count == 0

unfoldable pub recovery_identity : WsState → Option RecoveryToken
recovery_identity s =
    if is_connected s.connection
      && is_submitted s.authentication
      && is_subscribed s.subscription
      && not (s.generation == 0)
    then some (record {
      generation = s.generation;
      gap_version = s.gap_version;
      credential_identity = s.credential_identity;
    })
    else none

-- `recovery_identity` filtered by `ServerResponsive`.
unfoldable pub recovery_token : WsState → Option RecoveryToken
unfolding recovery_identity
recovery_token s = elim (recovery_identity s) [
  | none ↦ none
  | some token ↦ if is_responsive s.subscription then some token else none
]

-- `==` on tokens and authorities.
unfoldable pub token_eq : RecoveryToken → RecoveryToken → Bool
token_eq a b =
    a.generation == b.generation
    && a.gap_version == b.gap_version
    && a.credential_identity == b.credential_identity

unfoldable pub authority_eq : CredentialAuthority → CredentialAuthority → Bool
authority_eq a b = a.identity == b.identity && a.generation == b.generation

abbrev pub is_token : Option RecoveryToken → RecoveryToken → Bool
is_token none t = false
is_token (some u) t = token_eq u t

abbrev pub is_authority : Option CredentialAuthority → CredentialAuthority → Bool
is_authority none a = false
is_authority (some b) a = authority_eq b a

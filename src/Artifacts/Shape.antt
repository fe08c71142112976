-- ===== src/Artifacts/Shape.antt =====
-- The columns that the store keeps of a record, and its generation, for every record that the
-- calls put in.
use cqut_auth.Base.{
  given, String, Option, none, some, List, [], ◌∷◌, ◌≡◌, refl, ◌≢◌, All, inl, inr, string_eq,
  nat_eq,
}
use cqut_auth.Artifacts.{ClientAuthorizationState, OpportunisticCleanupOptions, mapped, empty}
use cqut_auth.Artifacts.Gate.{
  Call, upserted, looked_up, uid_looked_up, user_code_looked_up, destroyed, consumed, grant_revoked,
  client_revoked, code_submitted, gate_tried, run,
}
use cqut_auth.Artifacts.Lasting.{Entry, Admits, Lasting, run-All}

-- A record stands under its identifier, its columns are those of its payload, and it has a
-- generation if it belongs to a client.
pub record Shape (hash : String → String) (e : Entry) : Type 0 where
  pub own : e.1.id ≡ e.0
  pub client : e.1.client_id_hash ≡ mapped hash (given e.1.payload.client_id)
  pub grant : e.1.grant_id_hash ≡ mapped hash e.1.payload.grant_id
  pub uid : e.1.uid_hash ≡ mapped hash e.1.payload.uid
  pub user_code : e.1.user_code_hash ≡ mapped hash e.1.payload.user_code
  pub dated :
      (c : String) → given e.1.payload.client_id ≡ some c → e.1.authorization_generation ≢ none

pub Shape-Lasting : (hash : String → String) → Lasting hash (λ j. Unit) (Shape hash)
Shape-Lasting hash = record {
  keyed = λ e h. h.own;
  consuming = λ j x now h. record {
    own = h.own;
    client = h.client;
    grant = h.grant;
    uid = h.uid;
    user_code = h.user_code;
    dated = h.dated;
  };
  trying = λ j x payload c g u v h. record {
    own = h.own;
    client = cc (h.client, c);
    grant = cc (h.grant, g);
    uid = cc (h.uid, u);
    user_code = cc (h.user_code, v);
    dated = λ q e. h.dated q (cc (e, c));
  };
  storing = λ j kind p ttl g now s f known. record {
    own = refl;
    client = refl;
    grant = refl;
    uid = refl;
    user_code = refl;
    dated = λ q e none_of. elim known [ inl free ↦ cc | inr (n, is) ↦ cc ];
  };
  gating = λ uid ttl now f. record {
    own = refl;
    client = refl;
    grant = refl;
    uid = refl;
    user_code = refl;
    dated = λ q e. cc;
  };
}

Admits-all : (c : Call) → Admits (λ j. Unit) c
Admits-all (upserted j kind p ttl g sampled now) = tt
Admits-all (looked_up j sampled now) = tt
Admits-all (uid_looked_up uid kind sampled now) = tt
Admits-all (user_code_looked_up user_code sampled now) = tt
Admits-all (destroyed j) = tt
Admits-all (consumed j now) = tt
Admits-all (grant_revoked g) = tt
Admits-all (client_revoked c) = tt
Admits-all (code_submitted uid expected input now most clock) = tt
Admits-all (gate_tried uid ttl now) = tt

Admits-anywhere : (calls : List Call) → All (Admits (λ j. Unit)) calls
Admits-anywhere [] = tt
Admits-anywhere (c ∷ calls) = (Admits-all c, Admits-anywhere calls)

-- In the empty store and after every sequence of calls, each record stands under its own
-- identifier, its columns are the keyed hashes of its payload's fields, and it has a generation
-- if it belongs to a client.
pub run-Shape :
    (hash : String → String) (state_of : String → Option ClientAuthorizationState)
    (options : OpportunisticCleanupOptions) (calls : List Call)
    → All (Shape hash) (run hash state_of options calls empty).artifacts
run-Shape hash state_of options calls =
    run-All hash (λ j. Unit) (Shape hash) (Shape-Lasting hash) state_of options calls empty
      (Admits-anywhere calls) tt

-- ===== src/Clients/Disabling.antt =====
-- What disabling a client leaves of it: no secret, no open revision, no active record.
use cqut_auth.Base.{
  ℕ, String, true, false, none, some, List, [], ◌∷◌, ◌++◌, ◌≡◌, refl, ◌≢◌, arith, eq_iff, string_eq,
  nat_eq, Bool-cases, inl, inr, filter, sym, ◌∙◌,
}
use cqut_auth.Dict
use cqut_auth.Dict.{Dict, IsMap, values, Lacks}
use cqut_auth.Dict.Laws.{get-set, get-set_self, get-set_ne}
use cqut_auth.Dict.Listed.{listed, Keyed, listed_of_get, unlisted_of_get}
use cqut_auth.Clients.Records.{
  OidcClientRecord, OidcClientSecretRecord, OidcClientRevisionRecord, OidcClientAuditRecord,
  ClientStore, ManagedOidcClientRecord,
}
use cqut_auth.Clients.Queries.{
  is_active, is_open, usable_for, usable_memory_secrets, find_oidc_client, memory_managed,
}
use cqut_auth.Clients.Lifecycle.{
  disable, disable_locked, disabled_client, cancel_all, cancelled, revoke_all, open_for,
}
use cqut_auth.Clients.Keyed.{IsKeyed, RevisionKeys}

revoke_all_own :
    (c : String) (at now : ℕ) (m : Dict String OidcClientSecretRecord)
    → filter (usable_for c now) (values (revoke_all c at m)) ≡ []
unfolding revoke_all
revoke_all_own c at now [] = refl
revoke_all_own c at now ((k, x) ∷ m) = ground (arith, revoke_all_own c at now m)

revoke_all_other :
    (c q : String) (at now : ℕ) (m : Dict String OidcClientSecretRecord)
    → c ≢ q
    → filter (usable_for q now) (values (revoke_all c at m)) ≡ filter (usable_for q now) (values m)
unfolding revoke_all
revoke_all_other c q at now [] ne = refl
revoke_all_other c q at now ((k, x) ∷ m) ne =
    ground (arith, revoke_all_other c q at now m ne, eq_iff x.client_id c, eq_iff x.client_id q)

abbrev number : OidcClientRevisionRecord → ℕ
number r = r.revision_id

RevisionKeys-Keyed :
    (b : ℕ) (m : Dict ℕ OidcClientRevisionRecord) → RevisionKeys b m → Keyed number m
RevisionKeys-Keyed b [] k = tt
RevisionKeys-Keyed b (e ∷ m) (k, ks) = (k.0, RevisionKeys-Keyed b m ks)

get-cancel_all_missed :
    (at id : ℕ) (l : List OidcClientRevisionRecord) (m : Dict ℕ OidcClientRevisionRecord)
    → listed number id l ≡ false
    → Dict.get id (cancel_all at l m) ≡ Dict.get id m
unfolding cancel_all
get-cancel_all_missed at id [] m h = refl
get-cancel_all_missed at id (r ∷ rs) m h =
    get-cancel_all_missed at id rs _ (ground arith)
    ∙ get-set_ne r.revision_id id (cancelled at r) m (λ e. ground arith)

get-cancel_all-listed :
    (at id : ℕ) (l : List OidcClientRevisionRecord) (m : Dict ℕ OidcClientRevisionRecord)
    → listed number id l ≡ true
    → (r : OidcClientRevisionRecord) × (Dict.get id (cancel_all at l m) ≡ some (cancelled at r))
unfolding cancel_all
get-cancel_all-listed at id [] m h = cc
get-cancel_all-listed at id (r ∷ rs) m h = elim (Bool-cases (listed number id rs)) [
  | inl later ↦ get-cancel_all-listed at id rs (Dict.set r.revision_id (cancelled at r) m) later
  | inr never ↦ (
    r,
    get-cancel_all_missed at id rs _ never
        ∙ (ground (arith, get-set r.revision_id id (cancelled at r) m)),
  )
]

find_oidc_client_inactive :
    (q : String) (now : ℕ) (s : ClientStore) {c : OidcClientRecord}
    → Dict.get q s.clients ≡ some c
    → is_active c.lifecycle_status ≡ false
    → find_oidc_client q now s ≡ none
unfolding find_oidc_client memory_managed
find_oidc_client_inactive q now s e h = rw (e, memory_managed, find_oidc_client) (ground (arith, h))

-- What is left of a client `c` after it was disabled, and what is as it was before.
pub record Disabled (client_id : String) (at : ℕ) (c : OidcClientRecord) (s t : ClientStore)
    : Type 0 where
  pub client : Dict.get client_id t.clients ≡ some (disabled_client at c)
  pub no_secret : (now : ℕ) → usable_memory_secrets client_id now t ≡ []
  pub no_open :
      (id : ℕ) (r : OidcClientRevisionRecord)
      → Dict.get id t.revisions ≡ some r
      → r.client_id ≡ client_id
      → is_open r.status ≡ false
  pub not_found : (now : ℕ) → find_oidc_client client_id now t ≡ none
  pub revoked : t.revocations ≡ s.revocations ++ client_id ∷ []
  pub other_client : (q : String) → client_id ≢ q → Dict.get q t.clients ≡ Dict.get q s.clients
  pub other_secrets :
      (q : String) (now : ℕ)
      → client_id ≢ q
      → usable_memory_secrets q now t ≡ usable_memory_secrets q now s
  pub closed_revisions :
      (id : ℕ) (r : OidcClientRevisionRecord)
      → Dict.get id s.revisions ≡ some r
      → open_for client_id r ≡ false
      → Dict.get id t.revisions ≡ some r

module _ (client_id : String) (c : OidcClientRecord) (at : ℕ) (a : OidcClientAuditRecord)
    (l : List OidcClientAuditRecord) (s : ClientStore) (k : IsKeyed s) where
  no_open_revision :
      (id : ℕ) (r : OidcClientRevisionRecord)
      → Dict.get id (disable c client_id at a l s).revisions ≡ some r
      → r.client_id ≡ client_id
      → is_open r.status ≡ false
  unfolding disable
  no_open_revision id r e own =
      elim (Bool-cases (listed number id (filter (open_for client_id) (values s.revisions)))) [
        | inl hit ↦
            let (r', e') = get-cancel_all-listed at id _ s.revisions hit in ground (arith, e, e')
        | inr miss ↦
            let before = sym (get-cancel_all_missed at id _ s.revisions miss) ∙ e in
            elim (Bool-cases (open_for client_id r)) [
              | inl opened ↦ absurd (
                  cc (
                    miss,
                    listed_of_get number (open_for client_id) id r s.revisions
                        (RevisionKeys-Keyed _ s.revisions k.revision_keys) before opened,
                  ))
              | inr closed ↦ ground (arith, own, eq_iff r.client_id client_id)
            ]
      ]

  disable-Disabled : Disabled client_id at c s (disable c client_id at a l s)
  unfolding disable
  disable-Disabled = record {
    client = get-set_self client_id _ s.clients;
    no_secret = λ now. revoke_all_own client_id at now s.secrets;
    no_open = no_open_revision;
    not_found = λ now.
        find_oidc_client_inactive client_id now (disable c client_id at a l s)
          (get-set_self client_id (disabled_client at c) s.clients) refl;
    revoked = refl;
    other_client = λ q h. get-set_ne client_id q _ s.clients h;
    other_secrets = λ q now h. revoke_all_other client_id q at now s.secrets h;
    closed_revisions = λ id r e h.
        get-cancel_all_missed at id _ s.revisions (
          unlisted_of_get number (open_for client_id) id r s.revisions k.revisions_map
            (RevisionKeys-Keyed _ s.revisions k.revision_keys) e h)
        ∙ e;
  }

-- When a client is disabled, from then on it has no usable secret at any time, none of its
-- revisions is open, it is not found as an active client, and the revocation of its artifacts
-- has been asked for; its generation and version are the next ones. Other clients, their usable
-- secrets, and every revision that was not an open one of this client are as they were.
pub disable_locked-Disabled :
    (c : OidcClientRecord) (client_id : String) (v at : ℕ) (a : OidcClientAuditRecord)
    (l : List OidcClientAuditRecord) (s t : ClientStore) (m : ManagedOidcClientRecord)
    → IsKeyed s
    → disable_locked (some c) client_id v at a l s ≡ (t, some m)
    → Disabled client_id at c s t
unfolding disable_locked
disable_locked-Disabled c client_id v at a l s t m k e =
    let same : disable c client_id at a l s ≡ t = ground arith in
    rw same at (disable-Disabled client_id c at a l s k)

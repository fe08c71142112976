-- ===== src/Clients/Quota.antt =====
-- The limit on the clients of a project that are not disabled.
use cqut_auth.Base.{
  ◌+◌, ◌≤◌, String, Bool, not, ◌&&◌, ◌==◌, Option, some, List, ◌≡◌, arith, count, length-filter,
  Bool-cases, inl, inr, string_eq, ap,
}
use cqut_auth.Contracts.{ok, ProjectRecord}
use cqut_auth.Dict
use cqut_auth.Dict.{values}
use cqut_auth.Dict.Laws.{count-set-le}
use cqut_auth.Clients.Records.{
  OidcClientRecord, OidcClientSecretRecord, OidcClientRevisionRecord, OidcClientAuditRecord,
  ClientProjectLimits, ManagedOidcClientRecord, ClientStore,
}
use cqut_auth.Clients.Queries.{is_disabled, project_quota_exceeded, assign_revision_id}
use cqut_auth.Clients.Registration.{create_locked, quota_exceeded, insert_client, stored_client}
use cqut_auth.Clients.Keyed.{assign_revision_id_lem}

-- A client of a project that is not disabled.
abbrev pub counts_in : String → OidcClientRecord → Bool
counts_in project_id c = c.project_id == project_id && not (is_disabled c.lifecycle_status)

insert_client-counts_in :
    (q : String) (c : OidcClientRecord) (r : OidcClientRevisionRecord)
    (x : Option OidcClientSecretRecord) (l : List OidcClientAuditRecord) (subject : Option String)
    (s : ClientStore)
    → count (counts_in q) (values (insert_client c r x l subject s).clients)
      ≤ count (counts_in q) (values s.clients) + 1
unfolding insert_client
insert_client-counts_in q c r x l subject s =
    let (r', t) = assign_revision_id r s in
    let (below, grows, same) = assign_revision_id_lem r s in
    let same_count : count (counts_in q) (values t.clients)
        ≡ count (counts_in q) (values s.clients) =
      ap (λ (u : ClientStore). count (counts_in q) (values u.clients)) same in
    omega (arith, same_count, count-set-le (counts_in q) c.client_id (stored_client c r') t.clients)

-- After a client was registered under a limit, its project has no more clients that are not
-- disabled than that.
pub create_locked-counts_in :
    (c : OidcClientRecord) (r : OidcClientRevisionRecord) (x : Option OidcClientSecretRecord)
    (l : List OidcClientAuditRecord) (limits : ClientProjectLimits) (p : ProjectRecord)
    (s t : ClientStore) (m : ManagedOidcClientRecord)
    → create_locked c r x l (some limits) p s ≡ ok (t, some m)
    → count (counts_in c.project_id) (values t.clients) ≤ limits.max_non_disabled_clients
unfolding create_locked quota_exceeded project_quota_exceeded
create_locked-counts_in c r x l limits p s t m e =
    elim (Bool-cases (Dict.has c.client_id s.clients)) [
      | inl there ↦ absurd (ground (arith, e, there))
      | inr new ↦ elim (Bool-cases (quota_exceeded c (some limits) p s)) [
        | inl full ↦ absurd (ground (arith, e, new, full))
        | inr room ↦
            let t' = insert_client c r x l p.created_by_subject_id s in
            let same : t' ≡ t = ground (arith, e, new, room) in
            let before = length-filter (counts_in c.project_id) (values s.clients) in
            let bound : count (counts_in c.project_id) (values t'.clients)
                ≤ limits.max_non_disabled_clients =
              ground (
                arith,
                room,
                before,
                insert_client-counts_in c.project_id c r x l p.created_by_subject_id s,
              ) in
            rw same at bound
      ]
    ]

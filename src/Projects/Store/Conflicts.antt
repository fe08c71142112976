-- ===== src/Projects/Store/Conflicts.antt =====
-- Optimistic concurrency: of two mutations that expect one version of a project, one at most
-- commits.
use cqut_auth.Base.{ℕ, String, Bool, some, List, ◌≡◌, ◌≢◌, arith, string_eq, nat_eq, nat_beq_iff}
use cqut_auth.Contracts.{ProjectRecord, ProjectAuditRecord, ProjectMutationResult}
use cqut_auth.Dict
use cqut_auth.Projects.Store.{ProjectStore}
use cqut_auth.Projects.Store.Mutations.{
  mutate_project, MutationStatus, update_project, add_project_member, update_project_member_role,
  remove_project_member, transfer_project_ownership,
}
use cqut_auth.Projects.Store.History.{Mutation, update, add, change_role, remove, transfer, perform}
use cqut_auth.Projects.Store.Commits.{Commit, target, expected, records, perform-Outcome}

mutate_project_stale :
    (p : String) (v : ℕ) (l : List ProjectAuditRecord) (s : ProjectStore)
    (f : ProjectStore → ProjectStore × MutationStatus) {r : ProjectRecord}
    → Dict.get p s.projects ≡ some r
    → r.version ≢ v
    → mutate_project p v l f s ≡ (s, ProjectMutationResult.version_conflict)
unfolding mutate_project
mutate_project_stale p v l s f {r} e ne =
    rw (e, mutate_project) (ground (arith, ne, nat_beq_iff r.version v))

perform_stale :
    (active : String → Bool) (m : Mutation) (s : ProjectStore) {r : ProjectRecord}
    → Dict.get (target m) s.projects ≡ some r
    → r.version ≢ expected m
    → perform active m s ≡ (s, ProjectMutationResult.version_conflict)
unfolding perform update_project add_project_member update_project_member_role remove_project_member
    transfer_project_ownership
perform_stale active (update p v patch a) s e ne = mutate_project_stale p v _ s _ e ne
perform_stale active (add m v a) s e ne = mutate_project_stale m.project_id v _ s _ e ne
perform_stale active (change_role p u role v at a) s e ne = mutate_project_stale p v _ s _ e ne
perform_stale active (remove p u v at a) s e ne = mutate_project_stale p v _ s _ e ne
perform_stale active (transfer p u w v at l) s e ne = mutate_project_stale p v _ s _ e ne

-- Once a mutation has committed, every other mutation of that project that expects the same
-- version, of whatever kind, is answered by a version conflict and changes nothing.
pub perform_conflict :
    (active : String → Bool) (m n : Mutation) (s t : ProjectStore) (r : ProjectRecord)
    → perform active m s ≡ (t, ProjectMutationResult.updated r)
    → target n ≡ target m
    → expected n ≡ expected m
    → perform active n t ≡ (t, ProjectMutationResult.version_conflict)
perform_conflict active m n s t r done same_target same_version =
    let k : Commit (target m) (expected m) (records m) s t r =
      rw done at (perform-Outcome active m s) in
    perform_stale active n t {r = r} (rw same_target k.result)
      (rw same_version (λ e. absurd (omega (arith, e, k.version))))

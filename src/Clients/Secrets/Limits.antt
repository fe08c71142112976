-- ===== src/Clients/Secrets/Limits.antt =====
-- A rotation leaves a client two usable secrets at most, and no client two active ones.
use cqut_auth.Base.{
  ℕ, ◌≤◌, String, Bool, true, false, ◌&&◌, Option, none, some, List, [], ◌∷◌, ◌≡◌, refl, arith,
  eq_iff, string_eq, nat_eq, Option-cases, inl, inr, ◌==◌, count, filter, find, length-filter, ◌∙◌,
}
use cqut_auth.Contracts.{ClientSecretStatus}
use cqut_auth.Dict
use cqut_auth.Dict.{Dict, values, IsMap}
use cqut_auth.Dict.Laws.{
  get-set, get-set_self, get-delete, set-IsMap, set-All, count-set_old, count-set_new,
  count-delete-le,
}
use cqut_auth.Dict.Listed.{listed, Keyed, get_of_find, unlisted_of_get, unlisted-drop-sort_desc}
use cqut_auth.Clients.Records.{
  OidcClientRecord, OidcClientSecretRecord, OidcClientAuditRecord, ClientStore,
  ManagedOidcClientRecord, ClientSecurityMutationResult,
}
use cqut_auth.Clients.Keyed.{IsKeyed}
use cqut_auth.Clients.Queries.{is_current, usable_for, usable_memory_secrets}
use cqut_auth.Clients.Secrets.{
  rotate, rotate_locked, retire_active, retired, delete_all, prune_terminal, is_terminal,
  kept_terminal,
}

abbrev pub active_for : String → OidcClientSecretRecord → Bool
active_for client_id x = x.client_id == client_id && is_current x.status

abbrev name : OidcClientSecretRecord → String
name x = x.secret_id

count-delete_all-le :
    (p : OidcClientSecretRecord → Bool) (l : List OidcClientSecretRecord)
    (m : Dict String OidcClientSecretRecord)
    → count p (values (delete_all l m)) ≤ count p (values m)
unfolding delete_all
count-delete_all-le p [] m = omega arith
count-delete_all-le p (x ∷ l) m =
    omega
      (arith, count-delete_all-le p l (Dict.delete x.secret_id m), count-delete-le p x.secret_id m)

get-delete_all :
    (id : String) (l : List OidcClientSecretRecord) (m : Dict String OidcClientSecretRecord)
    → listed name id l ≡ false
    → Dict.get id (delete_all l m) ≡ Dict.get id m
unfolding delete_all
get-delete_all id [] m h = refl
get-delete_all id (x ∷ l) m h =
    ground (arith, get-delete_all id l (Dict.delete x.secret_id m), get-delete x.secret_id id m)

find-filter :
    (p q : OidcClientSecretRecord → Bool) (l : List OidcClientSecretRecord)
    → find p (filter q l) ≡ find (λ x. q x && p x) l
find-filter p q [] = refl
find-filter p q (x ∷ l) = ground (arith, find-filter p q l)

count_of_find :
    (p q : OidcClientSecretRecord → Bool) (l : List OidcClientSecretRecord)
    → ((x : OidcClientSecretRecord) → q x ≡ true → p x ≡ true)
    → find p l ≡ none
    → count q l ≡ 0
count_of_find p q [] h e = refl
count_of_find p q (x ∷ l) h e = ground (arith, h x, count_of_find p q l h)

-- What holds of the secrets after a rotation that put `x` in.
pub record Rotated (client_id : String) (x : OidcClientSecretRecord)
    (m : Dict String OidcClientSecretRecord) : Type 0 where
  pub usable : count (usable_for client_id x.created_at) (values m) ≤ 2
  pub one_active : (q : String) → count (active_for q) (values m) ≤ 1
  pub present : Dict.get x.secret_id m ≡ some x

module _ (client_id : String) (x : OidcClientSecretRecord) (own : x.client_id ≡ client_id)
    (current : x.status ≡ ClientSecretStatus.active) (s : ClientStore) (is_map : IsMap s.secrets)
    (keyed : Keyed name s.secrets) (fresh : Dict.get x.secret_id s.secrets ≡ none)
    (few : count (usable_for client_id x.created_at) (values s.secrets) ≤ 1)
    (one : (q : String) → count (active_for q) (values s.secrets) ≤ 1) where
  -- Adding the new secret to secrets of which none of the client is active.
  added :
      (m : Dict String OidcClientSecretRecord)
      → Dict.get x.secret_id m ≡ none
      → count (usable_for client_id x.created_at) (values m) ≤ 1
      → count (active_for client_id) (values m) ≡ 0
      → ((q : String) → count (active_for q) (values m) ≤ 1)
      → Rotated client_id x (Dict.set x.secret_id x m)
  added m new u a h = record {
    usable = ground (arith, count-set_new (usable_for client_id x.created_at) x.secret_id x m new);
    one_active = λ q. ground (
      arith,
      own,
      h q,
      a,
      eq_iff x.client_id q,
      count-set_new (active_for q) x.secret_id x m new,
    );
    present = get-set_self x.secret_id x m;
  }

  retired-Rotated :
      (grace : ℕ) (a : OidcClientAuditRecord)
      → Rotated client_id x (
          Dict.set x.secret_id x
            (retire_active grace x.created_at a
              (find (λ y. is_current y.status) (usable_memory_secrets client_id x.created_at s))
              s).secrets)
  unfolding retire_active
  retired-Rotated grace a =
      let same =
        find-filter (λ y. is_current y.status) (usable_for client_id x.created_at)
          (values s.secrets) in
      elim (Option-cases (
        find (λ y. usable_for client_id x.created_at y && is_current y.status)
          (values s.secrets))) [
            | inl missing ↦
                rw (same, missing)
                  (added s.secrets fresh few
                    (count_of_find _ (active_for client_id) (values s.secrets) (λ y h. ground arith)
                      missing)
                    one)
            | inr (y, found) ↦
                let (e, h) = get_of_find name _ s.secrets y is_map keyed found in
                rw (same, found)
                  (added (Dict.set y.secret_id (retired grace x.created_at y) s.secrets)
                    (ground (
                      arith,
                      fresh,
                      e,
                      eq_iff y.secret_id x.secret_id,
                      get-set y.secret_id x.secret_id (retired grace x.created_at y) s.secrets,
                    ))
                    (ground (
                      arith,
                      h,
                      few,
                      count-set_old (usable_for client_id x.created_at) y.secret_id
                          (retired grace x.created_at y) y s.secrets e,
                    ))
                    (ground (
                      arith,
                      h,
                      one client_id,
                      count-set_old (active_for client_id) y.secret_id
                          (retired grace x.created_at y) y s.secrets e,
                    ))
                    (λ q. ground (
                      arith,
                      h,
                      one q,
                      count-set_old (active_for q) y.secret_id (retired grace x.created_at y) y
                          s.secrets e,
                    )))
          ]

retire_active-IsMap :
    (grace now : ℕ) (a : OidcClientAuditRecord) (y : Option OidcClientSecretRecord)
    (s : ClientStore)
    → IsMap s.secrets
    → Keyed name s.secrets
    → IsMap (retire_active grace now a y s).secrets
      × Keyed name (retire_active grace now a y s).secrets
unfolding retire_active
retire_active-IsMap grace now a none s u k = (u, k)
retire_active-IsMap grace now a (some y) s u k =
    (set-IsMap y.secret_id _ s.secrets u, set-All _ y.secret_id _ s.secrets refl k)

-- Pruning deletes no usable secret of the count's and not the new one.
prune_terminal-Rotated :
    (client_id : String) (x : OidcClientSecretRecord) (m : Dict String OidcClientSecretRecord)
    → x.status ≡ ClientSecretStatus.active
    → IsMap m
    → Keyed name m
    → Rotated client_id x m
    → Rotated client_id x (prune_terminal client_id x.created_at m)
unfolding prune_terminal
prune_terminal-Rotated client_id x m current u k r = record {
  usable = omega (arith, r.usable, count-delete_all-le (usable_for client_id x.created_at) _ m);
  one_active = λ q. omega (arith, r.one_active q, count-delete_all-le (active_for q) _ m);
  present =
      get-delete_all x.secret_id _ m (
        unlisted-drop-sort_desc name _ kept_terminal x.secret_id _ (
          unlisted_of_get name (is_terminal client_id x.created_at) x.secret_id x m u k r.present
            (ground (arith, current))))
      ∙ r.present;
}

-- If every record stands under its own key and no client has more than one active secret, then
-- after an admitted rotation with a fresh active secret of the client the new secret is stored, the
-- client has at most two usable secrets, and still no client has more than one active secret.
pub rotate_locked-Rotated :
    (c : OidcClientRecord) (client_id : String) (x : OidcClientSecretRecord) (v grace interval : ℕ)
    (a : OidcClientAuditRecord) (s t : ClientStore) (m : ManagedOidcClientRecord)
    → IsKeyed s
    → ((q : String) → count (active_for q) (values s.secrets) ≤ 1)
    → x.client_id ≡ client_id
    → x.status ≡ ClientSecretStatus.active
    → Dict.get x.secret_id s.secrets ≡ none
    → rotate_locked (some c) client_id x v grace interval a s
      ≡ (t, ClientSecurityMutationResult.updated m (some x))
    → Rotated client_id x t.secrets
unfolding rotate_locked rotate
rotate_locked-Rotated c client_id x v grace interval a s t m k one own current fresh e =
    let few : count (usable_for client_id x.created_at) (values s.secrets) ≤ 1 =
      ground (arith, length-filter (usable_for client_id x.created_at) (values s.secrets)) in
    let y = find (λ y. is_current y.status) (usable_memory_secrets client_id x.created_at s) in
    let (u, keyed) = retire_active-IsMap grace x.created_at a y s k.secrets_map k.secret_keys in
    let same : (rotate c client_id x grace a s).secrets ≡ t.secrets = ground arith in
    rw same at (
      prune_terminal-Rotated client_id x _ current (set-IsMap x.secret_id x _ u)
        (set-All _ x.secret_id x _ refl keyed)
        (retired-Rotated client_id x own current s k.secrets_map k.secret_keys fresh few one grace
          a))

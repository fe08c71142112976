-- ===== src/UriCache.antt =====
-- ClientRedirectUriCache of oidc/client-redirect-uri-cache.ts: the redirect URIs of the clients,
-- kept for five seconds. `get` waits for a listing of the client store, so its parts are steps of
-- their own, between which others come: a caller begins to wait, a caller's listing settles, and
-- a caller is served. Listings are numbered as they are started; what each answers is an
-- argument.
pub mod Fresh
mod Tests
use cqut_auth.Base.{
  ℕ, ◌+◌, zero, suc, String, Bool, true, false, Option, none, some, List, [], ◌∷◌, ltb, ◌==◌,
  nat_eq, if◌then◌else◌,
}

-- `pending`: the generation that a listing was started in, and the listing's number.
pub record Pending : Type 0 where
  pub generation : ℕ
  pub promise : ℕ

-- `waiting` are the callers that wait, each with the generation that it saw and its listing;
-- `started` counts the listings.
pub record Cache : Type 0 where
  pub uris : List String
  pub expires_at : ℕ
  pub generation : ℕ
  pub pending : Option Pending
  pub waiting : List Pending
  pub started : ℕ

abbrev pub empty : Cache
empty = record {
  uris = [];
  expires_at = 0;
  generation = 0;
  pending = none;
  waiting = [];
  started = 0;
}

unfoldable pub invalidate : Cache → Cache
invalidate s = record s { expires_at = 0; generation = s.generation + 1 }

-- The listing that a caller waits for: the pending one of this generation, or a new one.
abbrev joined : Cache → Cache × Pending
joined s =
    let new : Pending = record { generation = s.generation; promise = s.started } in
    elim s.pending [
      | none ↦ (record s { pending = some new; started = s.started + 1 }, new)
      | some p ↦
          if p.generation == s.generation
          then (s, p)
          else (record s { pending = some new; started = s.started + 1 }, new)
    ]

-- A caller finds the cache out of date, and waits.
unfoldable pub begin : ℕ → Cache → Cache
begin now s =
    if ltb now s.expires_at
    then s
    else (let r = joined s in record r.0 { waiting = r.1 ∷ r.0.waiting })

abbrev pub nth : ℕ → List Pending → Option Pending
nth n [] = none
nth zero (w ∷ ws) = some w
nth (suc n) (w ∷ ws) = nth n ws

abbrev pub without : ℕ → List Pending → List Pending
without n [] = []
without zero (w ∷ ws) = ws
without (suc n) (w ∷ ws) = w ∷ without n ws

-- `finally`: the listing is no longer pending.
abbrev cleared : Pending → Option Pending → Option Pending
cleared w none = none
cleared w (some p) = if p.promise == w.promise then none else some p

module _ (listing : ℕ → List String) where
  -- The listing of the caller at a place has settled, with an answer or a failure. The answer
  -- is kept only in the generation that the caller saw when it began.
  unfoldable pub settle : ℕ → Bool → ℕ → Cache → Cache
  settle place answered now s = elim (nth place s.waiting) [
    | none ↦ s
    | some w ↦
        let t = record s { waiting = without place s.waiting; pending = cleared w s.pending } in
        if answered
        then (if w.generation == s.generation
            then record t { uris = listing w.promise; expires_at = now + 5000 }
            else t)
        else t
  ]

-- The URIs that a caller is given, where they are not out of date.
unfoldable pub serve : ℕ → Cache → Option (List String)
serve now s = if ltb now s.expires_at then some s.uris else none

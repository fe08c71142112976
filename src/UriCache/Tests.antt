-- ===== src/UriCache/Tests.antt =====
-- A listing that is overtaken by a change of the clients.
use cqut_auth.Base.{
  ℕ, ◌==◌, ◌≤◌, String, true, false, none, List, [], ◌∷◌, ◌≡◌, refl, nat_eq, if◌then◌else◌,
}
use cqut_auth.UriCache.{empty, invalidate, begin, settle, serve}
use cqut_auth.UriCache.Fresh.{Event, began, settled, step, run, serve-listed}

caches : Unit {0}
unfolding invalidate begin settle serve step run
caches = tt

-- The first listing misses the new client's address.
abbrev listing : ℕ → List String
listing k = if k == 0 then ("https://till" ∷ []) else ("https://till" ∷ "https://desk" ∷ [])

abbrev before : List Event
before = (began 10 ∷ [])

-- The caller of the old listing is first in the end, and begins again.
abbrev after : List Event
after = (began 11 ∷ settled 1 true 12 ∷ began 12 ∷ settled 1 true 20 ∷ settled 0 true 20 ∷ [])

overtaken :
    serve 13
      (run listing (began 11 ∷ settled 1 true 12 ∷ []) (invalidate (run listing before empty)))
    ≡ none
unfolding invalidate begin settle serve step run
overtaken = refl

shared : (run listing after (invalidate (run listing before empty))).started ≡ 2
unfolding invalidate begin settle serve step run
shared = refl

failed : serve 13 (run listing (began 10 ∷ settled 0 false 12 ∷ []) empty) ≡ none
unfolding invalidate begin settle serve step run
failed = refl

serve-listed_example :
    (k : ℕ) × (("https://till" ∷ "https://desk" ∷ []) ≡ listing k)
    × ((invalidate (run listing before empty)).started ≤ k)
unfolding invalidate begin settle serve step run
serve-listed_example =
    serve-listed listing before after 21 ("https://till" ∷ "https://desk" ∷ []) refl

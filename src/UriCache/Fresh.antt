-- ===== src/UriCache/Fresh.antt =====
-- What is served was listed after the last invalidation.
use cqut_auth.Base.{
  subst, ℕ, zero, suc, ◌+◌, ◌≤◌, String, Bool, Option, none, some, List, [], ◌∷◌, ◌≡◌, refl, All,
  Option-cases, Bool-cases, inl, inr, arith, nat_eq, nat_beq_iff, ltb, ◌==◌,
}
use cqut_auth.UriCache.{
  Pending, Cache, empty, invalidate, begin, settle, serve, nth, without, cleared,
}

-- What befalls the cache.
pub data Event : Type 0 where
  invalidated : Event
  began : ℕ → Event
  settled : ℕ → Bool → ℕ → Event

module _ {ℓ} (P : Pending → Type ℓ) where
  nth-All : (n : ℕ) (ws : List Pending) (w : Pending) → All P ws → nth n ws ≡ some w → P w
  nth-All n [] w h e = cc
  nth-All zero (v ∷ ws) w (p, h) e = subst P (ground (arith, e)) p
  nth-All (suc n) (v ∷ ws) w (p, h) e = nth-All n ws w h e

  without-All : (n : ℕ) (ws : List Pending) → All P ws → All P (without n ws)
  without-All n [] h = tt
  without-All zero (w ∷ ws) (p, h) = h
  without-All (suc n) (w ∷ ws) (p, h) = (p, without-All n ws h)

  abbrev Known : Option Pending → Type ℓ
  Known none = Unit
  Known (some p) = P p

  cleared-Known : (w : Pending) (o : Option Pending) → Known o → Known (cleared w o)
  cleared-Known w none h = tt
  cleared-Known w (some p) h = elim (Bool-cases (p.promise == w.promise)) [
    | inl same ↦ rw same tt
    | inr other ↦ rw other h
  ]

widen {ℓ κ} :
    {P : Pending → Type ℓ} {Q : Pending → Type κ} (ws : List Pending)
    → ((w : Pending) → P w → Q w)
    → All P ws
    → All Q ws
widen [] f h = tt
widen (w ∷ ws) f (p, h) = (f w p, widen ws f h)

widen-Known {ℓ κ} :
    {P : Pending → Type ℓ} {Q : Pending → Type κ} (o : Option Pending)
    → ((w : Pending) → P w → Q w)
    → Known P o
    → Known Q o
widen-Known none f h = tt
widen-Known (some p) f h = f p h

module _ (listing : ℕ → List String) where
  unfoldable pub step : Event → Cache → Cache
  step invalidated s = invalidate s
  step (began now) s = begin now s
  step (settled place answered now) s = settle listing place answered now s

  unfoldable pub run : List Event → Cache → Cache
  run [] s = s
  run (e ∷ es) s = run es (step e s)

  module _ (mark since : ℕ) where
    -- No later than the generation, and numbered from `mark` on if of `since` or later.
    abbrev Fits : ℕ → Pending → Type 0
    Fits generation p = (p.generation ≤ generation) × (since ≤ p.generation → mark ≤ p.promise)

    -- The invariant from the invalidation on that began generation `since`, when `mark` listings
    -- had been started.
    record Fresh (s : Cache) : Type 0 where
      later : since ≤ s.generation
      marked : mark ≤ s.started
      pending : Known (Fits s.generation) s.pending
      waiting : All (Fits s.generation) s.waiting
      listed : 1 ≤ s.expires_at → (k : ℕ) × (s.uris ≡ listing k) × (mark ≤ k)

    invalidate-Fresh : (s : Cache) → Fresh s → Fresh (invalidate s)
    unfolding invalidate
    invalidate-Fresh s f = record {
      later = omega (arith, f.later);
      marked = f.marked;
      pending = widen-Known s.pending (λ w (low, high). (omega (arith, low), high)) f.pending;
      waiting = widen s.waiting (λ w (low, high). (omega (arith, low), high)) f.waiting;
      listed = λ fresh. absurd (omega (arith, fresh));
    }

    started-Fresh :
        (s : Cache)
        → Fresh s
        → let new : Pending = record { generation = s.generation; promise = s.started } in
          Fresh
            (record s { pending = some new; started = s.started + 1; waiting = new ∷ s.waiting })
    started-Fresh s f = record {
      later = f.later;
      marked = omega (arith, f.marked);
      pending = (omega arith, λ h. f.marked);
      waiting = ((omega arith, λ h. f.marked), f.waiting);
      listed = f.listed;
    }

    begin-Fresh : (now : ℕ) (s : Cache) → Fresh s → Fresh (begin now s)
    unfolding begin
    begin-Fresh now s f = elim (Bool-cases (ltb now s.expires_at)) [
      | inl recent ↦ rw (begin, recent) f
      | inr old ↦ elim (Option-cases s.pending) [
        | inl idle ↦ rw (begin, old, idle) (started-Fresh s f)
        | inr (p, busy) ↦ elim (Bool-cases (p.generation == s.generation)) [
          | inr stale ↦ rw (begin, old, busy, stale) (started-Fresh s f)
          | inl same ↦
              rw (begin, old, busy, same)
                (record {
                  later = f.later;
                  marked = f.marked;
                  pending = subst (Known (Fits s.generation)) busy f.pending;
                  waiting = (subst (Known (Fits s.generation)) busy f.pending, f.waiting);
                  listed = f.listed;
                })
        ]
      ]
    ]

    settle-Fresh :
        (place : ℕ) (answered : Bool) (now : ℕ) (s : Cache)
        → Fresh s
        → Fresh (settle listing place answered now s)
    unfolding settle
    settle-Fresh place answered now s f = elim (Option-cases (nth place s.waiting)) [
      | inl nobody ↦ rw (settle, nobody) f
      | inr (w, there) ↦
          let fits = nth-All (Fits s.generation) place s.waiting w f.waiting there in
          let over : Fresh
              (record s { waiting = without place s.waiting; pending = cleared w s.pending }) =
            record {
              later = f.later;
              marked = f.marked;
              pending = cleared-Known (Fits s.generation) w s.pending f.pending;
              waiting = without-All (Fits s.generation) place s.waiting f.waiting;
              listed = f.listed;
            } in
          elim (Bool-cases answered) [
            | inr failed ↦ rw (settle, there, failed) over
            | inl fine ↦ elim (Bool-cases (w.generation == s.generation)) [
              | inr stale ↦ rw (settle, there, fine, stale) over
              | inl same ↦
                  rw (settle, there, fine, same)
                    (record {
                      later = f.later;
                      marked = f.marked;
                      pending = over.pending;
                      waiting = over.waiting;
                      listed = λ fresh. (
                        w.promise,
                        refl,
                        fits.1 (
                            omega (arith, f.later, (nat_beq_iff w.generation s.generation).0 same)),
                      );
                    })
            ]
          ]
    ]

    step-Fresh : (e : Event) (s : Cache) → Fresh s → Fresh (step e s)
    unfolding step
    step-Fresh invalidated s f = invalidate-Fresh s f
    step-Fresh (began now) s f = begin-Fresh now s f
    step-Fresh (settled place answered now) s f = settle-Fresh place answered now s f

    run-Fresh : (es : List Event) (s : Cache) → Fresh s → Fresh (run es s)
    unfolding run
    run-Fresh [] s f = f
    run-Fresh (e ∷ es) s f = run-Fresh es (step e s) (step-Fresh e s f)

-- Whatever befell the cache before an invalidation and after it, and in whatever order the
-- listings settle, the URIs that are served afterwards are the answer of a listing that was
-- started after that invalidation.
pub serve-listed :
    (listing : ℕ → List String) (before after : List Event) (now : ℕ) (uris : List String)
    → let s = invalidate (run listing before empty) in
      serve now (run listing after s) ≡ some uris → (k : ℕ) × (uris ≡ listing k) × (s.started ≤ k)
unfolding invalidate serve
serve-listed listing before after now uris served =
    let r = run listing before empty in
    let early : Fresh listing 0 0 r = run-Fresh listing 0 0 before empty (record {
      later = omega arith;
      marked = omega arith;
      pending = tt;
      waiting = tt;
      listed = λ fresh. absurd (omega (arith, fresh));
    }) in
    let u = run listing after (invalidate r) in
    let f : Fresh listing r.started (r.generation + 1) u =
      run-Fresh listing r.started (r.generation + 1) after (invalidate r) (record {
        later = omega arith;
        marked = omega arith;
        pending =
            widen-Known r.pending
              (λ w (low, high). (omega (arith, low), λ h. absurd (omega (arith, h, low))))
              early.pending;
        waiting =
            widen r.waiting
              (λ w (low, high). (omega (arith, low), λ h. absurd (omega (arith, h, low))))
              early.waiting;
        listed = λ fresh. absurd (omega (arith, fresh));
      }) in
    let (k, same, late) = f.listed (ground (arith, served)) in
    (k, ground (arith, served, same), late)

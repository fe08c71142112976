-- ===== src/Artifacts/Cleanup.antt =====
-- The opportunistic cleanup leaves the store as it is, or without its expired records.
use cqut_auth.Base.{ℕ, ◌+◌, ◌*◌, Bool, not, ◌||◌, ltb, filter, Bool-cases, inl, inr, nat_eq}
use cqut_auth.Artifacts.{ArtifactStore, OpportunisticCleanupOptions, has_expired, maybe_cleanup}

-- The store without the records that have expired.
abbrev pub swept : ℕ → ArtifactStore → ArtifactStore
swept now s = record {
  artifacts = filter (λ e. not (has_expired now e.1)) s.artifacts;
  last_cleanup_at = now;
}

-- What holds of the store, and of the store without its expired records, holds after the cleanup.
pub maybe_cleanup_elim {ℓ} :
    (Q : ArtifactStore → Type ℓ) (options : OpportunisticCleanupOptions) (sampled : Bool) (now : ℕ)
    (s : ArtifactStore)
    → Q s
    → Q (swept now s)
    → Q (maybe_cleanup options sampled now s)
unfolding maybe_cleanup
maybe_cleanup_elim Q options sampled now s skipped due =
    elim (Bool-cases (
      not options.enabled
      || not sampled
      || ltb now (s.last_cleanup_at + options.min_interval_seconds * 1000))) [
        | inl skips ↦ rw (skips, maybe_cleanup) skipped
        | inr sweeps ↦ rw (sweeps, maybe_cleanup) due
      ]

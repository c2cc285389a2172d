-- ===== src/World/AtMostOnce.antt =====
-- A key's write is executed at most once, and a stored status tells the truth of it.
use mathlib.Core.Option
use mathlib.Core.Path.{subst}
use idemio.Prelude.{Bool, false, ℕ, ◌≤◌, String, List, ◌≡◌, ◌≢◌, some, refl, ap}
use idemio.Api.Execute.{status_for, completion_of}
use idemio.Claim.{Status}
use idemio.Downstream.{execute}
use idemio.Tables.{KeyRow}
use idemio.Tables.Laws.{status_of, IsUnique}
use idemio.World.{
  Worker, World, counted_status, Step, claims, calls, departs, lands, persists, leaves, takes_turns,
  probes, escalates, elsewhere, IsCalm, Reach, start, next, AllCalm,
}
use idemio.World.Invariant.{Admits, Fits, at_most, count-Admits}
use idemio.World.Steps.{
  claim-IsUnique, claim_own, complete-Fits, complete-IsUnique, call-Fits, turned, idle, depart-Fits,
  land-Fits, probe-Fits,
}

module _ (agent key : String) where
  module _ (whole : Bool) where
    -- the invariant
    abbrev Sound : World → Type 0
    Sound w = IsUnique w.db × Fits whole (status_of agent key w.db) w.executed w.workers

    step-Sound :
        (w w' : World) (s : Step agent key w w') → IsCalm agent key whole s → Sound w → Sound w'
    unfolding completion_of
    step-Sound _ _ (claims v req w is_agent is_own) calm (u, fits) = (
      claim-IsUnique whole agent key v req w.db u,
      claim_own whole agent key v req w.db w.executed w.workers is_agent is_own fits,
    )
    step-Sound _ _ (calls wire c ran p rest w busy) calm (u, fits) = (
      u,
      call-Fits whole agent key wire c ran (status_of agent key w.db) w.executed rest
          (completion_of (status_for (execute wire c).disposition) p (execute wire c).detail) calm
          refl (subst (Fits whole (status_of agent key w.db) w.executed) busy fits),
    )
    step-Sound _ _ (departs rest w busy) calm (u, fits) = (
      u,
      depart-Fits whole agent key (status_of agent key w.db) w.executed rest
          (subst (Fits whole (status_of agent key w.db) w.executed) busy fits),
    )
    step-Sound _ _ (lands rest w busy) calm (u, fits) = (
      u,
      land-Fits whole agent key (status_of agent key w.db) w.executed rest
          (subst (Fits whole (status_of agent key w.db) w.executed) busy fits),
    )
    step-Sound _ _ (persists v c rest w busy) calm (u, fits) = (
      complete-IsUnique whole agent key v c w.db u,
      complete-Fits whole agent key v c rest w.db w.executed u calm
          (subst (Fits whole (status_of agent key w.db) w.executed) busy fits),
    )
    step-Sound _ _ (leaves x rest w busy) calm (u, fits) = (
      u,
      idle whole agent key (status_of agent key w.db) w.executed x rest
          (subst (Fits whole (status_of agent key w.db) w.executed) busy fits),
    )
    step-Sound _ _ (takes_turns x rest w busy) calm (u, fits) = (
      u,
      turned whole agent key (status_of agent key w.db) w.executed x rest
          (subst (Fits whole (status_of agent key w.db) w.executed) busy fits),
    )
    step-Sound _ _ (probes p detail w pending) calm (u, fits) = (
      u,
      probe-Fits whole agent key (status_of agent key w.db) w.executed w.workers
          (completion_of (counted_status w.executed) p detail) pending calm
          (count-Admits whole w.executed) fits,
    )
    step-Sound _ _ (escalates p detail w pending) calm (u, fits) = (
      u,
      probe-Fits whole agent key (status_of agent key w.db) w.executed w.workers
          (completion_of Status.indeterminate p detail) pending calm (λ few. few) fits,
    )
    step-Sound _ _ (elsewhere db w same unique) calm (u, fits) =
        (unique, rw (ap (Option.map (λ (r : KeyRow). r.status)) same) fits)

    reach-Sound : (w : World) (r : Reach agent key w) → AllCalm agent key whole r → Sound w
    reach-Sound w (start db free unique) calm = (unique, rw free (refl, refl))
    reach-Sound w (next r s) (calm, last) = step-Sound _ w s last (reach-Sound _ r calm)

  -- However claims, calls, crashes, retries and sweeps are interleaved, a key's write is executed at
  -- most once, under three conditions: a call that was never sent, or whose status the manifest
  -- declares as not executed and not as definitive, did not execute the write; no recorded outcome loses the reply of its
  -- commit; and the reconciler takes up a key only when no writer, and no request of one, is at work
  -- on it. A request that takes effect does so before its call returns, unless its process stopped.
  pub at_most_once :
      (w : World) (r : Reach agent key w) → AllCalm agent key false r → w.executed ≤ 1
  at_most_once w r calm =
      at_most false (status_of agent key w.db) w.executed w.workers (reach-Sound false w r calm).1

  closed_truth :
      (whole : Bool) (s : Status) (e : ℕ) (ws : List Worker)
      → s ≢ Status.pending
      → Fits whole (some s) e ws
      → Admits whole s e
  closed_truth whole Status.pending e ws h f = absurd (h refl)
  closed_truth whole Status.done e ws h (f, _) = f
  closed_truth whole Status.failed e ws h (f, _) = f
  closed_truth whole Status.indeterminate e ws h (f, _) = f
  closed_truth whole Status.rejected e ws h (f, _) = f

  -- Under the same three conditions a stored status tells the truth: a key that is `failed` or
  -- `rejected` was not executed, one that is `indeterminate` was executed at most once, and so was
  -- one that is `done`. If moreover each reply with a definitive status is that of a write that was
  -- executed (`whole`), a key that is `done` was executed exactly once. A manifest that declares the
  -- status of a refusal definitive, as that of invoices does with 429, does not meet that last
  -- condition.
  pub status_truthful :
      (whole : Bool) (w : World) (r : Reach agent key w) (s : Status)
      → AllCalm agent key whole r
      → s ≢ Status.pending
      → status_of agent key w.db ≡ some s
      → Admits whole s w.executed
  status_truthful whole w r s calm closed stored =
      closed_truth whole s w.executed w.workers closed
        (subst (λ o. Fits whole o w.executed w.workers) stored (reach-Sound whole w r calm).1)

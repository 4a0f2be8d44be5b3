-- ===== src/Evaluation/Quota.antt =====
-- The quota state that an evaluation leaves: apps/worker/internal/service/evaluation/service.go.
use lab_kit.Prelude.Members.{any_iff}
use lab_kit.Prelude.{
  String, ◌↔◌, In, none, some, ◌≡◌, refl, ◌≢◌, ◌⊎◌, inl, inr, Option, true, arith, if◌then◌else◌,
}
use lab_kit.Manifest.{Manifest}
use lab_kit.Evaluator.{Verdict, verdict_text}
use lab_kit.Db.{QuotaState}
use lab_kit.Evaluation.{quota_state_for, new_quota_state, is_free, is_free_state}

-- The manifest lists the text among its free verdicts.
abbrev pub Lists : Option Manifest → String → Type 0
Lists none s = ⊥
Lists (some m) s = In s m.quota.free

-- The verdicts that cost nothing: an error, and a failed build or a rejection that the manifest
-- lists as free.
abbrev pub CostsNothing : Option Manifest → Verdict → Type 0
CostsNothing m v =
    (v ≡ Verdict.error)
    ⊎ (((v ≡ Verdict.build_failed) × Lists m "build_failed")
        ⊎ ((v ≡ Verdict.rejected) × Lists m "rejected"))

is_free_iff : (m : Option Manifest) (v : Verdict) → (is_free m v ≡ true) ↔ Lists m (verdict_text v)
is_free_iff none v = (λ h. cc, λ h. absurd h)
is_free_iff (some m) v = any_iff (verdict_text v) m.quota.free

free_cost :
    (m : Option Manifest) (v : Verdict) → quota_state_for m v ≡ QuotaState.free → CostsNothing m v
unfolding quota_state_for
free_cost m Verdict.build_failed e =
    inr (inl (refl, (is_free_iff m Verdict.build_failed).0 (ground arith)))
free_cost m Verdict.rejected e = inr (inr (refl, (is_free_iff m Verdict.rejected).0 (ground arith)))
free_cost m Verdict.scored e = cc
free_cost m Verdict.error e = inl refl
free_cost m (Verdict.other s) e = cc

cost_free :
    (m : Option Manifest) (v : Verdict) → CostsNothing m v → quota_state_for m v ≡ QuotaState.free
unfolding quota_state_for
cost_free m v (inl e) = rw e
cost_free m v (inr (inl (e, listed))) =
    let free = (is_free_iff m Verdict.build_failed).1 listed in rw (e, free)
cost_free m v (inr (inr (e, listed))) =
    let free = (is_free_iff m Verdict.rejected).1 listed in rw (e, free)

two_states :
    (m : Option Manifest) (v : Verdict)
    → (quota_state_for m v ≡ QuotaState.free) ⊎ (quota_state_for m v ≡ QuotaState.charged)
unfolding quota_state_for
two_states m v = ground arith

-- What a submission's quota state becomes: a free one stays free, a bonus one stays bonus unless
-- the verdict costs nothing, and any other is charged unless the verdict costs nothing.
pub data Settles (m : Option Manifest) (v : Verdict) (before after : QuotaState) : Type 0 where
  stays_free : before ≡ QuotaState.free → after ≡ QuotaState.free → Settles m v before after
  costs_nothing : CostsNothing m v → after ≡ QuotaState.free → Settles m v before after
  stays_bonus :
      before ≡ QuotaState.bonus
      → (¬ CostsNothing m v)
      → after ≡ QuotaState.bonus
      → Settles m v before after
  is_charged :
      before ≢ QuotaState.free
      → before ≢ QuotaState.bonus
      → (¬ CostsNothing m v)
      → after ≡ QuotaState.charged
      → Settles m v before after

-- The state that the row of a submission, loaded in a state, is to have after Persist, as a
-- function; that Persist leaves it is proved in Effects.
abbrev pub settled_state : QuotaState → Option Manifest → Verdict → QuotaState
settled_state QuotaState.bonus m v =
    if is_free_state (new_quota_state QuotaState.bonus m v)
    then QuotaState.free
    else QuotaState.bonus
settled_state before m v = new_quota_state before m v

not_cost :
    (m : Option Manifest) (v : Verdict)
    → quota_state_for m v ≡ QuotaState.charged
    → ¬ CostsNothing m v
not_cost m v e c = states_differ (cost_free m v c) e
  where
    states_differ : {s : QuotaState} → s ≡ QuotaState.free → s ≡ QuotaState.charged → ⊥
    states_differ p q = ground arith

-- The function is of the relation.
pub settled_state-Settles :
    (before : QuotaState) (m : Option Manifest) (v : Verdict)
    → Settles m v before (settled_state before m v)
unfolding new_quota_state
settled_state-Settles before m v = elim (two_states m v) [
  | inl e ↦ costs_nothing (free_cost m v e) (free_after before e)
  | inr e ↦ charged_after before e (not_cost m v e)
]
  where
    free_after :
        (s : QuotaState)
        → quota_state_for m v ≡ QuotaState.free
        → settled_state s m v ≡ QuotaState.free
    free_after s e = ground arith

    charged_after :
        (s : QuotaState)
        → quota_state_for m v ≡ QuotaState.charged
        → (¬ CostsNothing m v)
        → Settles m v s (settled_state s m v)
    charged_after QuotaState.free e n = stays_free refl refl
    charged_after QuotaState.bonus e n = stays_bonus refl n (rw e)
    charged_after QuotaState.pending e n = is_charged (λ h. cc) (λ h. cc) n e
    charged_after QuotaState.charged e n = is_charged (λ h. cc) (λ h. cc) n e
    charged_after QuotaState.admin_reset e n = is_charged (λ h. cc) (λ h. cc) n e

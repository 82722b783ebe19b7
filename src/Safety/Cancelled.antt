-- ===== src/Safety/Cancelled.antt =====
-- Cancellation is a fence that no later call takes down (kernelgym/server/workflow_lifecycle.py).
pub mod Fences
pub mod Theorem
use kernel_gym.Prelude.{
  ℕ, zero, suc, String, Bool, true, false, not, Option, none, some, List, [], ◌∷◌, ◌≡◌, refl, arith,
  ◌==◌, ◌∙◌, ap, rpop, Bool-cases, Option-cases, inl, inr, is_some, eq_iff, contains, or_else,
}
use kernel_gym.Redis.Keys.{MarkerKey, marker_key_eq, marker_key_eq_iff, marker_key_Eq, Stage, Item}
use kernel_gym.Redis.{Db, Flow, marked, any_marked, set_queue}
use kernel_gym.Scripts.Guard.{workflow_allowed}
use kernel_gym.Scripts.Dispatch.{
  ClaimArgs, claim_key, claimable, take_claim, claim_gpu_task, mark_claim_processing,
  mark_cpu_processing,
}
use kernel_gym.Scripts.Release.{return_claim, ack_claim, freeze_claim, finalize_claim}
use kernel_gym.Scripts.Requeue.{conditional_requeue, queue_wait_requeue}
use kernel_gym.Scripts.Submit.{submit_task_if_absent, force_refresh_task}
use kernel_gym.Scripts.Cancel.{
  CancelArgs, fence_id, fence_children, unqueue, cancel_unstarted, cancel_existing, cancel_task,
}
use kernel_gym.Scripts.Lifecycle.{
  FinishArgs, accept, start_workflow, renew, finish, finish_parent, stop_child, stop_children,
  discard_records,
}
use kernel_gym.Scripts.Schedule.{
  Call, submit_call, refresh_call, claim_call, mark_call, mark_cpu_call, return_call, ack_call,
  freeze_call, finalize_call, wait_call, requeue_call, cancel_call, accept_call, renew_call,
  finish_call, discard_call, tick, reap_task, reap_marker, run, run_all, reap_task_key,
  reap_marker_key,
}

-- The marker is set, and no EXPIRE is pending on it.
pub record Fenced (db : Db) (m : MarkerKey) : Type 0 where
  pub set : marked db m ≡ true
  pub lasting : db.marker_expiry m ≡ none

-- Only the start, the end and the removal of a workflow clear or expire a marker, and that is the
-- `cancel` marker among their keys.
abbrev pub spares : Call → MarkerKey → Bool
spares (accept_call a) m = not (marker_key_eq a.keys.cancel m)
spares (finish_call a) m = not (marker_key_eq a.keys.cancel m)
spares (discard_call a) m = not (marker_key_eq a.keys.cancel m)
spares _ m = true

-- The calls that write markers.
abbrev pub touches_markers : Call → Bool
touches_markers (cancel_call a) = true
touches_markers (accept_call a) = true
touches_markers (finish_call a) = true
touches_markers (discard_call a) = true
touches_markers (reap_marker k) = true
touches_markers _ = false

-- The markers and their expiry are as they were.
pub record SameMarkers (db db' : Db) : Type 0 where
  pub markers : db'.markers ≡ db.markers
  pub expiry : db'.marker_expiry ≡ db.marker_expiry

pub SameMarkers-trans : (a b c : Db) → SameMarkers a b → SameMarkers b c → SameMarkers a c
SameMarkers-trans a b c p q = record {
  markers = q.markers ∙ p.markers;
  expiry = q.expiry ∙ p.expiry;
}

pub Fenced-SameMarkers : (m : MarkerKey) (a b : Db) → Fenced a m → SameMarkers a b → Fenced b m
Fenced-SameMarkers m a b f s = record {
  set = ap (λ k. is_some (k m)) s.markers ∙ f.set;
  lasting = ap (λ e. e m) s.expiry ∙ f.lasting;
}

pub SameMarkers-claim : (n : ℕ) (db : Db) (a : ClaimArgs) → SameMarkers db (claim_gpu_task n db a).0
unfolding claim_gpu_task take_claim
SameMarkers-claim zero db a = record { markers = refl; expiry = refl }
SameMarkers-claim (suc n) db a = elim (Option-cases (rpop (db.queues a.source))) [
  | inl p ↦ rw (p, claim_gpu_task) (record { markers = refl; expiry = refl })
  | inr p ↦
      let db' = set_queue db a.source p.0.1 in
      rw (p.1, claim_gpu_task)
        (elim (Bool-cases (claimable db' (claim_key a p.0.0))) [
          | inl c ↦ rw c (record { markers = refl; expiry = refl })
          | inr c ↦ rw c (
              SameMarkers-trans db db' _ (record { markers = refl; expiry = refl })
                (SameMarkers-claim n db' a))
        ])
]

pub SameMarkers-stop_children :
    (a : FinishArgs) (cs : List String) (db : Db) → SameMarkers db (stop_children a cs db)
unfolding stop_children
SameMarkers-stop_children a [] db = record { markers = refl; expiry = refl }
SameMarkers-stop_children a (c ∷ cs) db =
    SameMarkers-trans db (stop_child a c db) _ (unfold stop_child in ground arith)
      (SameMarkers-stop_children a cs (stop_child a c db))

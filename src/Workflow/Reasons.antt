-- ===== src/Workflow/Reasons.antt =====
-- Why the reconciliation ends a workflow (`reconcile` of kernelgym/server/workflow_lifecycle.py).
use Prim.Native.String.{◌++◌ as join}
use text.Mathlib.TextLemmas.{append-eq-nil_iff}
use text.Mathlib.TextEquality.{path_by_compare}
use kernel_gym.Prelude.{
  ◌≤◌, String, Bool, true, false, not, ◌&&◌, ◌||◌, List, [], ◌∷◌, ◌++◌, ◌≡◌, ◌==◌, arith, refl,
  contains, string_eq, eq_iff, holds, or_else, text_of, leb, if◌then◌else◌, Bool-cases, inl, inr,
}
use kernel_gym.Redis.Keys.{TaskKey, children_key, tombstone_key}
use kernel_gym.Redis.{Db, is_active, is_frozen, task_at, marked, any_marked, lease_owner}
use kernel_gym.Manager.State.{Settings}
use kernel_gym.Workflow.Controller.{flow_keys}
use kernel_gym.Workflow.Reconcile.{
  insert_once, sorted_once, child_reason, first_reason, worker_reason, ids_of, worker_of,
  children_of, stop_reason,
}

-- A child that the workflow's record names, or that was registered for its generation.
abbrev pub is_child : Settings → Db → String → String → Bool
is_child c db id child =
    let h = task_at db (flow_keys c id).task in
    contains child (ids_of (or_else h.parent.children []))
    || contains child (db.sets (children_key c.key_prefix id (text_of h.flow.generation)))

abbrev child_task : Settings → String → TaskKey
child_task c child = record { prefix = c.key_prefix; id = child }

-- What makes a workflow stop: its deadline is over, its owner's lease is gone or another's, it was cancelled, or one of
-- its children was cancelled, is frozen, or is active on a quarantined worker.
pub data MustStop (c : Settings) (quarantined : String → Bool) (db : Db) (id : String)
    : Type 0 where
  deadline_over :
      or_else (task_at db (flow_keys c id).task).flow.deadline 0 ≤ db.clock
      → MustStop c quarantined db id
  lease_gone :
      holds
          (lease_owner db (flow_keys c id).lease)
          (text_of (task_at db (flow_keys c id).task).flow.generation)
        ≡ false
      → MustStop c quarantined db id
  was_cancelled : marked db (tombstone_key c.key_prefix id) ≡ true → MustStop c quarantined db id
  child_cancelled :
      (child : String)
      → is_child c db id child ≡ true
      → marked db (tombstone_key c.key_prefix child) ≡ true
      → MustStop c quarantined db id
  child_fenced :
      (child : String)
      → is_child c db id child ≡ true
      → any_marked db.markers (or_else (task_at db (child_task c child)).flow.cancellation_keys [])
        ≡ true
      → MustStop c quarantined db id
  child_frozen :
      (child : String)
      → is_child c db id child ≡ true
      → is_frozen (task_at db (child_task c child)).claim.recovery_state ≡ true
      → MustStop c quarantined db id
  child_quarantined :
      (child : String)
      → is_child c db id child ≡ true
      → is_active (task_at db (child_task c child)).status ≡ true
      → (worker_of (task_at db (child_task c child)) == "") ≡ false
      → quarantined (worker_of (task_at db (child_task c child))) ≡ true
      → MustStop c quarantined db id

-- Sorting keeps every id.
contains-insert_once :
    (a x : String) (ys : List String) → contains a (insert_once x ys) ≡ (a == x || contains a ys)
unfolding insert_once contains
contains-insert_once a x [] = refl
contains-insert_once a x (y ∷ ys) = ground (arith, path_by_compare x y, contains-insert_once a x ys)

contains-sorted_once : (a : String) (xs : List String) → contains a (sorted_once xs) ≡ contains a xs
unfolding sorted_once contains
contains-sorted_once a [] = refl
contains-sorted_once a (x ∷ xs) =
    ground (arith, contains-insert_once a x (sorted_once xs), contains-sorted_once a xs)

contains-append :
    (a : String) (xs ys : List String) → contains a (xs ++ ys) ≡ (contains a xs || contains a ys)
unfolding contains
contains-append a [] ys = refl
contains-append a (x ∷ xs) ys = ground (arith, contains-append a xs ys)

is_child-children_of :
    (c : Settings) (db : Db) (id child : String)
    → is_child c db id child ≡ true
    → contains child (children_of c db id) ≡ true
unfolding children_of
is_child-children_of c db id child h =
    let g = text_of (task_at db (flow_keys c id).task).flow.generation in
    let xs = ids_of (or_else (task_at db (flow_keys c id).task).parent.children []) in
    let ys = db.sets (children_key c.key_prefix id g) in
    ground (arith, h, contains-sorted_once child (xs ++ ys), contains-append child xs ys)

-- One child with a reason is enough.
first_reason-found :
    (f : String → String) (a : String) (xs : List String)
    → contains a xs ≡ true
    → (f a == "") ≡ false
    → (first_reason f xs == "") ≡ false
unfolding first_reason contains
first_reason-found f a [] h e = ground arith
first_reason-found f a (x ∷ xs) h e = ground (arith, e, eq_iff a x, first_reason-found f a xs)

-- A chain of three tests gives the empty text only where each of them fails.
blank_chain :
    (a b c : Bool) (x y z rest : String)
    → (x == "") ≡ false
    → (y == "") ≡ false
    → (z == "") ≡ false
    → ((if a then x else if b then y else if c then z else rest) == "")
      ≡ (not a && (not b && (not c && rest == "")))
blank_chain true b c x y z rest h k l = h
blank_chain false true c x y z rest h k l = k
blank_chain false false true x y z rest h k l = l
blank_chain false false false x y z rest h k l = refl

stop_blank :
    (c : Settings) (quarantined : String → Bool) (db : Db) (id : String)
    → (stop_reason c quarantined db id == "") ≡ (
        not (leb (or_else (task_at db (flow_keys c id).task).flow.deadline 0) db.clock)
        && (not (
              not (
                holds
                  (lease_owner db (flow_keys c id).lease)
                  (text_of (task_at db (flow_keys c id).task).flow.generation)))
            && (not (marked db (tombstone_key c.key_prefix id))
                && first_reason (child_reason c quarantined db) (children_of c db id) == "")))
unfolding stop_reason
stop_blank c quarantined db id =
    blank_chain (leb (or_else (task_at db (flow_keys c id).task).flow.deadline 0) db.clock)
      (not (
        holds (lease_owner db (flow_keys c id).lease)
          (text_of (task_at db (flow_keys c id).task).flow.generation)))
      (marked db (tombstone_key c.key_prefix id)) "Workflow end-to-end deadline exceeded"
      "Workflow owner lease expired" "Task cancelled"
      (first_reason (child_reason c quarantined db) (children_of c db id)) refl refl refl

join_not_blank : (p q : String) → (p == "") ≡ false → (join p q == "") ≡ false
join_not_blank p q h = elim (Bool-cases (join p q == "")) [
  | inl e ↦
      let k = (append-eq-nil_iff {p = p} {q = q}).0 ((eq_iff (join p q) "").0 e) in
      ground (arith, h, (eq_iff p "").1 k.0)
  | inr e ↦ e
]

worker_blank :
    (c : Settings) (quarantined : String → Bool) (child worker : String)
    → (worker_reason quarantined child worker == "")
      ≡ not (not (worker == "") && quarantined worker)
worker_blank c quarantined child worker =
    elim (Bool-cases (not (worker == "") && quarantined worker)) [
      | inl h ↦ rw h (join_not_blank "Infrastructure failure: child " _ refl)
      | inr h ↦ rw h refl
    ]

child_blank :
    (c : Settings) (quarantined : String → Bool) (db : Db) (child : String)
    → let h = task_at db (child_task c child) in
      (child_reason c quarantined db child == "") ≡ (
        not (
          marked db (tombstone_key c.key_prefix child)
          || any_marked db.markers (or_else h.flow.cancellation_keys []))
        && (not (is_frozen h.claim.recovery_state)
            && (not (is_active h.status) || worker_reason quarantined child (worker_of h) == "")))
unfolding child_reason
child_blank c quarantined db child =
    let h = task_at db (child_task c child) in
    let first =
      marked db (tombstone_key c.key_prefix child)
      || any_marked db.markers (or_else h.flow.cancellation_keys []) in
    let cancelled_text = join "Child task " (join child " cancelled") in
    let frozen_text =
      join "Infrastructure failure: child "
        (join child (join " frozen: " (text_of h.claim.recovery_reason))) in
    let cancelled_there = join_not_blank "Child task " (join child " cancelled") refl in
    let frozen_there =
      join_not_blank "Infrastructure failure: child "
        (join child (join " frozen: " (text_of h.claim.recovery_reason))) refl in
    elim (Bool-cases (is_active h.status)) [
      | inl k ↦ rw k (
          chain first (is_frozen h.claim.recovery_state) cancelled_text frozen_text
            (worker_reason quarantined child (worker_of h)) cancelled_there frozen_there)
      | inr k ↦ rw k (
          chain first (is_frozen h.claim.recovery_state) cancelled_text frozen_text ""
            cancelled_there frozen_there)
    ]
  where
    chain :
        (a b : Bool) (x y rest : String)
        → (x == "") ≡ false
        → (y == "") ≡ false
        → ((if a then x else if b then y else rest) == "") ≡ (not a && (not b && rest == ""))
    chain true b x y rest h k = h
    chain false true x y rest h k = k
    chain false false x y rest h k = refl

by_child :
    (c : Settings) (quarantined : String → Bool) (db : Db) (id child : String)
    → is_child c db id child ≡ true
    → (child_reason c quarantined db child == "") ≡ false
    → (stop_reason c quarantined db id == "") ≡ false
by_child c quarantined db id child h e = ground (
  arith,
  stop_blank c quarantined db id,
  first_reason-found (child_reason c quarantined db) child (children_of c db id)
      (is_child-children_of c db id child h) e,
)

-- Each of the causes gives the reconciliation a reason.
pub MustStop-reason :
    (c : Settings) (quarantined : String → Bool) (db : Db) (id : String)
    → MustStop c quarantined db id
    → (stop_reason c quarantined db id == "") ≡ false
MustStop-reason c quarantined db id (deadline_over h) =
    ground (arith, h, stop_blank c quarantined db id)
MustStop-reason c quarantined db id (lease_gone h) =
    ground (arith, h, stop_blank c quarantined db id)
MustStop-reason c quarantined db id (was_cancelled h) =
    ground (arith, h, stop_blank c quarantined db id)
MustStop-reason c quarantined db id (child_cancelled x k h) =
    by_child c quarantined db id x k (ground (arith, h, child_blank c quarantined db x))
MustStop-reason c quarantined db id (child_fenced x k h) =
    by_child c quarantined db id x k (ground (arith, h, child_blank c quarantined db x))
MustStop-reason c quarantined db id (child_frozen x k h) =
    by_child c quarantined db id x k (ground (arith, h, child_blank c quarantined db x))
MustStop-reason c quarantined db id (child_quarantined x k a w h) =
    by_child c quarantined db id x k (
      ground (
        arith,
        a,
        w,
        h,
        child_blank c quarantined db x,
        worker_blank c quarantined x (worker_of (task_at db (child_task c x))),
      ))

-- ===== src/Safety/Ended/Theorem.antt =====
-- After the end of a workflow none of its children is created, claimed or started.
use kernel_gym.Prelude.{String, true, false, some, List, [], ◌∷◌, ◌≡◌, arith, ◌==◌, beq_refl, sym}
use mathlib.Core.Path.{subst₂}
use kernel_gym.Redis.Keys.{TaskKey, task_key_Eq}
use kernel_gym.Redis.{Db, Flow, is_terminal}
use kernel_gym.Scripts.Guard.{workflow_allowed, parent_admits}
use kernel_gym.Scripts.Code.{one, zero_code}
use kernel_gym.Scripts.Lifecycle.{
  FinishArgs, finish, finish_parent, final_result, stop_children, judge,
}
use kernel_gym.Scripts.Schedule.{Call, run, run_all}
use kernel_gym.Safety.Ended.{Ended, fresh}
use kernel_gym.Safety.Ended.Calls.{Ended-call, Ended-stop_children}
use kernel_gym.Safety.Cancelled.Theorem.{Stopped, Stopped-refused}

abbrev pub Fresh : TaskKey → String → List Call → Type 0
Fresh k g [] = Unit {0}
Fresh k g (c ∷ cs) = (fresh c k g ≡ true) × Fresh k g cs

Ended-all :
    (db : Db) (k : TaskKey) (g : String) (cs : List Call)
    → Ended db k g
    → Fresh k g cs
    → Ended (run_all db cs) k g
unfolding run_all
Ended-all db k g [] e h = e
Ended-all db k g (c ∷ cs) e h = Ended-all (run db c) k g cs (Ended-call db k g c e h.0) h.1

-- An ended generation is refused by the guard.
Ended-refuses :
    (db : Db) (f : Flow) (k : TaskKey) (g : String)
    → Ended db k g
    → f.generation ≡ some g
    → (g == "") ≡ false
    → f.parent_key ≡ some k
    → workflow_allowed db f ≡ false
unfolding workflow_allowed parent_admits
Ended-refuses db f k g e p n q = ground arith

-- The result that ends a workflow is terminal when the caller's is: the script's own verdicts are.
pub final-terminal :
    (db : Db) (a : FinishArgs)
    → is_terminal (some a.result.status) ≡ true
    → is_terminal (some (final_result db a).status) ≡ true
unfolding final_result judge
final-terminal db a h = ground arith

parent-Ended :
    (db : Db) (a : FinishArgs)
    → is_terminal (some a.result.status) ≡ true
    → Ended (finish_parent db a) a.keys.task a.generation
unfolding finish_parent
parent-Ended db a h = ground (arith, beq_refl a.keys.task, final-terminal db a h)

-- A `finish` that succeeds has closed the parent and then the children.
pub finish-tasks :
    (db : Db) (a : FinishArgs)
    → (finish db a).1 ≡ one
    → (finish db a).0.tasks ≡ (stop_children a (db.sets a.children) (finish_parent db a)).tasks
unfolding finish
finish-tasks db a e = ground arith

Ended-finish :
    (db : Db) (b : FinishArgs) → Ended db b.keys.task b.generation → finish db b ≡ (db, zero_code)
unfolding finish
Ended-finish db b e = ground (arith, e.over)

pub finish-Ended :
    (db : Db) (a : FinishArgs)
    → (finish db a).1 ≡ one
    → is_terminal (some a.result.status) ≡ true
    → Ended (finish db a).0 a.keys.task a.generation
finish-Ended db a e h =
    let q =
      Ended-stop_children a.keys.task a.generation a (db.sets a.children) (finish_parent db a)
        (parent-Ended db a h) in
    ground (arith, q, finish-tasks db a e)

-- Once a workflow has ended with a terminal result, a child of that generation is refused by the
-- guard: it is never created by a submission or a refresh, claimed, or started on a GPU or on the CPU, after any schedule of calls that keeps to the
-- server's discipline: the generation is not accepted a second time.
pub finish_is_final :
    (db : Db) (a : FinishArgs) (cs : List Call) (f : Flow)
    → (finish db a).1 ≡ one
    → is_terminal (some a.result.status) ≡ true
    → Fresh a.keys.task a.generation cs
    → f.generation ≡ some a.generation
    → (a.generation == "") ≡ false
    → f.parent_key ≡ some a.keys.task
    → Stopped (run_all (finish db a).0 cs) f
finish_is_final db a cs f e h s p n q = Stopped-refused _ f (
    Ended-refuses _ f a.keys.task a.generation
      (Ended-all (finish db a).0 a.keys.task a.generation cs (finish-Ended db a e h) s) p n q)

-- A workflow ends once: whatever the second caller brings for the same generation, it changes
-- nothing and is told so.
pub finish_once :
    (db : Db) (a b : FinishArgs)
    → (finish db a).1 ≡ one
    → is_terminal (some a.result.status) ≡ true
    → b.keys.task ≡ a.keys.task
    → b.generation ≡ a.generation
    → finish (finish db a).0 b ≡ ((finish db a).0, zero_code)
finish_once db a b e h k g =
    Ended-finish (finish db a).0 b
      (subst₂ (λ j x. Ended (finish db a).0 j x) (sym k) (sym g) (finish-Ended db a e h))

-- ===== src/Pool/InOrder.antt =====
-- The invariant of the system: the generations of its constructors and of the recoveries that still reap.
use kernel_gym.Prelude.{
  ℕ, ◌≤◌, ◌<◌, String, Bool, true, false, Option, List, ◌≡◌, arith, nat_eq, update, nat_Eq,
  Bool-cases, inl, inr, subst, sym, refl,
}
use kernel_gym.Pool.State.{Pool, all_stopped}
use kernel_gym.Pool.Recovery.{
  recover_from_device_fault, old_workers_reaped, finish_validation, may_validate,
}
use kernel_gym.Pool.Generations.{is_open}
use kernel_gym.Pool.Settled.{
  Settled-late_reaped, Settled-finish_ticket, Settled, Settled-recover, Settled-old_workers_reaped,
  Settled-finish_validation, Settled-begin_context, Settled-quarantine, Settled-contain,
  Settled-after_containment, Settled-restart_worker, Settled-finish_restart, Settled-mark_failed,
  Settled-retry_capacity, Settled-register_worker, Settled-get_idle_worker, Settled-finish_reap,
  Settled-return_worker, Settled-begin_shutdown, Settled-end_shutdown,
}
use kernel_gym.Pool.Kept.{
  Kept-late_reaped, Kept-finish_ticket, Kept, Kept-old_workers_reaped, Kept-finish_validation,
  Kept-begin_context, Kept-quarantine, Kept-contain, Kept-after_containment, Kept-restart_worker,
  Kept-finish_restart, Kept-mark_failed, Kept-retry_capacity, Kept-register_worker,
  Kept-get_idle_worker, Kept-finish_reap, Kept-return_worker, Kept-begin_shutdown,
  Kept-end_shutdown,
}
use kernel_gym.Pool.Moves.{
  System, Phase, reaping, probing, over, enter, next_phase, Move, old_reaped, probed, older_drained,
  recovery_over, device_fault, context_fault, unreaped, contained, containment_reaped, restarted,
  restart_done, thread_failed, delay_over, thread_ready, late_stopped, asked, dead_reaped, returned,
  shutdown_begun, shutdown_ended,
}

-- Where a recovery of generation `g` may still be reaping.
pub record Gated (p : Pool) (g : ℕ) : Type 0 where
  pub at_most : g ≤ p.pool_generation
  pub before : is_open p.health_state ≡ true → g < p.pool_generation

pub record InOrder (s : System) : Type 0 where
  pub settled : Settled s.pool
  pub gated : (g : ℕ) → s.phase g ≡ reaping → Gated s.pool g

Gated-Kept : {d : Option ℕ} {p q : Pool} {g : ℕ} → Kept false d p q → Gated p g → Gated q g
Gated-Kept k h = record {
  at_most = ground (arith, k.generation, h.at_most);
  before = ground (arith, k.generation, k.shut, h.at_most, h.before);
}

InOrder-Kept :
    {d : Option ℕ} (s : System) (q : Pool)
    → InOrder s
    → Kept false d s.pool q
    → Settled q
    → InOrder (record s { pool = q })
InOrder-Kept s q i k z = record { settled = z; gated = λ g h. Gated-Kept k (i.gated g h) }

abbrev is_reaping : Phase → Bool
is_reaping reaping = true
is_reaping _ = false

-- A phase that is not `reaping` adds no recovery that reaps.
reaping-update :
    (f : ℕ → Phase) (g h : ℕ) (x : Phase)
    → is_reaping x ≡ false
    → update f g x h ≡ reaping
    → (f h ≡ reaping) × (nat_eq g h ≡ false)
reaping-update f g h x c e = ground arith

-- A recovery of another generation changes nothing.
finish_validation-foreign :
    (p : Pool) (g : ℕ) (t e f : String) (b : Bool)
    → nat_eq g p.pool_generation ≡ false
    → finish_validation p g t e f b ≡ p
unfolding finish_validation may_validate
finish_validation-foreign p g t e f b h = ground (arith, h)

Gated-finish_validation :
    (p : Pool) (g h : ℕ) (t e f : String) (b : Bool)
    → nat_eq g h ≡ false
    → Gated p h
    → Gated (finish_validation p g t e f b) h
Gated-finish_validation p g h t e f b n k = elim (Bool-cases (nat_eq g p.pool_generation)) [
  | inl y ↦ record {
    at_most = ground (arith, k.at_most, (Kept-finish_validation p g t e f b).generation);
    before = ground (arith, k.at_most, (Kept-finish_validation p g t e f b).generation);
  }
  | inr z ↦ subst (λ q. Gated q h) (sym (finish_validation-foreign p g t e f b z)) k
]

module _ (s : System) (i : InOrder s) where
  InOrder-device_fault :
      (w n : ℕ) (t r : String)
      → InOrder (record {
        pool = (recover_from_device_fault s.pool w n t r).0;
        phase = enter s.phase (recover_from_device_fault s.pool w n t r).1;
      })
  unfolding recover_from_device_fault
  InOrder-device_fault w n t r = record {
    settled = Settled-recover s.pool i.settled w n t r;
    gated =
        λ g h. record { at_most = ground (arith, i.gated g); before = ground (arith, i.gated g) };
  }

  InOrder-old_reaped :
      (g : ℕ) (t : String) (rs : List (ℕ × Bool))
      → s.phase g ≡ reaping
      → InOrder (record {
        pool = old_workers_reaped s.pool g t rs;
        phase = update s.phase g (next_phase (all_stopped rs));
      })
  InOrder-old_reaped g t rs e = record {
    settled = Settled-old_workers_reaped s.pool i.settled g t rs (i.gated g e).before;
    gated = λ h u.
        Gated-Kept (Kept-old_workers_reaped s.pool g t rs)
          (i.gated h (reaping-update s.phase g h (next_phase (all_stopped rs)) (ground arith) u).0);
  }

  -- The recovery that reopens a pool is of its generation, and is not one that still reaps.
  InOrder-probed :
      (g : ℕ) (t e f : String) (b : Bool)
      → s.phase g ≡ probing
      → InOrder
          (record { pool = finish_validation s.pool g t e f b; phase = update s.phase g over })
  InOrder-probed g t e f b x = record {
    settled = Settled-finish_validation s.pool i.settled g t e f b;
    gated = λ h u.
        let r = reaping-update s.phase g h over refl u in
        Gated-finish_validation s.pool g h t e f b r.1 (i.gated h r.0);
  }

  InOrder-older_drained : (g : ℕ) → InOrder (record s { phase = update s.phase g probing })
  InOrder-older_drained g = record {
    settled = i.settled;
    gated = λ h u. i.gated h (reaping-update s.phase g h probing refl u).0;
  }

  -- Every move keeps the order.
  pub InOrder-Move : {d : Option ℕ} {t : System} → Move s d t → InOrder t
  InOrder-Move (context_fault s n t r) =
      InOrder-Kept s _ i (Kept-begin_context s.pool n t r)
        (Settled-begin_context s.pool i.settled n t r)
  InOrder-Move (unreaped s r t ws) =
      InOrder-Kept s _ i (Kept-quarantine s.pool r t ws)
        (Settled-quarantine s.pool i.settled r t ws)
  InOrder-Move (contained s r t ws) =
      InOrder-Kept s _ i (Kept-contain s.pool r t ws) (Settled-contain s.pool i.settled r t ws)
  InOrder-Move (containment_reaped s rs) =
      InOrder-Kept s _ i (Kept-after_containment s.pool rs)
        (Settled-after_containment s.pool i.settled rs)
  InOrder-Move (restarted s w v) =
      InOrder-Kept s _ i (Kept-restart_worker s.pool w v)
        (Settled-restart_worker s.pool i.settled w v)
  InOrder-Move (restart_done s w g b v c r t) =
      InOrder-Kept s _ i (Kept-finish_restart s.pool w g b v c r t)
        (Settled-finish_restart s.pool i.settled w g b v c r t)
  InOrder-Move (thread_failed s t b r f h) =
      InOrder-Kept s _ i (Kept-mark_failed s.pool t b r f i.settled h)
        (Settled-mark_failed s.pool i.settled t b r f)
  InOrder-Move (delay_over s g) =
      InOrder-Kept s _ i (Kept-retry_capacity s.pool g) (Settled-retry_capacity s.pool i.settled g)
  InOrder-Move (thread_ready s t b h) =
      InOrder-Kept s _ i (Kept-register_worker s.pool t b)
        (Settled-register_worker s.pool i.settled t b)
  InOrder-Move (late_stopped s w b) =
      InOrder-Kept s _ i (Kept-late_reaped s.pool w b) (Settled-late_reaped s.pool i.settled w b)
  InOrder-Move (asked s alive) =
      InOrder-Kept s _ i (Kept-get_idle_worker s.pool alive)
        (Settled-get_idle_worker s.pool i.settled alive)
  InOrder-Move (dead_reaped s n g) =
      InOrder-Kept s _ i (Kept-finish_reap s.pool n g) (Settled-finish_reap s.pool i.settled n g)
  InOrder-Move (returned s w b) =
      InOrder-Kept s _ i (Kept-return_worker s.pool w b)
        (Settled-return_worker s.pool i.settled w b)
  InOrder-Move (shutdown_begun s) =
      InOrder-Kept s _ i (Kept-begin_shutdown s.pool) (Settled-begin_shutdown s.pool i.settled)
  InOrder-Move (shutdown_ended s b rs) =
      InOrder-Kept s _ i (Kept-end_shutdown s.pool b rs)
        (Settled-end_shutdown s.pool i.settled b rs)
  InOrder-Move (device_fault s w n t r) = InOrder-device_fault w n t r
  InOrder-Move (old_reaped s g t rs h) = InOrder-old_reaped g t rs h
  InOrder-Move (probed s g t e f b h) = InOrder-probed g t e f b h
  InOrder-Move (older_drained s g h k) = InOrder-older_drained g
  InOrder-Move (recovery_over s g h) =
      InOrder-Kept s _ i (Kept-finish_ticket s.pool g) (Settled-finish_ticket s.pool i.settled g)

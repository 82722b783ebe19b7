-- ===== src/Promises/Results.antt =====
-- What a caller reads after a task has ended: complete_task and fail_task against get_task_status
-- and get_task_result (kernelgym/server/task_manager.py, kernelgym/utils/task_status.py).
use kernel_gym.Prelude.{
  String, true, false, Option, none, some, ◌≡◌, subst, ap, ◌∙◌, sym, inl, inr, refl, arith, ◌==◌,
  beq_refl, Bool-cases, or_else, if◌then◌else◌, text_of,
}
use kernel_gym.Redis.Keys.{task_key_Eq}
use kernel_gym.Redis.{
  Db, Status, failed, timeout, ResultHash, blank_result, task_at, cleared_claim, unfenced, Payload,
}
use kernel_gym.Scripts.Release.{finalize_claim, set_result, set_terminal, FinalizeArgs}
use kernel_gym.Safety.Attempt.{Overlaid, set_result-Overlaid}
use kernel_gym.Manager.State.{TaskClaim, Settings, Server, Reply, raises, returns, is_one}
use kernel_gym.Manager.Finish.{
  task_status_from_result_payload, FinishOrder, adopt_claim, commit, commit_adopted, finalize_args,
  finalize_task_records, publish, note_status, RawResult, result_status, complete_task,
  complete_order, FailOrder, fail_task, fail_order, key_of, prefix_of,
}
use kernel_gym.Manager.Read.{
  StatusReply, status_text, payload_status, stored_status, result_reply, status_under,
  get_task_status, get_task_result, result_under, finished,
}

-- Deriving the status again from the status that was derived changes nothing.
pub status_stable :
    (raw code : String)
    → task_status_from_result_payload (status_text (task_status_from_result_payload raw code)) code
      ≡ task_status_from_result_payload raw code
unfolding task_status_from_result_payload status_text
status_stable raw code = elim (Bool-cases (raw == "timeout")) [
  | inl e ↦ rw e refl
  | inr e ↦ rw e (elim (Bool-cases (code == "TIMEOUT_ERROR")) [
    | inl c ↦ rw c refl
    | inr c ↦ rw c (elim (Bool-cases (raw == "failed")) [ inl f ↦ rw f refl | inr f ↦ rw f refl ])
  ])
]

-- What a commit that returns leaves of the order.
pub record Published (db db' : Db) (o : FinishOrder) : Type 0 where
  pub status : (task_at db' o.task_key).status ≡ some o.task_mapping.status
  pub claim : (task_at db' o.task_key).claim ≡ cleared_claim
  pub result :
      db'.results o.result_key
      ≡ some (set_result o.result_mapping (or_else (db.results o.result_key) blank_result))

accepted :
    (db : Db) (a : FinalizeArgs)
    → is_one (finalize_claim db a).1 ≡ true
    → ((task_at (finalize_claim db a).0 a.task).status ≡ some a.task_mapping.status)
      × ((task_at (finalize_claim db a).0 a.task).claim ≡ cleared_claim)
      × ((finalize_claim db a).0.results a.result
          ≡ some (set_result a.result_mapping (or_else (db.results a.result) blank_result)))
unfolding finalize_claim set_terminal
accepted db a n = ground (arith, beq_refl a.task, beq_refl a.result)

commit_publishes :
    (conf : Settings) (s : Server) (o : FinishOrder) (claim : Option TaskClaim)
    → (commit conf s o claim).1 ≡ returns tt
    → Published s.db (commit conf s o claim).0.db o
unfolding commit publish set_terminal
commit_publishes conf s o none h = record {
  status = rw (beq_refl o.task_key) refl;
  claim = rw (beq_refl o.task_key) refl;
  result = rw (beq_refl o.result_key) refl;
}
commit_publishes conf s o (some c) h =
    let a = finalize_args conf o c in
    record {
      status = ground (arith, accepted s.db a);
      claim = ground (arith, accepted s.db a);
      result = ground (arith, accepted s.db a);
    }

adopted_publishes :
    (conf : Settings) (s : Server) (o : FinishOrder) (x : Reply (Option TaskClaim))
    → (commit_adopted conf s o x).1 ≡ returns tt
    → Published s.db (commit_adopted conf s o x).0.db o
adopted_publishes conf s o (raises e) h = cc
adopted_publishes conf s o (returns claim) h = commit_publishes conf s o claim h

commits :
    (conf : Settings) (s : Server) (o : FinishOrder) (claim : Option TaskClaim)
    → (finalize_task_records conf s o claim).1 ≡ returns tt
    → Published s.db (finalize_task_records conf s o claim).0.db o
unfolding finalize_task_records
commits conf s o none h = adopted_publishes conf s o (adopt_claim s.db o) h
commits conf s o (some c) h = commit_publishes conf s o (some c) h

-- What a reader finds of an order.
pub record Visible (db db' : Db) (o : FinishOrder) : Type 0 where
  pub status : (task_at db' o.task_key).status ≡ some o.task_mapping.status
  pub token : (task_at db' o.task_key).claim.token ≡ some ""
  pub fence : (task_at db' o.task_key).claim.recovery_state ≡ some unfenced
  pub result :
      Overlaid o.result_mapping
        (or_else (db.results o.result_key) blank_result)
        (or_else (db'.results o.result_key) blank_result)

-- A commit that returns has published, whether the process owns the claim, takes over the control plane's or finds
-- none: the task has the order's status, an empty token and no fence, and its result has each field that the
-- order brings (payload, error, error code, request hash and times) and keeps the others.
pub commit_is_complete :
    (conf : Settings) (s : Server) (o : FinishOrder) (claim : Option TaskClaim)
    → (finalize_task_records conf s o claim).1 ≡ returns tt
    → Visible s.db (finalize_task_records conf s o claim).0.db o
commit_is_complete conf s o claim h =
    let p = commits conf s o claim h in
    record {
      status = p.status;
      token = rw p.claim refl;
      fence = rw p.claim refl;
      result = rw p.result (set_result-Overlaid o.result_mapping _);
    }

noted :
    (id : String) (status : Status) (x : Server × Reply (Unit {0}))
    → (note_status id status x).1 ≡ returns tt
    → (x.1 ≡ returns tt) × ((note_status id status x).0.db ≡ x.0.db)
noted id status (s, raises e) h = cc
noted id status (s, returns tt) h = (refl, refl)

completed_result :
    (conf : Settings) (s : Server) (id : String) (r : RawResult) (hash : Option String)
    (now : String)
    → (complete_task conf s id r hash now).1 ≡ returns tt
    → Published s.db
        (complete_task conf s id r hash now).0.db
        (complete_order conf id r hash now (s.claims id))
unfolding complete_task
completed_result conf s id r hash now h =
    let o = complete_order conf id r hash now (s.claims id) in
    let x = finalize_task_records conf s o (s.claims id) in
    let (ok, same) = noted id (result_status r) x h in
    subst (λ db. Published s.db db o) (sym same) (commits conf s o (s.claims id) ok)

read_status :
    (conf : Settings) (db : Db) (id : String) (r : ResultHash)
    → db.results (key_of conf.key_prefix id) ≡ some r
    → get_task_status conf db id ≡ some (result_reply r)
unfolding get_task_status status_under
read_status conf db id r e = rw e refl

read_result :
    (conf : Settings) (db : Db) (id : String) (r : ResultHash) (p : Payload)
    → db.results (key_of conf.key_prefix id) ≡ some r
    → r.result ≡ some p
    → get_task_result conf db id none ≡ some (finished (some (text_of r.completed_at)) p)
unfolding get_task_result result_under
read_result conf db id r p e q = rw e (rw q refl)

-- The result hash that a completion leaves, under the process's own prefix.
completed_hash :
    (conf : Settings) (s : Server) (id : String) (r : RawResult) (hash : Option String)
    (now : String)
    → prefix_of conf (s.claims id) ≡ conf.key_prefix
    → (complete_task conf s id r hash now).1 ≡ returns tt
    → (h : ResultHash) × ((complete_task conf s id r hash now).0.db.results
          (key_of conf.key_prefix id)
        ≡ some h)
      × (h.result ≡ some (record (r.body) { status = result_status r }))
      × (h.completed_at ≡ some now)
unfolding complete_order set_result
completed_hash conf s id r hash now p h =
    let o = complete_order conf id r hash now (s.claims id) in
    let done = completed_result conf s id r hash now h in
    (
      set_result o.result_mapping (or_else (s.db.results o.result_key) blank_result),
      subst
          (λ q.
            (complete_task conf s id r hash now).0.db.results (key_of q id)
            ≡ some (set_result o.result_mapping (or_else (s.db.results o.result_key) blank_result)))
          p done.result,
      refl,
      refl,
    )

reply_of_payload :
    (h : ResultHash) (r : RawResult)
    → h.result ≡ some (record (r.body) { status = result_status r })
    → r.raw_error_code ≡ or_else r.body.error_code ""
    → (result_reply h).status ≡ result_status r
unfolding stored_status payload_status
reply_of_payload h r e c = rw e (
    ap (λ t. task_status_from_result_payload (status_text (result_status r)) t) (sym c)
    ∙ status_stable r.raw_status r.raw_error_code)

-- Where a completion under the process's own prefix returns, the status that is read is the one that
-- the result asks for, and the result that is read without a request hash is the worker's, with
-- that status and the time of the completion.
pub complete_then_read :
    (conf : Settings) (s : Server) (id : String) (r : RawResult) (hash : Option String)
    (now : String)
    → prefix_of conf (s.claims id) ≡ conf.key_prefix
    → r.raw_error_code ≡ or_else r.body.error_code ""
    → (complete_task conf s id r hash now).1 ≡ returns tt
    → let db = (complete_task conf s id r hash now).0.db in
      ((reply : StatusReply) × (get_task_status conf db id ≡ some reply)
        × (reply.status ≡ result_status r))
      × (get_task_result conf db id none
          ≡ some (finished (some now) (record (r.body) { status = result_status r })))
complete_then_read conf s id r hash now p e h =
    let (stored, at, body, time) = completed_hash conf s id r hash now p h in
    let db = (complete_task conf s id r hash now).0.db in
    let full = record (r.body) { status = result_status r } in
    (
      (result_reply stored, read_status conf db id stored at, reply_of_payload stored r body e),
      read_result conf db id stored full at body
          ∙ ap (λ t. some (finished (some (text_of t)) full)) time,
    )

failed_hash :
    (conf : Settings) (s : Server) (id : String) (f : FailOrder) (now : String)
    → (fail_order conf id f now (s.claims id)).result_key ≡ key_of conf.key_prefix id
    → (fail_task conf s id f now).1 ≡ returns tt
    → (fail_task conf s id f now).0.db.results (key_of conf.key_prefix id)
      ≡ some (
          set_result
            (fail_order conf id f now (s.claims id)).result_mapping
            (or_else (s.db.results (key_of conf.key_prefix id)) blank_result))
unfolding fail_task
failed_hash conf s id f now k h =
    let o = fail_order conf id f now (s.claims id) in
    let x = finalize_task_records conf s o (s.claims id) in
    let (ok, same) = noted id (task_status_from_result_payload "failed" f.error_code) x h in
    let done = (commits conf s o (s.claims id) ok).result in
    ap (λ db. db.results (key_of conf.key_prefix id)) same
    ∙ subst
        (λ q.
          x.0.db.results q
          ≡ some (set_result o.result_mapping (or_else (s.db.results q) blank_result)))
        k done

failed_reply :
    (conf : Settings) (claim : Option TaskClaim) (id : String) (f : FailOrder) (now : String)
    (old : ResultHash)
    → old.result ≡ none
    → (f.error_code == "") ≡ false
    → let reply = result_reply (set_result (fail_order conf id f now claim).result_mapping old) in
      (reply.status ≡ (if f.error_code == "TIMEOUT_ERROR" then timeout else failed))
      × (reply.error_message ≡ some f.error_message)
unfolding fail_order set_result stored_status task_status_from_result_payload
failed_reply conf claim id f now old n c = rw n (rw c (refl, refl))

-- Where a failure under the process's own prefix returns and no payload was stored before, the status
-- that is read is the timeout for the timeout code and the failure for every other code that is
-- not empty, and the message is the failure's.
pub fail_then_read :
    (conf : Settings) (s : Server) (id : String) (f : FailOrder) (now : String)
    → (fail_order conf id f now (s.claims id)).result_key ≡ key_of conf.key_prefix id
    → (or_else (s.db.results (key_of conf.key_prefix id)) blank_result).result ≡ none
    → (f.error_code == "") ≡ false
    → (fail_task conf s id f now).1 ≡ returns tt
    → let db = (fail_task conf s id f now).0.db in
      (reply : StatusReply) × (get_task_status conf db id ≡ some reply)
      × (reply.status ≡ (if f.error_code == "TIMEOUT_ERROR" then timeout else failed))
      × (reply.error_message ≡ some f.error_message)
fail_then_read conf s id f now k n c h =
    let old = or_else (s.db.results (key_of conf.key_prefix id)) blank_result in
    let stored = set_result (fail_order conf id f now (s.claims id)).result_mapping old in
    let (st, msg) = failed_reply conf (s.claims id) id f now old n c in
    (
      result_reply stored,
      read_status conf (fail_task conf s id f now).0.db id stored (failed_hash conf s id f now k h),
      st,
      msg,
    )

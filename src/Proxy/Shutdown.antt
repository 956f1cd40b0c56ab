-- ===== src/Proxy/Shutdown.antt =====
-- The tasks of a running proxy (crates/pgferry/src/proxy.rs): `Proxy::serve`, `ProxyServer::shutdown`,
-- `ProxyServer::shutdown_graceful`.
use pgferry.Prelude.{
  ◌≡◌, refl, subst, ◌⊎◌, ◌∙◌, Option, none, some, List, [], ◌∷◌, Bool, true, false, not, ◌&&◌,
  arith, Option-cases, inl, inr,
}

-- Which tasks run and were not told to stop; the supervisor is the task behind the server's handle.
-- Whether the shutdown signal was sent. `abort` only tells a task to stop, at its next await, and is
-- not waited for: when a task that was aborted has ended is left open. The handlers that the metrics
-- endpoint spawned are left out; nothing stops them.
pub record Tasks : Type 0 where
  pub accept_loop : Bool
  pub sweeper : Bool
  pub metrics : Bool
  pub supervisor : Bool
  pub signalled : Bool

pub data Event : Type 0 where
  accept_loop_ends supervisor_goes_on : Event

unfoldable pub spawned : Bool → Tasks
spawned has_metrics = record {
  accept_loop = true;
  sweeper = true;
  metrics = has_metrics;
  supervisor = true;
  signalled = false;
}

-- `handle.abort()` stops the supervisor; the tasks that it waits for run on.
unfoldable pub shutdown : Tasks → Tasks
shutdown t = record t { signalled = true; supervisor = false }

-- The handle is awaited.
unfoldable pub shutdown_graceful : Tasks → Tasks
shutdown_graceful t = record t { signalled = true }

abbrev when : Bool → Tasks → Option Tasks
when true t = some t
when false t = none

-- The accept loop ends after the signal, with its sessions drained or aborted; then the supervisor
-- tells the other tasks to stop, and ends.
unfoldable pub on_task : Event → Tasks → Option Tasks
on_task accept_loop_ends t = when (t.accept_loop && t.signalled) (record t { accept_loop = false })
on_task supervisor_goes_on t =
    when (t.supervisor && not t.accept_loop)
      (record t { sweeper = false; metrics = false; supervisor = false })

unfoldable pub run_tasks : List Event → Tasks → Option Tasks
unfolding on_task
run_tasks [] t = some t
run_tasks (e ∷ es) t = elim (on_task e t) [ none ↦ none | some next ↦ run_tasks es next ]

-- A property that every task keeps holds at the end of a run.
keeps :
    (Holds : Tasks → Type 0)
    → ((e : Event) (t next : Tasks) → on_task e t ≡ some next → Holds t → Holds next)
    → (es : List Event) (t end : Tasks) → run_tasks es t ≡ some end
    → Holds t
    → Holds end
unfolding run_tasks
keeps Holds step [] t end h p = subst Holds (cc h) p
keeps Holds step (e ∷ es) t end h p = elim (Option-cases (on_task e t)) [
  | inl stuck ↦ absurd (ground (arith, stuck, h))
  | inr (next, goes) ↦
      let rest : run_tasks es next ≡ run_tasks (e ∷ es) t = rw (run_tasks, goes) refl in
      keeps Holds step es next end (rest ∙ h) (step e t next goes p)
]

-- The supervisor runs, or the tasks that it watches have ended.
abbrev Supervised : Tasks → Type 0
Supervised t =
    (t.supervisor ≡ true) ⊎ ((t.accept_loop ≡ false) × (t.sweeper ≡ false) × (t.metrics ≡ false))

on_task-Supervised :
    (e : Event) (t next : Tasks) → on_task e t ≡ some next → Supervised t → Supervised next
unfolding on_task
on_task-Supervised accept_loop_ends t next h (inl s) = inl (ground (arith, h, s))
on_task-Supervised accept_loop_ends t next h (inr s) = absurd (ground (arith, h, s.0))
on_task-Supervised supervisor_goes_on t next h s =
    inr (ground (arith, h), ground (arith, h), ground (arith, h))

-- A graceful shutdown, when its handle is through, has ended the accept loop, and told the sweeper
-- and the metrics endpoint to stop, in whatever order the tasks run.
run_tasks-stops :
    (has_metrics : Bool) (es : List Event) (end : Tasks)
    → run_tasks es (shutdown_graceful (spawned has_metrics)) ≡ some end
    → end.supervisor ≡ false
    → (end.accept_loop ≡ false) × (end.sweeper ≡ false) × (end.metrics ≡ false)
unfolding shutdown_graceful spawned
run_tasks-stops has_metrics es end h over =
    through (keeps Supervised on_task-Supervised es _ end h (inl refl))
  where
    through :
        Supervised end → (end.accept_loop ≡ false) × (end.sweeper ≡ false) × (end.metrics ≡ false)
    through (inl runs) = absurd (ground (arith, runs, over))
    through (inr all) = all

abbrev Unsupervised : Bool → Tasks → Type 0
Unsupervised has_metrics t = (t.supervisor ≡ false) × (t.sweeper ≡ true) × (t.metrics ≡ has_metrics)

on_task-Unsupervised :
    (has_metrics : Bool) (e : Event) (t next : Tasks)
    → on_task e t ≡ some next
    → Unsupervised has_metrics t
    → Unsupervised has_metrics next
unfolding on_task
on_task-Unsupervised has_metrics accept_loop_ends t next h (s, w, m) =
    (ground (arith, h, s), ground (arith, h, w), ground (arith, h, m))
on_task-Unsupervised has_metrics supervisor_goes_on t next h (s, w, m) =
    absurd (ground (arith, h, s))

-- An immediate shutdown stops neither the sweeper nor the metrics endpoint, however long the tasks
-- run on.
pub run_tasks-sweeps :
    (has_metrics : Bool) (es : List Event) (end : Tasks)
    → run_tasks es (shutdown (spawned has_metrics)) ≡ some end
    → (end.sweeper ≡ true) × (end.metrics ≡ has_metrics)
unfolding shutdown spawned
run_tasks-sweeps has_metrics es end h =
    let (_, sweeper, metrics) =
      keeps (Unsupervised has_metrics) (on_task-Unsupervised has_metrics) es _ end h
        (refl, refl, refl) in
    (sweeper, metrics)

-- ===== src/Workflow.antt =====
-- The coroutines of `WorkflowLifecycle` over the shared database (kernelgym/server/workflow_lifecycle.py): the
-- admission of a workflow, its controller, the reconciliation that ends it, and the wait for its result.
pub mod Controller
pub mod Reconcile
pub mod Waiting
pub mod Reasons
pub mod Closing
pub mod Own
pub mod Delivery

-- ===== src/WorkflowLint.antt =====
-- .github/actions/workflow-lint: the path filters of GitHub's workflows.
pub mod Paths
pub mod Ordered

-- ===== src/Domain/Labels.antt =====
-- internal/domain/task_labels.go: the texts and colours of the labels of a task.
pub mod Keys
pub mod Normal
pub mod Resolve

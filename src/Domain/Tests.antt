-- ===== src/Domain/Tests.antt =====
-- The theorems on internal/domain at concrete inputs.
mod GraphTests
mod LabelTests
mod UpdateTests

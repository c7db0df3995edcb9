-- ===== src/Wrappers.antt =====
-- The functions by which the program calls libuv: src/uv_util/safe_uv.c, the C layer that converts pointers, and
-- src/uv_util/reqs.cpp above it, whose overloads choose a function of the C layer by the types of their arguments.
pub mod Calls
pub mod SafeUv
pub mod Reqs
pub mod Forward
mod Tests

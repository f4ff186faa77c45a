-- ===== src/Compat.antt =====
-- ports/glibc-compat/src: functions of the C library that the Native Client's lacks.
pub mod At
pub mod TempName
pub mod Vectored

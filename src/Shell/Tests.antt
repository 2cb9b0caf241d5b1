-- ===== src/Shell/Tests.antt =====
-- A run of `SystemRtn` of exe_shell/src/main.c, and its theorem there.

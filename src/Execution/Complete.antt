-- ===== src/Execution/Complete.antt =====
-- A remote execution from its request to its result (src/runtime/session.ts, the cases
-- 'executionEvent' and 'executeResult').
use jupyter_pair_ext.Base.{List, nat_eq, string_eq}
use mathlib.Core.List.{Memᴰ}

-- ===== src/Tests/Files.antt =====
-- Renames that conflict (src/runtime/session.ts).
use jupyter_pair_ext.Base.{String, false, nat_eq, string_eq, length}
use jupyter_pair_ext.Base.Int.{ℤ, sub_ℕ}
use jupyter_pair_ext.Base.Js.{codes}
use jupyter_pair_ext.FileStates.{FileState}

-- A comparison by length.
abbrev by_length : String → String → ℤ
by_length a b = sub_ℕ (length (codes a)) (length (codes b))

abbrev older : FileState
older = record { version = 3; author = "anna"; kind = "text"; deleted = false }

abbrev newer : FileState
newer = record { version = 4; author = "bert"; kind = "text"; deleted = false }

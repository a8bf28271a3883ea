-- ===== src/Storage/Valid.antt =====
-- What the validation of a tree gives to an inspection (src/core/persistence.ts:
-- validateMaterializationManifest, inspectMaterializedProjectTree).
use jupyter_pair_ext.Base.{nat_eq, string_eq}
use jupyter_pair_ext.Base.Codes.{text_eq}

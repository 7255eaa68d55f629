-- ===== src/Utils/Compare.antt =====
-- library/utils/compare_helper.hpp: `content_type_contains`.
use ccnet_utilities.Common.{Bool, true, false, none, some, find, Bytes}
use ccnet_utilities.Utils.Copy.{to_lower_copy}

unfoldable pub content_type_contains : Bytes → Bytes → Bool
unfolding to_lower_copy find
content_type_contains ct sub = elim (find (to_lower_copy ct) (to_lower_copy sub)) [
  | none ↦ false
  | some i ↦ true
]

-- ===== src/ExecuteClass/Examples.antt =====
-- The class of named operations, and the size of the three lists.
use rustmistmcp.Prelude.{◌≡◌, refl, In, length}
use rustmistmcp.ExecuteClass.{
  excluded_execute_operations, diagnostic_execute_operations, gated_execute_operations,
}
use rustmistmcp.ExecuteClass.Partition.{contains_text_iff}

excluded_count : length excluded_execute_operations ≡ 13
excluded_count = refl

diagnostic_count : length diagnostic_execute_operations ≡ 40
diagnostic_count = refl

gated_count : length gated_execute_operations ≡ 116
gated_count = refl

login-In_gated : In "login" gated_execute_operations
login-In_gated = (contains_text_iff gated_execute_operations "login").0 refl

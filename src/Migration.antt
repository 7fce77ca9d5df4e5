-- ===== src/Migration.antt =====
-- src/migration: the results of a migration, and the items of old vaults that become wallets.
pub mod KeyFiles
pub mod AddToVault
pub mod V1
pub mod Complete
pub mod Created
use Prim.Native.String.{◌++◌ as append}
use emerald_rs.Prelude.{ℕ, String, Bool, true, false, List, [], ◌∷◌, ◌++◌, any}
use emerald_rs.Structs.{Uuid}

-- src/migration/types.rs
pub data LogMessage : Type 0 where
  error warning info : String → LogMessage

pub record MigrationResult : Type 0 where
  pub wallets : List Uuid
  pub logs : List LogMessage

abbrev pub default_result : MigrationResult
default_result = record { wallets = []; logs = [] }

abbrev pub log_error : String → MigrationResult → MigrationResult
log_error msg r = record r { logs = r.logs ++ LogMessage.error msg ∷ [] }

abbrev pub log_warn : String → MigrationResult → MigrationResult
log_warn msg r = record r { logs = r.logs ++ LogMessage.warning msg ∷ [] }

abbrev pub log_info : String → MigrationResult → MigrationResult
log_info msg r = record r { logs = r.logs ++ LogMessage.info msg ∷ [] }

abbrev pub set_wallets : List Uuid → MigrationResult → MigrationResult
set_wallets ids r = record r { wallets = ids }

abbrev pub get_msg : LogMessage → String
get_msg (LogMessage.error msg) = msg
get_msg (LogMessage.warning msg) = msg
get_msg (LogMessage.info msg) = msg

abbrev level_text : LogMessage → String
level_text (LogMessage.error _) = "ERROR  "
level_text (LogMessage.warning _) = "WARN   "
level_text (LogMessage.info _) = "INFO   "

unfoldable pub log_lines : List LogMessage → String
log_lines [] = ""
log_lines (l ∷ ls) = append (level_text l) (append (get_msg l) (append "\n" (log_lines ls)))

unfoldable pub logs_to_string : MigrationResult → String
unfolding log_lines
logs_to_string r = log_lines r.logs

abbrev pub is_problem : LogMessage → Bool
is_problem (LogMessage.info _) = false
is_problem _ = true

unfoldable pub has_log : MigrationResult → Bool
has_log r = any is_problem r.logs

-- ===== src/Dcgm/Errors.antt =====
-- internal/include/dcgm_errors.h: the codes of errors, their messages and the suggestions for them.
use gpu_metric_collector.Base.{List, ◌++◌}
use gpu_metric_collector.Dcgm.Errors.Formats.{ErrorMessage}
use gpu_metric_collector.Dcgm.Errors.Detected.{detected_messages}
use gpu_metric_collector.Dcgm.Errors.Running.{test_messages}
pub mod Formats
pub mod Codes
pub mod Detected
pub mod Running
pub mod Suggestions
pub mod Agreement
mod Tests

abbrev pub error_messages : List ErrorMessage
error_messages = detected_messages ++ test_messages

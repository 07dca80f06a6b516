-- ===== src/Dcgm/Errors/Tests.antt =====
-- Examples of the texts of internal/include/dcgm_errors.h.
use mathlib.Core.List.{Memᴰ}
use gpu_metric_collector.Base.{◌≡◌, refl, false, not, [], ◌∷◌, some}
use gpu_metric_collector.Base.Text.{bytes_of}
use gpu_metric_collector.Dcgm.Errors.Formats.{
  ErrorMessage, message, all_fit, conversions, arguments_of,
}
use gpu_metric_collector.Dcgm.Errors.Agreement.{is_divergent, error_messages-commented}

-- A long integer, a text and an unsigned integer; %% prints a percent sign.
conversions_of_text :
    conversions false (bytes_of "Got %ld %s at 90.5%% on GPU %u.") ≡ 100 ∷ 115 ∷ 117 ∷ []
unfolding conversions
conversions_of_text = refl

bracketed_comma :
    arguments_of 0 (bytes_of "id, way (a, b)") ≡ bytes_of "id" ∷ bytes_of " way (a, b)" ∷ []
unfolding arguments_of
bracketed_comma = refl

abbrev replay_rate : ErrorMessage
replay_rate =
    message "DCGM_FR_PCI_REPLAY_RATE_MSG" (some "replay limit, gpu id, replay errors detected")
      "Detected more than %u PCIe replays per minute for GPU %u : %d"

error_messages-commented_example :
    all_fit
      (arguments_of 0 (bytes_of "replay limit, gpu id, replay errors detected"))
      (conversions false (bytes_of "Detected more than %u PCIe replays per minute for GPU %u : %d"))
    ≡ not (is_divergent "DCGM_FR_PCI_REPLAY_RATE_MSG")
error_messages-commented_example =
    error_messages-commented replay_rate "replay limit, gpu id, replay errors detected"
      (Memᴰ.tail (Memᴰ.tail (Memᴰ.tail (Memᴰ.head refl)))) refl

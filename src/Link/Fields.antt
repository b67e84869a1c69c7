-- ===== src/Link/Fields.antt =====
-- firmware/pb_codec/high_to_low.pb.h: the generated bound on the length of a command, which is the size of
-- the firmware's buffer.
use ti_am62x_evse_sdk.Prelude.{ℕ}

-- `HighToLow_size`
abbrev pub high_to_low_size : ℕ
high_to_low_size = 9

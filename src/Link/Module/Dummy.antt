-- ===== src/Link/Module/Dummy.antt =====
-- everest-module/modules/TiAM625SDK/rpmsg_dummy_lib/ti_rpmsg_char.h: the library that builds for other
-- machines are linked with. It opens no device.
use ti_am62x_evse_sdk.Prelude.{none}
use ti_am62x_evse_sdk.Link.Module.{CharDevice}

-- `write` is the system's; with no device it is never called.
abbrev pub dummy : CharDevice
dummy = record {
  World = Unit {0};
  char_init = λ w. (0, w);
  char_open = λ w. (none, w);
  char_close = λ fd w. w;
  write = λ fd bytes w. (none, w);
}

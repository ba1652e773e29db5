-- ===== src/Transceiver/StsKeys.antt =====
-- src/transceiver/DW3000Controller.cpp: the loading of STS keys and initial vectors, with the cache
-- of the last key.
pub mod Cache
use aliro_ccc_core.Base.{Bool, true, false, not, ◌&&◌, List, [], ◌∷◌, ◌++◌, bytes_eq, if◌then◌else◌}
use aliro_ccc_core.Base.Words.{Bytes}
use aliro_ccc_core.Core.{Result, ok}
use aliro_ccc_core.Transceiver.Platform.{
  DecaConstant, dwt_sts_mode_off, dwt_sts_mode_1, dwt_sts_mode_nd, sts_key0, configure_sts_key,
  configure_sts_iv, configure_sts_load_iv, configure_sts_mode, write_to_device, Controller, issue,
}
use mathlib.Core.List.{reverse}

pub data StsMode : Type 0 where
  off standard_mode1 no_data_sp3 : StsMode

-- `packStsRegister`: the 16 bytes the other way round.
abbrev pub pack_sts_register : Bytes → Bytes
pack_sts_register = reverse

abbrev pub is_cached : Bytes → Controller → Bool
is_cached key c = c.sts_key_valid && bytes_eq key c.last_sts_key

unfoldable pub load_sts_key : Bytes → Controller → Result (Unit {0}) × Controller
load_sts_key key c = if is_cached key c then (ok tt, c) else (
  ok tt,
  record (issue (configure_sts_key (pack_sts_register key)) c) {
    last_sts_key = key;
    sts_key_valid = true;
  },
)

unfoldable pub load_sts_iv : Bytes → Controller → Result (Unit {0}) × Controller
load_sts_iv iv c =
    (ok tt, issue configure_sts_load_iv (issue (configure_sts_iv (pack_sts_register iv)) c))

-- The key and the vector stand in adjacent registers and are written at once.
unfoldable pub load_sts_key_iv : Bytes → Bytes → Controller → Result (Unit {0}) × Controller
load_sts_key_iv key iv c =
    let blob = pack_sts_register key ++ pack_sts_register iv in
    let written = issue (write_to_device sts_key0 blob) c in
    let cached =
      (if not (is_cached key c)
        then record written { last_sts_key = key; sts_key_valid = true }
        else written) in
    (ok tt, issue configure_sts_load_iv cached)

abbrev pub deca_sts_mode : StsMode → DecaConstant
deca_sts_mode off = dwt_sts_mode_off
deca_sts_mode standard_mode1 = dwt_sts_mode_1
deca_sts_mode no_data_sp3 = dwt_sts_mode_nd

-- `configureStsMode` cannot fail.
unfoldable pub set_sts_mode : StsMode → Controller → Controller
set_sts_mode mode c = issue (configure_sts_mode (deca_sts_mode mode)) c

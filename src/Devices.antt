-- ===== src/Devices.antt =====
-- devices/kind.py, devices/capability.py, protocol/base.py, firmware.py and commands/base.py: the enumerations of a
-- session and the declarative commands.
pub mod Session
pub mod Balance
pub mod Models
use sartoriuslib.Prelude.{ℕ, String, Option, List, [], ◌∷◌, Bool, true, false, ◌||◌, ◌==◌}
use sartoriuslib.Prelude.Int.{ℤ}
use sartoriuslib.Prelude.Bytes.{Bytes}
use sartoriuslib.Errors.Result.{Result}
use sartoriuslib.Xbpi.Types.{XbpiFrame}
use sartoriuslib.Sbi.Types.{SbiReply}

pub data ProtocolKind : Type 0 where
  auto xbpi sbi : ProtocolKind

-- `is` on the kinds of protocol.
abbrev pub same_protocol : ProtocolKind → ProtocolKind → Bool
same_protocol auto auto = true
same_protocol xbpi xbpi = true
same_protocol sbi sbi = true
same_protocol auto xbpi = false
same_protocol auto sbi = false
same_protocol xbpi auto = false
same_protocol xbpi sbi = false
same_protocol sbi auto = false
same_protocol sbi xbpi = false

pub data BalanceFamily : Type 0 where
  cubis oem_weigh_cell basic_lab unknown : BalanceFamily

pub data SafetyTier : Type 0 where
  read_only stateful persistent dangerous : SafetyTier

pub record FirmwareVersion : Type 0 where
  pub major : ℕ
  pub minor : ℕ
  pub patch : ℕ
  pub raw : Option String

abbrev family_tag : BalanceFamily → ℕ
family_tag cubis = 0
family_tag oem_weigh_cell = 1
family_tag basic_lab = 2
family_tag unknown = 3

-- family in hints
abbrev pub in_families : BalanceFamily → List BalanceFamily → Bool
in_families family [] = false
in_families family (hint ∷ hints) = family_tag family == family_tag hint || in_families family hints

-- `Capability` is a bitmap; CONFIG_COUNTER is its sixth flag.
abbrev pub config_counter_flag : ℕ
config_counter_flag = 32

pub record CommandContext : Type 0 where
  pub protocol : ProtocolKind
  pub src_sbn : ℤ
  pub dst_sbn : ℤ
  pub firmware : Option FirmwareVersion
  pub family : BalanceFamily

pub record XbpiVariant (Req Resp : Type 0) : Type 0 where
  pub opcode : ℕ
  pub encode : CommandContext → Req → Result Bytes
  pub decode : XbpiFrame → CommandContext → Result Resp

-- `R` is the type of readings.
pub record SbiVariant (R Req Resp : Type 0) : Type 0 where
  pub token : Bytes
  pub expect_lines : ℤ
  pub encode : CommandContext → Req → Result Bytes
  pub decode : SbiReply R → CommandContext → Result Resp

pub record Command (R Req Resp : Type 0) : Type 0 where
  pub name : String
  pub xbpi_variant : Option (XbpiVariant Req Resp)
  pub sbi_variant : Option (SbiVariant R Req Resp)
  pub family_hints : List BalanceFamily
  pub capability_hints : ℕ
  pub safety : SafetyTier
  pub min_firmware : Option FirmwareVersion
  pub max_firmware : Option FirmwareVersion
  pub parameterized : Bool

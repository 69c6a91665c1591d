-- ===== src/Message.antt =====
-- include/sdmessage.pb-c.h (generated from sdmessage.proto): the messages between clients and
-- servers, as the program reads and fills their fields.
pub mod Opcode
pub mod CType
use sd_projeto.Base.{ℕ, ℤ, pos, ◌==◌, List, [], Option, none, some, Bool, ◌&&◌}
use sd_projeto.CString.{CString}
use sd_projeto.Data.{Bytes}
use sd_projeto.EntryList.{KeyArray}
use sd_projeto.Stats.{Statistics}

-- `ProtobufCBinaryData`; `content` is its field `data`.
pub record Binary : Type 0 where
  pub len : ℕ
  pub content : Option Bytes

pub record EntryT : Type 0 where
  pub key : Option CString
  pub value : Binary

-- The `StatisticsT` of a message has the fields of `struct statistics_t`.
pub record MessageT : Type 0 where
  pub opcode : ℕ
  pub c_type : ℕ
  pub entry : Option EntryT
  pub key : Option CString
  pub value : Binary
  pub result : ℤ
  pub n_keys : ℕ
  pub keys : Option KeyArray
  pub n_entries : ℕ
  pub entries : Option (List (Option EntryT))
  pub stats : Option Statistics

abbrev pub no_bytes : Binary
no_bytes = record { len = 0; content = none }

-- `MESSAGE_T__INIT`, which `message_t__init` assigns.
abbrev pub message_init : MessageT
message_init = record {
  opcode = Opcode.bad;
  c_type = CType.bad;
  entry = none;
  key = some [];
  value = no_bytes;
  result = pos 0;
  n_keys = 0;
  keys = none;
  n_entries = 0;
  entries = none;
  stats = none;
}

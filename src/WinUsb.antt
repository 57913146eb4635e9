-- ===== src/WinUsb.antt =====
-- The descriptors with which Windows finds its driver for a device:
-- s13_usb/src/bin/s13c04_1winusb_1device_level.rs is modelled here, PerFunction is
-- s13c04_1winusb_2per_function.rs, Host is what the host does with them, and WebUsb is
-- s13s04_2webusb.rs. The structs hold only bytes and are `repr(C)`, so that `any_as_u8_slice` is the
-- fields one after another. The USB stack, which answers the other requests, is not modelled.
pub mod PerFunction
pub mod WebUsb
pub mod Host
pub mod Found
mod Tests
use rust_on_stm32_notebook.Common.{
  ℕ, ◌+◌, ◌-◌, ◌*◌, ◌/◌, ◌%◌, ◌==◌, Bool, true, false, ◌&&◌, if◌then◌else◌, List, [], ◌∷◌, ◌++◌,
  Option, none, some, length, take, replicate, ltb,
}

-- `u16::to_le_bytes`, `u16::to_be_bytes` and `u32::to_le_bytes`
abbrev pub u16_le : ℕ → List ℕ
u16_le n = (n % 256) ∷ (n / 256 % 256) ∷ []

abbrev pub u16_be : ℕ → List ℕ
u16_be n = (n / 256 % 256) ∷ (n % 256) ∷ []

abbrev pub u32_le : ℕ → List ℕ
u32_le n = u16_le n ++ u16_le (n / 65536)

pub record PlatCapUuid : Type 0 where
  pub g0 : List ℕ
  pub g1 : List ℕ
  pub g2 : List ℕ
  pub g3 : List ℕ
  pub g4 : List ℕ

pub record MsOs20DescPlatCapDesc : Type 0 where
  pub b_reserved : ℕ
  pub plat_cap_uuid : PlatCapUuid
  pub dw_win_version : List ℕ
  pub w_ms_os_desc_set_total_length : List ℕ
  pub b_ms_vendor_code : ℕ
  pub b_alt_enum_code : ℕ

abbrev pub uuid_slice : PlatCapUuid → List ℕ
uuid_slice u = u.g0 ++ (u.g1 ++ (u.g2 ++ (u.g3 ++ u.g4)))

abbrev pub plat_cap_slice : MsOs20DescPlatCapDesc → List ℕ
plat_cap_slice d =
    d.b_reserved
    ∷ (uuid_slice d.plat_cap_uuid
        ++ (d.dw_win_version
            ++ (d.w_ms_os_desc_set_total_length ++ (d.b_ms_vendor_code ∷ d.b_alt_enum_code ∷ []))))

pub record CompatId : Type 0 where
  pub w_length : List ℕ
  pub w_desc_type : List ℕ
  pub compat_id : List ℕ
  pub sub_compat_id : List ℕ

abbrev pub compat_id_slice : CompatId → List ℕ
compat_id_slice c = c.w_length ++ (c.w_desc_type ++ (c.compat_id ++ c.sub_compat_id))

-- `size_of::<CompatID>()` and `size_of::<MsOs20DescSet>()`: the sums of the fields
abbrev pub size_of_compat_id : ℕ
size_of_compat_id = 2 + 2 + 8 + 8

abbrev pub size_of_desc_set : ℕ
size_of_desc_set = 2 + 2 + 4 + 2 + size_of_compat_id

pub record MsOs20DescSet : Type 0 where
  pub w_length : List ℕ
  pub w_desc_type : List ℕ
  pub dw_win_version : List ℕ
  pub w_total_length : List ℕ
  pub comp_id : CompatId

unfoldable pub desc_set_slice : MsOs20DescSet → List ℕ
desc_set_slice d =
    d.w_length
    ++ (d.w_desc_type ++ (d.dw_win_version ++ (d.w_total_length ++ compat_id_slice d.comp_id)))

-- the platform capability, for a set of descriptors of the given size
unfoldable pub ms_os_20_desc_plat_cap_desc : ℕ → MsOs20DescPlatCapDesc
ms_os_20_desc_plat_cap_desc size = record {
  b_reserved = 0x00;
  plat_cap_uuid = record {
    g0 = u32_le 0xD8DD60DF;
    g1 = u16_le 0x4589;
    g2 = u16_le 0x4CC7;
    g3 = u16_be 0x9CD2;
    g4 = 0x65 ∷ 0x9D ∷ 0x9E ∷ 0x64 ∷ 0x8A ∷ 0x9F ∷ [];
  };
  dw_win_version = u32_le 0x06030000;
  w_ms_os_desc_set_total_length = u16_le size;
  b_ms_vendor_code = 0x20;
  b_alt_enum_code = 0x00;
}

-- `b"WINUSB\0\0"`
abbrev pub winusb : List ℕ
winusb = 87 ∷ 73 ∷ 78 ∷ 85 ∷ 83 ∷ 66 ∷ 0 ∷ 0 ∷ []

unfoldable pub winusb_compat_id : CompatId
winusb_compat_id = record {
  w_length = u16_le size_of_compat_id;
  w_desc_type = u16_le 0x03;
  compat_id = winusb;
  sub_compat_id = replicate 8 0x00;
}

unfoldable pub ms_os_20_desc_set : MsOs20DescSet
ms_os_20_desc_set = record {
  w_length = u16_le (size_of_desc_set - size_of_compat_id);
  w_desc_type = u16_le 0x00;
  dw_win_version = u32_le 0x06030000;
  w_total_length = u16_le size_of_desc_set;
  comp_id = winusb_compat_id;
}

-- the capability type and the data that `get_bos_descriptors` hands to the writer
unfoldable pub get_bos_descriptors : ℕ × List ℕ
get_bos_descriptors = (0x5, plat_cap_slice (ms_os_20_desc_plat_cap_desc size_of_desc_set))

-- The calls of the DescriptorWriter: an interface with its class, subclass and protocol, and an
-- interface association with the first interface and their number.
pub data WriterCall : Type 0 where
  interface : ℕ → ℕ → ℕ → ℕ → WriterCall
  iad : ℕ → ℕ → ℕ → ℕ → ℕ → WriterCall

-- The interface number is the one that the stack has allocated.
unfoldable pub get_configuration_descriptors : ℕ → List WriterCall
get_configuration_descriptors iface_index = interface iface_index 0xFF 0x00 0x00 ∷ []

pub data RequestType : Type 0 where
  standard class vendor reserved : RequestType

pub record Request : Type 0 where
  pub request_type : RequestType
  pub request : ℕ
  pub value : ℕ
  pub index : ℕ
  pub length : ℕ

abbrev pub is_vendor : RequestType → Bool
is_vendor vendor = true
is_vendor _ = false

-- `control_in` for the slice of a set of descriptors: the data of `accept_with_static`, or none where
-- it leaves the request to the stack.
unfoldable pub control_in : List ℕ → Request → Option (List ℕ)
control_in winusb_desc req =
    if is_vendor req.request_type && (req.request == 0x20 && (req.index == 0x7 && req.value == 0x0))
    then some (
        take (if ltb req.length (length winusb_desc) then req.length else length winusb_desc)
          winusb_desc)
    else none

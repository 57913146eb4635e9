-- ===== src/WinUsb/PerFunction.antt =====
-- s13_usb/src/bin/s13c04_1winusb_2per_function.rs: two functions, the second of two interfaces, each
-- with its own compatible ID.
use rust_on_stm32_notebook.Common.{ℕ, ◌+◌, ◌-◌, ◌*◌, List, [], ◌∷◌, ◌++◌, Option}
use rust_on_stm32_notebook.WinUsb
use rust_on_stm32_notebook.WinUsb.{
  u16_le, u32_le, CompatId, compat_id_slice, size_of_compat_id, winusb_compat_id, plat_cap_slice,
  ms_os_20_desc_plat_cap_desc, WriterCall, interface, iad, Request,
}

pub record FuncSubset : Type 0 where
  pub w_length : List ℕ
  pub w_desc_type : List ℕ
  pub b_first_iface : ℕ
  pub b_reserved : ℕ
  pub w_subset_length : List ℕ
  pub comp_id : CompatId

-- The array of two is a pair.
pub record ConfSubset : Type 0 where
  pub w_length : List ℕ
  pub w_desc_type : List ℕ
  pub b_conf_value : ℕ
  pub b_reserved : ℕ
  pub w_total_length : List ℕ
  pub func_subset : FuncSubset × FuncSubset

-- The array of one is its element.
pub record MsOs20DescSet : Type 0 where
  pub w_length : List ℕ
  pub w_desc_type : List ℕ
  pub dw_win_version : List ℕ
  pub w_total_length : List ℕ
  pub conf_subset : ConfSubset

abbrev pub size_of_func_subset : ℕ
size_of_func_subset = 2 + 2 + 1 + 1 + 2 + size_of_compat_id

abbrev pub size_of_conf_subset : ℕ
size_of_conf_subset = 2 + 2 + 1 + 1 + 2 + 2 * size_of_func_subset

abbrev pub size_of_desc_set : ℕ
size_of_desc_set = 2 + 2 + 4 + 2 + size_of_conf_subset

abbrev pub func_subset_slice : FuncSubset → List ℕ
func_subset_slice f =
    f.w_length
    ++ (f.w_desc_type
        ++ (f.b_first_iface ∷ f.b_reserved ∷ (f.w_subset_length ++ compat_id_slice f.comp_id)))

abbrev pub conf_subset_slice : ConfSubset → List ℕ
conf_subset_slice c =
    c.w_length
    ++ (c.w_desc_type
        ++ (c.b_conf_value
            ∷ c.b_reserved
            ∷ (c.w_total_length
                ++ (func_subset_slice c.func_subset.0 ++ func_subset_slice c.func_subset.1))))

unfoldable pub desc_set_slice : MsOs20DescSet → List ℕ
desc_set_slice d =
    d.w_length
    ++ (d.w_desc_type
        ++ (d.dw_win_version ++ (d.w_total_length ++ conf_subset_slice d.conf_subset)))

-- the two elements of `func_subset`, which differ in their first interface
unfoldable pub func_subset : ℕ → FuncSubset
func_subset b_first_iface = record {
  w_length = u16_le (size_of_func_subset - size_of_compat_id);
  w_desc_type = u16_le 0x02;
  b_first_iface = b_first_iface;
  b_reserved = 0x00;
  w_subset_length = u16_le size_of_func_subset;
  comp_id = winusb_compat_id;
}

unfoldable pub ms_os_20_desc_set : MsOs20DescSet
ms_os_20_desc_set = record {
  w_length = u16_le (size_of_desc_set - size_of_conf_subset);
  w_desc_type = u16_le 0x00;
  dw_win_version = u32_le 0x06030000;
  w_total_length = u16_le size_of_desc_set;
  conf_subset = record {
    w_length = u16_le (size_of_conf_subset - 2 * size_of_func_subset);
    w_desc_type = u16_le 0x01;
    b_conf_value = 0;
    b_reserved = 0x00;
    w_total_length = u16_le size_of_conf_subset;
    func_subset = (func_subset 0, func_subset 1);
  };
}

-- The platform capability is the same but for the size.
unfoldable pub get_bos_descriptors : ℕ × List ℕ
get_bos_descriptors = (0x5, plat_cap_slice (ms_os_20_desc_plat_cap_desc size_of_desc_set))

unfoldable pub get_configuration_descriptors : ℕ → ℕ → ℕ → List WriterCall
get_configuration_descriptors iface0_index iad0_iface0_index iad0_iface1_index =
    interface iface0_index 0xFF 0x00 0x00
    ∷ iad iad0_iface0_index 2 0xFF 0x00 0x00
    ∷ interface iad0_iface0_index 0xFF 0x00 0x00
    ∷ interface iad0_iface1_index 0xFF 0x00 0x00
    ∷ []

unfoldable pub control_in : Request → Option (List ℕ)
control_in = WinUsb.control_in (desc_set_slice ms_os_20_desc_set)

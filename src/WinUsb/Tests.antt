-- ===== src/WinUsb/Tests.antt =====
-- The descriptors of s13_usb/src/bin on concrete requests.
use rust_on_stm32_notebook.Common.{
  ℕ, ◌≡◌, ◌≤◌, refl, arith, List, [], ◌∷◌, none, some, length, take,
}
use rust_on_stm32_notebook.WinUsb.{
  winusb, winusb_compat_id, desc_set_slice, ms_os_20_desc_set, get_bos_descriptors, control_in,
}
use rust_on_stm32_notebook.WinUsb.PerFunction
use rust_on_stm32_notebook.WinUsb.WebUsb
use rust_on_stm32_notebook.WinUsb.Host.{enumerate, functions, for_each, descriptor_request}
use rust_on_stm32_notebook.WinUsb.Found.{device_is_found, functions_are_found, answers_only_asked}
use rust_on_stm32_notebook.WinUsb.WebUsb.{landing_page, address, landing_page_is_found}

abbrev device_set : List ℕ
device_set = 10 ∷ 0 ∷ 0 ∷ 0 ∷ 0 ∷ 0 ∷ 3 ∷ 6 ∷ 30 ∷ 0 ∷ []

first_ten :
    control_in (desc_set_slice ms_os_20_desc_set) (descriptor_request 0x20 10) ≡ some device_set
unfolding control_in desc_set_slice ms_os_20_desc_set winusb_compat_id
first_ten = refl

other_code : PerFunction.control_in (descriptor_request 0x21 10) ≡ none
unfolding PerFunction.control_in control_in
other_code = refl

per_function_length : length (PerFunction.desc_set_slice PerFunction.ms_os_20_desc_set) ≡ 74
unfolding PerFunction.desc_set_slice PerFunction.ms_os_20_desc_set PerFunction.func_subset
    winusb_compat_id
per_function_length = refl

device_found_at_10 :
    enumerate get_bos_descriptors (control_in (desc_set_slice ms_os_20_desc_set)) 10
    ≡ some (record { first_iface = none; compat_id = winusb } ∷ [])
device_found_at_10 = device_is_found 10 (omega arith)

functions_are_found_example :
    enumerate PerFunction.get_bos_descriptors PerFunction.control_in 64
    ≡ some (for_each winusb (functions 0 (PerFunction.get_configuration_descriptors 0 1 2)))
functions_are_found_example = functions_are_found 64 (omega arith)

asked_only :
    (descriptor_request 0x20 10 ≡ descriptor_request 0x20 10)
    × ((length device_set ≤ 10)
        × (device_set ≡ take (length device_set) (desc_set_slice ms_os_20_desc_set)))
asked_only =
    answers_only_asked (desc_set_slice ms_os_20_desc_set) (descriptor_request 0x20 10) device_set
      first_ten

page_found_at_255 :
    landing_page WebUsb.get_bos_descriptors WebUsb.control_in 255 ≡ some (0, address)
page_found_at_255 = landing_page_is_found 255 (omega arith)

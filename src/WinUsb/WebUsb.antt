-- ===== src/WinUsb/WebUsb.antt =====
-- s13_usb/src/bin/s13s04_2webusb.rs: the descriptors with which a browser finds the landing page of a
-- device.
use rust_on_stm32_notebook.Common.{
  ℕ, zero, suc, ◌+◌, ◌%◌, ◌==◌, ◌≡◌, ◌≤◌, refl, ap, ◌&&◌, if◌then◌else◌, List, [], ◌∷◌, ◌++◌,
  Option, none, some, length, take, drop, arith,
}
use rust_on_stm32_notebook.WinUsb.{
  u16_le, u16_be, u32_le, PlatCapUuid, uuid_slice, WriterCall, interface, Request, is_vendor,
  vendor,
}
use rust_on_stm32_notebook.WinUsb.Host.{◌>>=◌, ◌>>◌, pure, check, byte_at, same_bytes}

pub record WebUsbPlatCapDesc : Type 0 where
  pub b_reserved : ℕ
  pub plat_cap_uuid : PlatCapUuid
  pub bcd_version : List ℕ
  pub b_vendor_code : ℕ
  pub i_landing_page : ℕ

abbrev pub plat_cap_slice : WebUsbPlatCapDesc → List ℕ
plat_cap_slice d =
    d.b_reserved
    ∷ (uuid_slice d.plat_cap_uuid ++ (d.bcd_version ++ (d.b_vendor_code ∷ d.i_landing_page ∷ [])))

unfoldable pub webusb_plat_cap_desc : WebUsbPlatCapDesc
webusb_plat_cap_desc = record {
  b_reserved = 0x00;
  plat_cap_uuid = record {
    g0 = u32_le 0x3408B638;
    g1 = u16_le 0x09A9;
    g2 = u16_le 0x47A0;
    g3 = u16_be 0x8BFD;
    g4 = 0xA0 ∷ 0x76 ∷ 0x88 ∷ 0x15 ∷ 0xB6 ∷ 0x65 ∷ [];
  };
  bcd_version = u16_le 0x0100;
  b_vendor_code = 0x30;
  i_landing_page = 0x31;
}

pub record WebUsbVendorDesc : Type 0 where
  pub b_length : ℕ
  pub b_desc_type : ℕ
  pub b_scheme : ℕ
  pub url : List ℕ

abbrev pub vendor_desc_slice : WebUsbVendorDesc → List ℕ
vendor_desc_slice d = d.b_length ∷ d.b_desc_type ∷ d.b_scheme ∷ d.url

-- `b"127.0.0.1"`
abbrev pub address : List ℕ
address = 49 ∷ 50 ∷ 55 ∷ 46 ∷ 48 ∷ 46 ∷ 48 ∷ 46 ∷ 49 ∷ []

unfoldable pub webusb_vendor_desc : WebUsbVendorDesc
webusb_vendor_desc = record {
  b_length = (1 + 1 + 1 + 9) % 256;
  b_desc_type = 0x03;
  b_scheme = 0x00;
  url = address;
}

unfoldable pub get_bos_descriptors : ℕ × List ℕ
get_bos_descriptors = (0x5, plat_cap_slice webusb_plat_cap_desc)

unfoldable pub get_configuration_descriptors : ℕ → List WriterCall
get_configuration_descriptors iface_index = interface iface_index 0xFF 0x00 0x00 ∷ []

unfoldable pub control_in : Request → Option (List ℕ)
control_in req =
    if is_vendor req.request_type
      && (req.request == 0x30 && (req.value == 0x31 && req.index == 0x02))
    then some (vendor_desc_slice webusb_vendor_desc)
    else none

-- 3408B638-09A9-47A0-8BFD-A0768815B665, as it stands in a descriptor
abbrev webusb_uuid : List ℕ
webusb_uuid =
    0x38 ∷ 0xB6 ∷ 0x08 ∷ 0x34 ∷ 0xA9 ∷ 0x09 ∷ 0xA0 ∷ 0x47 ∷ 0x8B ∷ 0xFD ∷ 0xA0 ∷ 0x76 ∷ 0x88 ∷ 0x15
    ∷ 0xB6 ∷ 0x65 ∷ []

-- What a browser does, after the specification of WebUSB: it looks for the capability, asks with its
-- vendor code for the page with its number (the index 2 is GET_URL) with room for n bytes, of which the
-- bus gives at most n, and takes the scheme and the address from an answer whose first byte is its
-- length and whose type is 3.
unfoldable pub landing_page : ℕ × List ℕ → (Request → Option (List ℕ)) → ℕ → Option (ℕ × List ℕ)
landing_page bos control n = do
  check (bos.0 == 5 && same_bytes (take 16 (drop 1 bos.1)) webusb_uuid)
  code ← byte_at bos.1 19
  page ← byte_at bos.1 20
  sent ←
      control
        (record { request_type = vendor; request = code; value = page; index = 2; length = n })
  size ← byte_at (take n sent) 0
  kind ← byte_at (take n sent) 1
  scheme ← byte_at (take n sent) 2
  check (size == length (take n sent) && kind == 3)
  pure (scheme, drop 3 (take n sent))

take-whole : (n : ℕ) (bs : List ℕ) → length bs ≤ n → take n bs ≡ bs
take-whole zero [] h = refl
take-whole zero (b ∷ bs) h = absurd (omega arith)
take-whole (suc n) [] h = refl
take-whole (suc n) (b ∷ bs) h = ap (λ t. b ∷ t) (take-whole n bs (omega arith))

-- A browser that leaves room for at least the twelve bytes of the descriptor finds the landing page
-- http (scheme 0) and 127.0.0.1: the capability, the request that it leads to, and the length in the
-- answer agree.
pub landing_page_is_found :
    (n : ℕ) → 12 ≤ n → landing_page get_bos_descriptors control_in n ≡ some (0, address)
unfolding landing_page get_bos_descriptors control_in webusb_plat_cap_desc webusb_vendor_desc
landing_page_is_found n h =
    rw (take-whole n (vendor_desc_slice webusb_vendor_desc) (omega arith)) refl

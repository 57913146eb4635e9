-- ===== src/WinUsb/Host.antt =====
-- An independent description of what Windows does with the descriptors of
-- s13_usb/src/bin/s13c04_1winusb_1device_level.rs and s13c04_1winusb_2per_function.rs, after the
-- specification of Microsoft OS 2.0 descriptors: it looks for the platform capability, asks for the
-- set of descriptors with the vendor code and the length announced there, and walks it by the lengths
-- of its parts.
use rust_on_stm32_notebook.Common.{
  ℕ, zero, suc, ◌+◌, ◌-◌, ◌*◌, ◌==◌, Bool, true, false, ◌&&◌, ◌||◌, if◌then◌else◌, List, [], ◌∷◌,
  ◌++◌, Option, none, some, length, take, drop, get_elem?,
}
use rust_on_stm32_notebook.WinUsb.{Request, vendor, WriterCall, interface, iad}

infixl 5 ◌>>=◌ ◌>>◌
abbrev pub ◌>>=◌ : {A B : Type 0} → Option A → (A → Option B) → Option B
none >>= f = none
some a >>= f = f a

abbrev pub ◌>>◌ : {B : Type 0} → Option (Unit {0}) → Option B → Option B
m >> k = m >>= λ _. k

abbrev pub pure : {A : Type 0} → A → Option A
pure a = some a

abbrev pub check : Bool → Option (Unit {0})
check b = if b then some tt else none

abbrev pub byte_at : List ℕ → ℕ → Option ℕ
byte_at bs i = get_elem? bs i

abbrev pub u16_at : List ℕ → ℕ → Option ℕ
u16_at bs i = byte_at bs i >>= (λ low. byte_at bs (i + 1) >>= (λ high. some (low + 256 * high)))

-- A compatible ID, of the whole device or of the function that begins at an interface.
pub record Found : Type 0 where
  pub first_iface : Option ℕ
  pub compat_id : List ℕ

abbrev pub both : Option (List Found) → Option (List Found) → Option (List Found)
both (some xs) (some ys) = some (xs ++ ys)
both _ _ = none

-- The parts of a set: a compatible ID of 20 bytes, or the head of a subset, of the configuration or of
-- the function that begins at an interface, with the length of the subset.
unfoldable pub features : ℕ → Option ℕ → List ℕ → Option (List Found)
features zero scope bs = none
features (suc fuel) scope [] = some []
features (suc fuel) scope (l0 ∷ l1 ∷ t0 ∷ t1 ∷ a ∷ b ∷ c ∷ d ∷ bs) =
    let part_length = l0 + 256 * l1 in
    let part_type = t0 + 256 * t1 in
    let size = c + 256 * d - 8 in
    let inside = features fuel (if part_type == 2 then some a else scope) (take size bs) in
    let rest = features fuel scope (drop (if part_type == 3 then 12 else size) bs) in
    let found : Found = record { first_iface = scope; compat_id = a ∷ b ∷ c ∷ d ∷ take 4 bs } in
    if part_type == 3 && part_length == 20
    then both (some (found ∷ [])) rest
    else if (part_type == 1 || part_type == 2) && part_length == 8
    then both inside rest
    else none
features (suc fuel) scope bs = none

-- A whole set: its header, and a total length that is the number of bytes.
unfoldable pub desc_set : List ℕ → Option (List Found)
desc_set bs = do
  header ← u16_at bs 0
  desc_type ← u16_at bs 2
  total ← u16_at bs 8
  check (header == 10 && (desc_type == 0 && total == length bs))
  features 5 none (drop 10 bs)

abbrev pub same_bytes : List ℕ → List ℕ → Bool
same_bytes [] [] = true
same_bytes (a ∷ xs) (b ∷ ys) = let rest = same_bytes xs ys in if a == b then rest else false
same_bytes _ _ = false

-- D8DD60DF-4589-4CC7-9CD2-659D9E648A9F, as it stands in a descriptor
abbrev ms_os_20_uuid : List ℕ
ms_os_20_uuid =
    0xDF ∷ 0x60 ∷ 0xDD ∷ 0xD8 ∷ 0x89 ∷ 0x45 ∷ 0xC7 ∷ 0x4C ∷ 0x9C ∷ 0xD2 ∷ 0x65 ∷ 0x9D ∷ 0x9E ∷ 0x64
    ∷ 0x8A ∷ 0x9F ∷ []

-- `MS_OS_20_DESCRIPTOR_INDEX` is 7.
abbrev pub descriptor_request : ℕ → ℕ → Request
descriptor_request code n = record {
  request_type = vendor;
  request = code;
  value = 0;
  index = 7;
  length = n;
}

-- The host reads the head of the set with room for n bytes, then the whole.
unfoldable pub enumerate : ℕ × List ℕ → (Request → Option (List ℕ)) → ℕ → Option (List Found)
enumerate bos control n = do
  check (bos.0 == 5 && same_bytes (take 16 (drop 1 bos.1)) ms_os_20_uuid)
  announced ← u16_at bos.1 21
  code ← byte_at bos.1 23
  head ← control (descriptor_request code n)
  total ← u16_at head 8
  whole ← control (descriptor_request code total)
  check (total == announced)
  desc_set whole

-- The functions of a configuration: an interface association takes the interfaces that follow.
unfoldable pub functions : ℕ → List WriterCall → List ℕ
functions taken [] = []
functions taken (iad first n c s p ∷ calls) = first ∷ functions n calls
functions zero (interface i c s p ∷ calls) = i ∷ functions 0 calls
functions (suc taken) (interface i c s p ∷ calls) = functions taken calls

-- One compatible ID for each of these functions.
unfoldable pub for_each : List ℕ → List ℕ → List Found
for_each compat_id [] = []
for_each compat_id (i ∷ is) =
    record { first_iface = some i; compat_id = compat_id } ∷ for_each compat_id is

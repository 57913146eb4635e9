-- ===== src/WinUsb/Found.antt =====
-- What Windows finds with the descriptors of s13_usb/src/bin/s13c04_1winusb_1device_level.rs and
-- s13c04_1winusb_2per_function.rs.
use rust_on_stm32_notebook.Common.{
  ℕ, zero, suc, ◌+◌, ◌≡◌, ◌≤◌, ◌<◌, refl, ap, Bool, true, false, if◌then◌else◌, List, [], ◌∷◌, none,
  some, length, take, ◌&&◌, ◌==◌, ==→eq, Bool-cases, inl, inr, get_elem?, ltb, arith,
}
use rust_on_stm32_notebook.WinUsb.{
  winusb, winusb_compat_id, desc_set_slice, ms_os_20_desc_plat_cap_desc, ms_os_20_desc_set,
  get_bos_descriptors, Request, RequestType, standard, class, vendor, reserved, is_vendor,
  control_in,
}
use rust_on_stm32_notebook.WinUsb.PerFunction
use rust_on_stm32_notebook.WinUsb.Host.{
  features, desc_set, enumerate, functions, for_each, u16_at, descriptor_request,
}

get_elem?-take :
    {A : Type 0} (xs : List A) (k i : ℕ) → i < k → get_elem? (take k xs) i ≡ get_elem? xs i
get_elem?-take [] zero i h = refl
get_elem?-take [] (suc k) i h = refl
get_elem?-take (x ∷ xs) zero i h = absurd (omega arith)
get_elem?-take (x ∷ xs) (suc k) zero h = refl
get_elem?-take (x ∷ xs) (suc k) (suc i) h = get_elem?-take xs k i (omega arith)

u16_at-take : (bs : List ℕ) (k i : ℕ) → i + 1 < k → u16_at (take k bs) i ≡ u16_at bs i
u16_at-take bs k i h = rw (get_elem?-take bs k i (omega arith), get_elem?-take bs k (i + 1) h) refl

-- What `control_in` answers to a request of the host with room for n bytes.
answer : List ℕ → ℕ → List ℕ
answer bs n = take (if ltb n (length bs) then n else length bs) bs

total-answer :
    (bs : List ℕ) (n : ℕ) → 10 ≤ n → 10 ≤ length bs → u16_at (answer bs n) 8 ≡ u16_at bs 8
unfolding answer
total-answer bs n h l = u16_at-take bs _ 8 (ground arith)

-- Whatever room n, from the ten bytes of the head of the set on, the host gives in its first request,
-- Windows finds the device of one interface with the compatible ID WINUSB for the whole device: the
-- capability, the vendor code, the lengths at all levels and the answers of `control_in` agree.
pub device_is_found :
    (n : ℕ)
    → 10 ≤ n
    → enumerate get_bos_descriptors (control_in (desc_set_slice ms_os_20_desc_set)) n
      ≡ some (record { first_iface = none; compat_id = winusb } ∷ [])
unfolding answer enumerate get_bos_descriptors control_in desc_set_slice ms_os_20_desc_set
    ms_os_20_desc_plat_cap_desc winusb_compat_id features desc_set
device_is_found n h = rw (total-answer (desc_set_slice ms_os_20_desc_set) n h (omega arith)) refl

-- Whatever room n, from the ten bytes of the head of the set on, the host gives in its first request,
-- Windows finds the compatible ID WINUSB once for each function that the configuration has, at the
-- function's first interface, where the stack has numbered the three interfaces from 0.
pub functions_are_found :
    (n : ℕ)
    → 10 ≤ n
    → enumerate PerFunction.get_bos_descriptors PerFunction.control_in n
      ≡ some (for_each winusb (functions 0 (PerFunction.get_configuration_descriptors 0 1 2)))
unfolding answer enumerate PerFunction.get_bos_descriptors control_in PerFunction.control_in
    PerFunction.desc_set_slice PerFunction.ms_os_20_desc_set PerFunction.func_subset
    ms_os_20_desc_plat_cap_desc winusb_compat_id features desc_set functions for_each
    PerFunction.get_configuration_descriptors
functions_are_found n h =
    rw (total-answer (PerFunction.desc_set_slice PerFunction.ms_os_20_desc_set) n h (omega arith))
      refl

both_true : (a b : Bool) → (a && b) ≡ true → (a ≡ true) × (b ≡ true)
both_true true b e = (refl, e)
both_true false b e = absurd (cc e)

vendor_only : (t : RequestType) → is_vendor t ≡ true → t ≡ vendor
vendor_only vendor e = refl
vendor_only standard e = absurd (cc e)
vendor_only class e = absurd (cc e)
vendor_only reserved e = absurd (cc e)

asked : Request → Bool
asked req =
    is_vendor req.request_type && (req.request == 0x20 && (req.index == 0x7 && req.value == 0x0))

asked_lem : (req : Request) → asked req ≡ true → req ≡ descriptor_request 0x20 req.length
unfolding asked
asked_lem req e =
    let (t, a) = both_true (is_vendor req.request_type) _ e in
    let (r, b) = both_true (req.request == 0x20) _ a in
    let (i, v) = both_true (req.index == 0x7) _ b in
    rw
      (
        vendor_only req.request_type t,
        ==→eq req.request 0x20 r,
        ==→eq req.index 0x7 i,
        ==→eq req.value 0x0 v,
      )
      refl

length-take : (k : ℕ) (bs : List ℕ) → k ≤ length bs → length (take k bs) ≡ k
length-take zero bs h = refl
length-take (suc k) [] h = absurd (omega arith)
length-take (suc k) (b ∷ bs) h = ap suc (length-take k bs (omega arith))

answer-IsPrefix :
    (bs : List ℕ) (n : ℕ)
    → (length (answer bs n) ≤ n) × (answer bs n ≡ take (length (answer bs n)) bs)
unfolding answer
answer-IsPrefix bs n = rw (length-take k bs below) (fits, refl)
  where
    k : ℕ
    k = if ltb n (length bs) then n else length bs

    below : k ≤ length bs
    below = ground arith

    fits : k ≤ n
    fits = ground arith

-- Of all requests, `control_in` answers only the one for the set of descriptors (a vendor request with
-- the code 0x20, the index 7 and the value 0), and with no more bytes than the host asked for, which
-- are the first ones of the set; this holds for any set.
pub answers_only_asked :
    (bs : List ℕ) (req : Request) (sent : List ℕ)
    → control_in bs req ≡ some sent
    → (req ≡ descriptor_request 0x20 req.length)
      × ((length sent ≤ req.length) × (sent ≡ take (length sent) bs))
unfolding control_in asked answer
answers_only_asked bs req sent e = elim (Bool-cases (asked req)) [
  | inl a ↦
      let q : sent ≡ answer bs req.length = cc (rw a at e) in
      (asked_lem req a, rw q (answer-IsPrefix bs req.length))
  | inr a ↦ absurd (cc (rw a at e))
]

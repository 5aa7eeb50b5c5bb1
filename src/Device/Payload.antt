-- ===== src/Device/Payload.antt =====
-- The advertising data: `ad` of src/main.c, and what a unit sends after its boot.
pub mod Air
use nrf_proxy.Base.{
  ℕ, zero, suc, ◌+◌, ◌-◌, ◌/◌, ◌%◌, ◌≤◌, ◌<◌, ◌≡◌, refl, sym, ap, ap₂, ◌∙◌, Bool, true, false, not,
  some, List, [], ◌∷◌, ◌++◌, arith, All, ltb, leb, ◌==◌, if◌then◌else◌, length, take, drop,
  replicate, length-append, append_assoc, take-append_length, if_both,
}
use nrf_proxy.Base.Int.{ℤ, pos, ◌==ℤ◌}
use nrf_proxy.Platform.{Platform}
use nrf_proxy.RingBuf.{RingBuf}
use nrf_proxy.Core.Link.{proxy_should_start_adv}
use nrf_proxy.Core.Identity.{Identity, hex_digit, suffix}
use nrf_proxy.Core.Identity.Name.{hex_digit-pos}
use nrf_proxy.Core.Identity.Derive.{
  IsSized, unit_name, identity_of, derive_identified, unit_name_short,
}
use nrf_proxy.Device.State.{HostCall, Host, Board, Device, Status, log_host}
use nrf_proxy.Device.Leds.{set_led, set_status_leds}
use nrf_proxy.Device.Advertising.{advertising_start}
use nrf_proxy.Device.Link.{accept_bonds, refresh_locked_mode}
use nrf_proxy.Device.Boot.{identity_init, strlen, name_and_advertise}

-- `struct bt_data`
pub record AdField : Type 0 where
  pub kind : ℕ
  pub bytes : List ℕ

-- `ad`: the flags (general discoverable, no BR/EDR), the complete name and the manufacturer data.
abbrev pub ad : {Ring : Type 0} → Device Ring → List AdField
ad s =
    record { kind = 0x01; bytes = 0x06 ∷ [] }
    ∷ record { kind = 0x09; bytes = take s.name_len s.identity.name }
    ∷ record { kind = 0xff; bytes = s.mfg_data }
    ∷ []

-- The size of the fields on the air, each with its length and its type.
abbrev pub payload_len : List AdField → ℕ
payload_len [] = 0
payload_len (f ∷ fs) = length f.bytes + 2 + payload_len fs

-- The build's assertion on the base name: `sizeof(DEVICE_NAME "-XXXX") <= PROXY_DEVICE_NAME_MAX`.
abbrev pub name_assertion : List ℕ → Bool
name_assertion base = leb (length base + 6) 20

pub fits : (base : List ℕ) → name_assertion base ≡ true → length base ≤ 14
fits base h = ground arith

-- The fields with a name and manufacturer data.
abbrev pub fields : List ℕ → List ℕ → List AdField
fields name mfg =
    record { kind = 0x01; bytes = 0x06 ∷ [] }
    ∷ record { kind = 0x09; bytes = name }
    ∷ record { kind = 0xff; bytes = mfg }
    ∷ []

-- The characters of a suffix, without its terminator.
abbrev pub letters : ℕ → ℕ → List ℕ
letters hi lo =
    b'-'
    ∷ hex_digit (hi / 16)
    ∷ hex_digit (hi % 16)
    ∷ hex_digit (lo / 16)
    ∷ hex_digit (lo % 16)
    ∷ []

pub strlen-text : (xs rest : List ℕ) → All (λ c. 0 < c) xs → strlen (xs ++ (0 ∷ rest)) ≡ length xs
strlen-text [] rest h = refl
strlen-text (zero ∷ xs) rest h = absurd (omega (arith, h.0))
strlen-text (suc c ∷ xs) rest h = ap suc (strlen-text xs rest h.1)

pub letters-text :
    (base : List ℕ) (hi lo : ℕ) → All (λ c. 0 < c) base → All (λ c. 0 < c) (base ++ letters hi lo)
letters-text [] hi lo h =
    (omega arith, (hex_digit-pos _, (hex_digit-pos _, (hex_digit-pos _, (hex_digit-pos _, tt)))))
letters-text (x ∷ base) hi lo h = (h.0, letters-text base hi lo h.1)

-- The name of a unit, taken apart.
pub name_parts :
    (base : List ℕ) (hi lo : ℕ)
    → length base ≤ 14
    → unit_name base hi lo ≡ (base ++ letters hi lo) ++ (0 ∷ replicate (14 - length base) 0)
name_parts base hi lo h =
    unit_name_short base hi lo h
    ∙ sym (append_assoc base (letters hi lo) (0 ∷ replicate (14 - length base) 0))

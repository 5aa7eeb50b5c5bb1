-- ===== src/Core/Identity/Tests.antt =====
-- The identity of a concrete chip.
use nrf_proxy.Base.{ℕ, ◌≡◌, refl, false, List, [], ◌∷◌, arith, some, replicate, get_elem?}
use nrf_proxy.Base.Int.{pos}
use nrf_proxy.Core.Identity.{Identity, proxy_identity_derive, base_name_buf}
use nrf_proxy.Core.Identity.Derive.{
  IsSized, IsIdentity, derive-IsIdentity, derive-name_injective, identity_of, derive_identified,
}

-- "nrfProxy"
abbrev base : List ℕ
base = b'n' ∷ b'r' ∷ b'f' ∷ b'P' ∷ b'r' ∷ b'o' ∷ b'x' ∷ b'y' ∷ []

abbrev chip : List ℕ
chip = 0x01 ∷ 0x02 ∷ 0x03 ∷ 0x04 ∷ 0x7A ∷ 0x3F ∷ 0xAA ∷ 0xBB ∷ []

abbrev dirty : Identity
dirty = record {
  addr = replicate 6 0xff;
  name = replicate 20 0xff;
  mfg_id = replicate 4 0xff;
  addr_valid = false;
}

dirty-IsSized : IsSized dirty
dirty-IsSized = record { addr = refl; mfg_id = refl }

-- "nrfProxy-3F7A", as in the header's example.
named :
    (identity_of base 0x01 0x02 0x03 0x04 0x7A 0x3F).name
    ≡ b'n' ∷ b'r' ∷ b'f' ∷ b'P' ∷ b'r' ∷ b'o' ∷ b'x' ∷ b'y' ∷ b'-' ∷ b'3' ∷ b'F' ∷ b'7' ∷ b'A' ∷ 0
      ∷ 0 ∷ 0 ∷ 0 ∷ 0 ∷ 0 ∷ 0 ∷ []
unfolding nrf_proxy.Core.Identity.clip_base nrf_proxy.Core.Identity.base_name_buf
    nrf_proxy.Core.Identity.hex_digit
named = refl

derive-IsIdentity_example :
    (r : Identity) × (proxy_identity_derive base (some chip) (pos 8) dirty ≡ some r)
    × IsIdentity chip r
derive-IsIdentity_example =
    derive-IsIdentity base chip 8 dirty (omega arith) (omega arith) (omega arith) dirty-IsSized

derive-name_injective_example :
    (get_elem? chip 4 ≡ get_elem? chip 4) × (get_elem? chip 5 ≡ get_elem? chip 5)
derive-name_injective_example =
    derive-name_injective base chip chip 8 8 dirty dirty _ _ (omega arith) (omega arith)
      (omega arith) (omega arith) dirty-IsSized (omega arith) (omega arith) (omega arith)
      dirty-IsSized
      (derive_identified base 0x01 0x02 0x03 0x04 0x7A 0x3F (0xAA ∷ 0xBB ∷ []) 8 dirty (omega arith)
        dirty-IsSized)
      (derive_identified base 0x01 0x02 0x03 0x04 0x7A 0x3F (0xAA ∷ 0xBB ∷ []) 8 dirty (omega arith)
        dirty-IsSized)
      refl

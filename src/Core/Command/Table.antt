-- ===== src/Core/Command/Table.antt =====
-- The header's table of the device-control packets, and `le32`.
use mathlib.Core.Path.{◌≡⟨◌⟩◌, ◌∎}
use nrf_proxy.Base.{
  ℕ, zero, suc, ◌+◌, ◌*◌, ◌^◌, ◌<◌, bit_or, ◌≡◌, ap, ◌∙◌, ◌≢◌, ◌↔◌, ◌⊎◌, true, some, List, [], ◌∷◌,
  arith, get_elem?, All,
}
use nrf_proxy.Base.Bits.{bit_or-eq-add}
use nrf_proxy.Core.Command.{
  Kind, none_cmd, invalid, relay_disable, relay_enable, set_baud, shl32, proxy_baud_supported, le32,
}
use nrf_proxy.Core.Command.Framing.{IsFramed}

abbrev pub IsByte : ℕ → Type 0
IsByte b = b < 256

-- A little-endian uint32_t.
abbrev pub word_of : ℕ → ℕ → ℕ → ℕ → ℕ
word_of b0 b1 b2 b3 = b0 + b1 * 2 ^ 8 + b2 * 2 ^ 16 + b3 * 2 ^ 24

or_shl : (k a b : ℕ) → a < 2 ^ k → b * 2 ^ k < 2 ^ 32 → bit_or a (shl32 b k) ≡ a + b * 2 ^ k
or_shl k a b h lt = ap (bit_or a) (omega arith) ∙ bit_or-eq-add k a b h

-- `le32` reads four bytes as the number that they spell, lowest byte first.
pub le32_lem :
    (p : List ℕ) (b0 b1 b2 b3 : ℕ)
    → IsByte b0
    → IsByte b1
    → IsByte b2
    → IsByte b3
    → get_elem? p 0 ≡ some b0
    → get_elem? p 1 ≡ some b1
    → get_elem? p 2 ≡ some b2
    → get_elem? p 3 ≡ some b3
    → le32 p ≡ some (word_of b0 b1 b2 b3)
unfolding le32
le32_lem p b0 b1 b2 b3 h0 h1 h2 h3 e0 e1 e2 e3 =
    rw (e0, e1, e2, e3)
      (ap some (
        bit_or (bit_or (bit_or b0 (shl32 b1 8)) (shl32 b2 16)) (shl32 b3 24)
        ≡⟨ ap (λ t. bit_or (bit_or t (shl32 b2 16)) (shl32 b3 24))
            (or_shl 8 b0 b1 (omega arith) (omega arith)) ⟩
          bit_or (bit_or (b0 + b1 * 2 ^ 8) (shl32 b2 16)) (shl32 b3 24)
        ≡⟨ ap (λ t. bit_or t (shl32 b3 24)) (or_shl 16 _ b2 (omega arith) (omega arith)) ⟩
          bit_or (b0 + b1 * 2 ^ 8 + b2 * 2 ^ 16) (shl32 b3 24)
        ≡⟨ or_shl 24 _ b3 (omega arith) (omega arith) ⟩ word_of b0 b1 b2 b3 ∎))

-- The rates of the allow list.
abbrev pub IsSupported : ℕ → Type 0
IsSupported baud =
    (baud ≡ 1200)
    ⊎ (baud ≡ 9600)
    ⊎ (baud ≡ 19200)
    ⊎ (baud ≡ 38400)
    ⊎ (baud ≡ 57600)
    ⊎ (baud ≡ 115200)

pub proxy_baud_supported_iff : (baud : ℕ) → (proxy_baud_supported baud ≡ true) ↔ IsSupported baud
unfolding proxy_baud_supported
proxy_baud_supported_iff baud = ground arith

-- The header's table: which kind a chunk is of, and the rate that a baud command carries.
pub data Classifies (xs : List ℕ) : Kind → ℕ → Type 0 where
  plain : ¬ IsFramed xs → Classifies xs none_cmd 0
  relay_off :
      IsFramed xs
      → get_elem? xs 2 ≡ some 1
      → get_elem? xs 3 ≡ some 0
      → Classifies xs relay_disable 0
  relay_on :
      IsFramed xs → get_elem? xs 2 ≡ some 1 → get_elem? xs 3 ≡ some 1 → Classifies xs relay_enable 0
  relay_bad :
      (p : ℕ)
      → IsFramed xs
      → get_elem? xs 2 ≡ some 1
      → get_elem? xs 3 ≡ some p
      → 1 < p
      → Classifies xs invalid 0
  rate :
      (b0 b1 b2 b3 : ℕ) {baud : ℕ}
      → IsFramed xs
      → get_elem? xs 2 ≡ some 2
      → get_elem? xs 3 ≡ some b0
      → get_elem? xs 4 ≡ some b1
      → get_elem? xs 5 ≡ some b2
      → get_elem? xs 6 ≡ some b3
      → baud ≡ word_of b0 b1 b2 b3
      → IsSupported baud
      → Classifies xs set_baud baud
  rate_bad :
      (b0 b1 b2 b3 : ℕ)
      → IsFramed xs
      → get_elem? xs 2 ≡ some 2
      → get_elem? xs 3 ≡ some b0
      → get_elem? xs 4 ≡ some b1
      → get_elem? xs 5 ≡ some b2
      → get_elem? xs 6 ≡ some b3
      → ¬ IsSupported (word_of b0 b1 b2 b3)
      → Classifies xs invalid 0
  op_bad :
      (op : ℕ) → IsFramed xs → get_elem? xs 2 ≡ some op → op ≢ 1 → op ≢ 2 → Classifies xs invalid 0

pub IsByte-at : (xs : List ℕ) (i x : ℕ) → All IsByte xs → get_elem? xs i ≡ some x → IsByte x
IsByte-at [] i x h e = cc
IsByte-at (y ∷ xs) zero x h e = ground (arith, h.0)
IsByte-at (y ∷ xs) (suc i) x h e = IsByte-at xs i x h.1 e

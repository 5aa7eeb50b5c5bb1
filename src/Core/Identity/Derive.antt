-- ===== src/Core/Identity/Derive.antt =====
-- What `proxy_identity_derive` computes, with a hardware ID and without one.
use native.Mathlib.Decide.{dec_lt}
use nrf_proxy.Base.{
  le→leb, lt→leb, All, take, get_elem?, ap, sym, ◌∙◌, ◌++◌, replicate, ◌-◌, ℕ, ◌+◌, ◌/◌, ◌%◌, ◌≤◌,
  ◌<◌, ◌≡◌, refl, ◌⊎◌, inr, true, false, List, [], ◌∷◌, arith, Option, none, some, length, bit_or,
  leb, ◌==◌, if◌then◌else◌, ◌&&◌, drop_all,
}
use nrf_proxy.Base.Bits.{table, table_at}
use nrf_proxy.Base.Int.{ℤ, pos, negsuc, le_int}
use nrf_proxy.Core.Identity.Name.{
  IsName, base_name_buf-IsName, suffixed-IsName, clip_base_lem, suffixed, suffix-injective,
  append_cancel,
}
use nrf_proxy.Core.Identity.{
  Identity, suffix, write_at, clip_base, base_name_buf, identify, proxy_identity_derive,
}

static_table :
    table (λ b. ((bit_or b 0xc0 / 64) == 3) && ((bit_or b 0xc0 % 64) == (b % 64))) 256 ≡ true
unfolding table
static_table = refl

-- `|= 0xc0` on a byte sets the two top bits and keeps the other six.
static_bits : (b : ℕ) → b < 256 → (bit_or b 0xc0 / 64 ≡ 3) × (bit_or b 0xc0 % 64 ≡ b % 64)
static_bits b h = ground (
  arith,
  table_at (λ b. ((bit_or b 0xc0 / 64) == 3) && ((bit_or b 0xc0 % 64) == (b % 64))) 256 b
      static_table h,
)

-- The name that a unit gets: the suffix goes in when it fits.
abbrev pub unit_name : List ℕ → ℕ → ℕ → List ℕ
unit_name base hi lo =
    if leb (clip_base base + 6) 20
    then write_at (base_name_buf base) (clip_base base) (suffix hi lo)
    else base_name_buf base

-- The arrays of `struct proxy_identity` have their declared sizes.
pub record IsSized (out : Identity) : Type 0 where
  pub addr : length out.addr ≡ 6
  pub mfg_id : length out.mfg_id ≡ 4

-- The fields that the identifying part computes.
abbrev pub identity_of : List ℕ → ℕ → ℕ → ℕ → ℕ → ℕ → ℕ → Identity
identity_of base a0 a1 a2 a3 a4 a5 = record {
  addr = a0 ∷ a1 ∷ a2 ∷ a3 ∷ a4 ∷ bit_or a5 0xc0 ∷ [];
  name = unit_name base a5 a4;
  mfg_id = a0 ∷ a1 ∷ a2 ∷ a3 ∷ [];
  addr_valid = true;
}

identify_lem :
    (base : List ℕ) (a0 a1 a2 a3 a4 a5 : ℕ) (rest : List ℕ) (out : Identity)
    → IsSized out
    → out.name ≡ base_name_buf base
    → identify (a0 ∷ a1 ∷ a2 ∷ a3 ∷ a4 ∷ a5 ∷ rest) (clip_base base) out
      ≡ some (identity_of base a0 a1 a2 a3 a4 a5)
unfolding identify
identify_lem base a0 a1 a2 a3 a4 a5 rest out s named = ground (
  arith,
  drop_all 6 out.addr (omega (arith, s.addr)),
  drop_all 4 out.mfg_id (omega (arith, s.mfg_id)),
)

-- With a hardware ID of at least six bytes, every field of the result is computed from the ID and
-- the base name, whatever `*out` held before.
pub derive_identified :
    (base : List ℕ) (a0 a1 a2 a3 a4 a5 : ℕ) (rest : List ℕ) (n : ℕ) (out : Identity)
    → 6 ≤ n
    → IsSized out
    → proxy_identity_derive base (some (a0 ∷ a1 ∷ a2 ∷ a3 ∷ a4 ∷ a5 ∷ rest)) (pos n) out
      ≡ some (identity_of base a0 a1 a2 a3 a4 a5)
unfolding proxy_identity_derive
derive_identified base a0 a1 a2 a3 a4 a5 rest n out h s = ground (
  arith,
  identify_lem base a0 a1 a2 a3 a4 a5 rest
      (record out { name = base_name_buf base; addr_valid = false })
      (record { addr = s.addr; mfg_id = s.mfg_id }) refl,
)

-- Without one (a null pointer, an error code, or fewer than six bytes) the base name alone is set:
-- the address and the id keep what they held, and the address is marked invalid.
derive_fallback :
    (base : List ℕ) (hwid : Option (List ℕ)) (n : ℤ) (out : Identity)
    → (hwid ≡ none) ⊎ (le_int 6 n ≡ false)
    → proxy_identity_derive base hwid n out
      ≡ some (record out { name = base_name_buf base; addr_valid = false })
unfolding proxy_identity_derive
derive_fallback base hwid n out h = ground arith

-- A buffer of six bytes or more, taken apart.
data Six : List ℕ → Type 0 where
  six : (a0 a1 a2 a3 a4 a5 : ℕ) (rest : List ℕ) → Six (a0 ∷ a1 ∷ a2 ∷ a3 ∷ a4 ∷ a5 ∷ rest)

Six-of : (id : List ℕ) → 6 ≤ length id → Six id
Six-of (a0 ∷ a1 ∷ a2 ∷ a3 ∷ a4 ∷ a5 ∷ rest) h = six a0 a1 a2 a3 a4 a5 rest
Six-of [] h = absurd (omega arith)
Six-of (a0 ∷ []) h = absurd (omega arith)
Six-of (a0 ∷ a1 ∷ []) h = absurd (omega arith)
Six-of (a0 ∷ a1 ∷ a2 ∷ []) h = absurd (omega arith)
Six-of (a0 ∷ a1 ∷ a2 ∷ a3 ∷ []) h = absurd (omega arith)
Six-of (a0 ∷ a1 ∷ a2 ∷ a3 ∷ a4 ∷ []) h = absurd (omega arith)

unit_name-IsName : (base : List ℕ) (hi lo : ℕ) → IsName (unit_name base hi lo)
unit_name-IsName base hi lo = elim (dec_lt (length base) 15) [
  | yes h ↦
      let e : clip_base base ≡ length base = omega (arith, clip_base_lem base) in
      rw (e, le→leb (length base + 6) 20 (omega arith)) (suffixed-IsName base hi lo (omega arith))
  | no h ↦
      rw (lt→leb 20 (clip_base base + 6) (omega (arith, clip_base_lem base)))
        (base_name_buf-IsName base)
]

pub unit_name_short :
    (base : List ℕ) (hi lo : ℕ)
    → length base ≤ 14
    → unit_name base hi lo ≡ base ++ (suffix hi lo ++ replicate (14 - length base) 0)
unit_name_short base hi lo h =
    let e : clip_base base ≡ length base = omega (arith, clip_base_lem base) in
    rw (e, le→leb (length base + 6) 20 (omega arith)) (suffixed base hi lo h)

-- The identity that the header promises for a hardware ID.
pub record IsIdentity (id : List ℕ) (r : Identity) : Type 0 where
  pub name : IsName r.name
  pub addr_size : length r.addr ≡ 6
  pub addr_low : take 5 r.addr ≡ take 5 id
  pub addr_top :
      (t h : ℕ)
      → get_elem? r.addr 5 ≡ some t
      → get_elem? id 5 ≡ some h
      → (t / 64 ≡ 3) × (t % 64 ≡ h % 64)
  pub mfg_id : r.mfg_id ≡ take 4 id
  pub addr_valid : r.addr_valid ≡ true

-- From a hardware ID of six bytes or more, of which at least six were read, the derivation reads
-- inside the buffer and gives a static-random address (top two bits set, the other 46 bits the
-- ID's), a terminated name in 20 bytes, and the first four bytes as the device id.
pub derive-IsIdentity :
    (base id : List ℕ) (n : ℕ) (out : Identity)
    → 6 ≤ length id
    → All (λ b. b < 256) id
    → 6 ≤ n
    → IsSized out
    → (r : Identity) × (proxy_identity_derive base (some id) (pos n) out ≡ some r) × IsIdentity id r
derive-IsIdentity base id n out len bytes h s = go (Six-of id len) bytes
  where
    go :
        {xs : List ℕ}
        → Six xs
        → All (λ b. b < 256) xs
        → (r : Identity) × (proxy_identity_derive base (some xs) (pos n) out ≡ some r)
          × IsIdentity xs r
    go (six a0 a1 a2 a3 a4 a5 rest) b = (
      identity_of base a0 a1 a2 a3 a4 a5,
      derive_identified base a0 a1 a2 a3 a4 a5 rest n out h s,
      record {
        name = unit_name-IsName base a5 a4;
        addr_size = refl;
        addr_low = refl;
        addr_top = λ t h et eh. ground (arith, static_bits a5 b.1.1.1.1.1.0);
        mfg_id = refl;
        addr_valid = refl;
      },
    )

-- Two units with the same base name of at most 14 characters advertise the same name only if bytes
-- 4 and 5 of their hardware IDs agree.
pub derive-name_injective :
    (base id id' : List ℕ) (n n' : ℕ) (out out' r r' : Identity)
    → length base ≤ 14
    → 6 ≤ length id
    → All (λ b. b < 256) id
    → 6 ≤ n
    → IsSized out
    → 6 ≤ length id'
    → All (λ b. b < 256) id'
    → 6 ≤ n'
    → IsSized out'
    → proxy_identity_derive base (some id) (pos n) out ≡ some r
    → proxy_identity_derive base (some id') (pos n') out' ≡ some r'
    → r.name ≡ r'.name
    → (get_elem? id 4 ≡ get_elem? id' 4) × (get_elem? id 5 ≡ get_elem? id' 5)
derive-name_injective base id id' n n' out out' r r' short len bytes h s len' bytes' h' s' e e'
      same =
    go (Six-of id len) (Six-of id' len') bytes bytes' e e'
  where
    go :
        {xs ys : List ℕ}
        → Six xs
        → Six ys
        → All (λ b. b < 256) xs
        → All (λ b. b < 256) ys
        → proxy_identity_derive base (some xs) (pos n) out ≡ some r
        → proxy_identity_derive base (some ys) (pos n') out' ≡ some r'
        → (get_elem? xs 4 ≡ get_elem? ys 4) × (get_elem? xs 5 ≡ get_elem? ys 5)
    go (six a0 a1 a2 a3 a4 a5 rest) (six b0 b1 b2 b3 b4 b5 rest') p q u v =
        let nr : r.name ≡ unit_name base a5 a4 =
          cc (derive_identified base a0 a1 a2 a3 a4 a5 rest n out h s) in
        let nr' : r'.name ≡ unit_name base b5 b4 =
          cc (derive_identified base b0 b1 b2 b3 b4 b5 rest' n' out' h' s') in
        let (five, four) =
          suffix-injective a5 a4 b5 b4 _ _ p.1.1.1.1.1.0 p.1.1.1.1.0 q.1.1.1.1.1.0 q.1.1.1.1.0 (
            append_cancel base _ _ (
              sym (unit_name_short base a5 a4 short)
              ∙ sym nr
              ∙ same
              ∙ nr'
              ∙ unit_name_short base b5 b4 short)) in
        (ap some four, ap some five)

-- The derivation stays inside a buffer of six bytes, whatever count was read into it.
pub derive_returns :
    (base id : List ℕ) (n : ℤ) (out : Identity)
    → 6 ≤ length id
    → All (λ b. b < 256) id
    → IsSized out
    → (r : Identity) × (proxy_identity_derive base (some id) n out ≡ some r)
derive_returns base id (negsuc k) out len bytes s =
    (_, derive_fallback base (some id) (negsuc k) out (inr refl))
derive_returns base id (pos k) out len bytes s = elim (dec_lt k 6) [
  | yes few ↦ (_, derive_fallback base (some id) (pos k) out (inr (lt→leb k 6 few)))
  | no all ↦ let (r, e, i) = derive-IsIdentity base id k out len bytes (omega arith) s in (r, e)
]

-- ===== src/Core/Identity.antt =====
-- `proxy_identity_derive` of src/proxy_core.c. A C string is the list of its characters without the
-- terminator; the result `none` is a read outside the hardware ID's buffer.
pub mod Name
pub mod Derive
mod Tests
use nrf_proxy.Base.{
  ℕ, ◌+◌, ◌/◌, ◌%◌, bit_or, Bool, true, false, not, Option, none, some, List, [], ◌∷◌, ◌++◌, ltb,
  leb, if◌then◌else◌, ◌>>=◌, get_elem?, set, length, take, drop, replicate, memcpy,
}
use nrf_proxy.Base.Int.{ℤ, le_int}

-- `struct proxy_identity`: arrays of 6, 20 and 4 bytes.
pub record Identity : Type 0 where
  pub addr : List ℕ
  pub name : List ℕ
  pub mfg_id : List ℕ
  pub addr_valid : Bool

abbrev pub addr_len : ℕ
addr_len = 6

abbrev pub mfg_id_len : ℕ
mfg_id_len = 4

abbrev pub device_name_max : ℕ
device_name_max = 20

abbrev pub hwid_min_len : ℕ
hwid_min_len = 6

abbrev pub addr_static_msbs : ℕ
addr_static_msbs = 0xc0

-- The `n` bytes that a `memcpy` reads at a pointer.
abbrev pub read_bytes : List ℕ → ℕ → Option (List ℕ)
read_bytes xs n = if ltb (length xs) n then none else some (take n xs)

-- A digit of `%02X`.
pub hex_digit : ℕ → ℕ
hex_digit n = if ltb n 10 then n + 48 else n + 55

-- What `snprintf` writes for "-%02X%02X", with the terminator.
abbrev pub suffix : ℕ → ℕ → List ℕ
suffix hi lo =
    b'-'
    ∷ hex_digit (hi / 16)
    ∷ hex_digit (hi % 16)
    ∷ hex_digit (lo / 16)
    ∷ hex_digit (lo % 16)
    ∷ 0
    ∷ []

-- A write of `src` at offset `off` of an array.
abbrev pub write_at : List ℕ → ℕ → List ℕ → List ℕ
write_at dst off src = take off dst ++ (src ++ drop (off + length src) dst)

-- `base_len`: the name's length, cut to leave room for the terminator.
pub clip_base : List ℕ → ℕ
clip_base base = if ltb 19 (length base) then 19 else length base

-- The name before a suffix: the buffer zeroed, then the base name copied.
pub base_name_buf : List ℕ → List ℕ
unfolding clip_base
base_name_buf base = memcpy (replicate device_name_max 0) base (clip_base base)

-- The last step: the suffix goes in when it fits with its terminator.
pub add_suffix : List ℕ → ℕ → Identity → Option Identity
add_suffix id base_len out =
    if leb (base_len + 6) device_name_max
    then (do
      hi ← get_elem? id 5
      lo ← get_elem? id 4
      some (record out { name = write_at out.name base_len (suffix hi lo) }))
    else some out

-- The part that runs when there is a hardware ID.
pub identify : List ℕ → ℕ → Identity → Option Identity
unfolding add_suffix
identify id base_len out = do
  low ← read_bytes id addr_len
  let addr = low ++ drop addr_len out.addr
  top ← get_elem? addr 5
  tag ← read_bytes id mfg_id_len
  add_suffix id base_len (record out {
    addr = set addr 5 (bit_or top addr_static_msbs);
    mfg_id = tag ++ drop mfg_id_len out.mfg_id;
    addr_valid = true;
  })

-- `hwid` is `none` for the null pointer; `hwid_len` may be a negative error code.
pub proxy_identity_derive : List ℕ → Option (List ℕ) → ℤ → Identity → Option Identity
unfolding base_name_buf identify
proxy_identity_derive base hwid hwid_len out =
    let named : Identity = record out { name = base_name_buf base; addr_valid = false } in
    elim hwid [
      | none ↦ some named
      | some id ↦
          if not (le_int hwid_min_len hwid_len)
          then some named
          else identify id (clip_base base) named
    ]

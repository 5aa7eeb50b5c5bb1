-- ===== src/Core/Command.antt =====
-- The device-control command: `cmd_checksum`, `proxy_baud_supported`, `le32` and `proxy_cmd_parse`
-- of src/proxy_core.c, with the types of src/proxy_core.h.
-- A chunk of `in_len` bytes is the list of them; a read outside it is the result `none`.
pub mod Framing
pub mod Table
pub mod Parse
pub mod Unique
pub mod Packets
pub mod Echo
mod Tests
use nrf_proxy.Base.{
  ℕ, zero, suc, ◌+◌, ◌*◌, ◌%◌, ◌^◌, bit_or, Bool, true, false, ◌||◌, not, Option, none, some, List,
  [], ◌∷◌, ◌==◌, if◌then◌else◌, ◌>>=◌, get_elem?, length, memcpy, drop,
}

-- `enum proxy_cmd_kind`
pub data Kind : Type 0 where
  none_cmd invalid relay_disable relay_enable set_baud : Kind

-- `struct proxy_cmd`; `ack` is the array of 16 bytes, `baud` a uint32_t.
pub record Cmd : Type 0 where
  pub kind : Kind
  pub baud : ℕ
  pub ack : List ℕ
  pub ack_len : ℕ

abbrev pub cmd_start : ℕ
cmd_start = 0x22

abbrev pub packet_len : ℕ
packet_len = 16

abbrev pub payload_off : ℕ
payload_off = 3

-- `enum proxy_cmd_op`
abbrev pub op_relay : ℕ
op_relay = 0x01

abbrev pub op_baud : ℕ
op_baud = 0x02

-- The loop of `cmd_checksum`: `n` rounds from index `i`, with the uint8_t sum so far.
pub sum_loop : List ℕ → ℕ → ℕ → ℕ → Option ℕ
sum_loop xs zero i acc = some acc
sum_loop xs (suc n) i acc = elim (get_elem? xs i) [
  | none ↦ none
  | some b ↦ sum_loop xs n (i + 1) ((acc + b) % 256)
]

pub cmd_checksum : List ℕ → Option ℕ
cmd_checksum xs = sum_loop xs 15 0 0

-- The loop of `proxy_baud_supported` over the rates not yet compared.
pub baud_loop : List ℕ → ℕ → Bool
baud_loop [] baud = false
baud_loop (r ∷ rs) baud = (baud == r) || baud_loop rs baud

abbrev pub supported : List ℕ
supported = 1200 ∷ 9600 ∷ 19200 ∷ 38400 ∷ 57600 ∷ 115200 ∷ []

pub proxy_baud_supported : ℕ → Bool
unfolding baud_loop
proxy_baud_supported baud = baud_loop supported baud

-- The shift of a uint32_t, `(uint32_t)x << k`.
abbrev pub shl32 : ℕ → ℕ → ℕ
shl32 x k = x * 2 ^ k % 2 ^ 32

pub le32 : List ℕ → Option ℕ
le32 p = do
  b0 ← get_elem? p 0
  b1 ← get_elem? p 1
  b2 ← get_elem? p 2
  b3 ← get_elem? p 3
  some (bit_or (bit_or (bit_or b0 (shl32 b1 8)) (shl32 b2 16)) (shl32 b3 24))

-- The framing gate, with the order of evaluation of its `||`: later bytes are read only when the
-- tests before them pass. `true` is a packet framed for this device.
pub framed : List ℕ → Option Bool
framed xs = if not (length xs == packet_len) then some false else (do
  b0 ← get_elem? xs 0
  if not (b0 == cmd_start) then some false else (do
    b1 ← get_elem? xs 1
    if not (b1 == packet_len)
        then some false
        else (do last ← get_elem? xs 15; sum ← cmd_checksum xs; some (last == sum))))

-- The `switch` on the opcode: the fields that it leaves in `*out`.
pub decide_op : List ℕ → ℕ → Cmd → Option Cmd
decide_op payload op out =
    if op == op_relay
    then (do
      p0 ← get_elem? payload 0
      some (
          if p0 == 0
          then record out { kind = Kind.relay_disable }
          else if p0 == 1
          then record out { kind = Kind.relay_enable }
          else record out { kind = Kind.invalid }))
    else if op == op_baud
    then (do
      baud ← le32 payload
      some (
          if proxy_baud_supported baud
          then record out { kind = Kind.set_baud; baud = baud }
          else record out { kind = Kind.invalid }))
    else some (record out { kind = Kind.invalid })

-- The tail of the function: the echo of an actionable command.
pub fill_ack : List ℕ → Cmd → Cmd
fill_ack xs out = elim out.kind [
  | invalid ↦ out
  | _ ↦ record out { ack = memcpy out.ack xs packet_len; ack_len = packet_len }
]

-- The stores that `proxy_cmd_parse` begins with.
abbrev pub cleared : Cmd → Cmd
cleared out = record out { kind = Kind.none_cmd; baud = 0; ack_len = 0 }

-- `proxy_cmd_parse`: the kind returned, and `*out`.
pub proxy_cmd_parse : List ℕ → Cmd → Option (Kind × Cmd)
proxy_cmd_parse xs out = do
  ours ← framed xs
  if ours
      then (do
        op ← get_elem? xs 2
        decided ← decide_op (drop payload_off xs) op (cleared out)
        some ((fill_ack xs decided).kind, fill_ack xs decided))
      else some (Kind.none_cmd, cleared out)

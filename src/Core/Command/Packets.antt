-- ===== src/Core/Command/Packets.antt =====
-- The packets that the header describes, as the phone builds them, against `proxy_cmd_parse`.
use nrf_proxy.Base.{
  ℕ, ◌/◌, ◌%◌, ◌^◌, ◌<◌, ◌≡◌, refl, ap, ◌∙◌, ◌≢◌, inl, inr, true, some, List, [], ◌∷◌, ◌++◌, arith,
  ◌==◌, if◌then◌else◌, get_elem?, set, drop, replicate, memcpy, Bool-cases,
}
use nrf_proxy.Core.Command.{
  Kind, none_cmd, invalid, relay_disable, relay_enable, set_baud, Cmd, proxy_baud_supported, le32,
  framed, decide_op, fill_ack, cleared, proxy_cmd_parse,
}
use nrf_proxy.Core.Command.Framing.{IsFramed, byte_sum, framed_iff, not-framed, set-not-IsFramed}
use nrf_proxy.Core.Command.Table.{le32_lem}

-- The 16-byte frame around an opcode and its 12 payload bytes.
abbrev pub body : ℕ → List ℕ → List ℕ
body op payload = 0x22 ∷ 16 ∷ op ∷ payload

abbrev pub frame : ℕ → List ℕ → List ℕ
frame op payload = body op payload ++ (byte_sum (body op payload) % 256 ∷ [])

abbrev pub relay_packet : ℕ → List ℕ
relay_packet v = frame 1 (v ∷ replicate 11 0)

abbrev pub baud_packet : ℕ → List ℕ
baud_packet n =
    frame 2 (n % 256 ∷ n / 256 % 256 ∷ n / 65536 % 256 ∷ n / 16777216 % 256 ∷ replicate 8 0)

-- `*out` after an actionable command: the echo is the packet.
abbrev pub echoed : Cmd → List ℕ → Kind → ℕ → Cmd
echoed out xs k baud = record { kind = k; baud = baud; ack = memcpy out.ack xs 16; ack_len = 16 }

relay-framed : (v : ℕ) → framed (relay_packet v) ≡ some true
relay-framed v =
    (framed_iff (relay_packet v)).1
      (record { size = refl; start = refl; declared = refl; check = refl })

baud-framed : (n : ℕ) → framed (baud_packet n) ≡ some true
baud-framed n =
    (framed_iff (baud_packet n)).1
      (record { size = refl; start = refl; declared = refl; check = refl })

-- Round trip of the relay command: value 1 enables, 0 disables, each with its exact echo; any
-- other payload value is refused with no echo.
pub parse-relay_packet :
    (v : ℕ) (out : Cmd)
    → proxy_cmd_parse (relay_packet v) out ≡ (
        if v == 0
        then some (relay_disable, echoed out (relay_packet v) relay_disable 0)
        else if v == 1
        then some (relay_enable, echoed out (relay_packet v) relay_enable 0)
        else some (invalid, record (cleared out) { kind = invalid }))
unfolding proxy_cmd_parse decide_op fill_ack
parse-relay_packet v out = rw (relay-framed v) (elim (Bool-cases (v == 0)) [
  | inl z ↦ rw z
  | inr nz ↦ rw nz (elim (Bool-cases (v == 1)) [ inl o ↦ rw o | inr no_one ↦ rw no_one ])
])

baud-word : (n : ℕ) → n < 2 ^ 32 → le32 (drop 3 (baud_packet n)) ≡ some n
baud-word n h =
    le32_lem (drop 3 (baud_packet n)) (n % 256) (n / 256 % 256) (n / 65536 % 256)
      (n / 16777216 % 256) (omega arith) (omega arith) (omega arith) (omega arith) refl refl refl
      refl
    ∙ ap some (omega arith)

-- Round trip of the baud command, for every uint32_t rate: a supported rate comes back with the
-- exact echo, any other is refused with no echo.
pub parse-baud_packet :
    (n : ℕ) (out : Cmd)
    → n < 2 ^ 32
    → proxy_cmd_parse (baud_packet n) out ≡ (
        if proxy_baud_supported n
        then some (set_baud, echoed out (baud_packet n) set_baud n)
        else some (invalid, record (cleared out) { kind = invalid }))
unfolding proxy_cmd_parse decide_op fill_ack
parse-baud_packet n out h = rw (baud-framed n) (
    rw (baud-word n h)
      (elim (Bool-cases (proxy_baud_supported n)) [ inl good ↦ rw good | inr bad ↦ rw bad ]))

-- A chunk that is not framed is plain data: no kind, no rate, no echo.
pub parse-plain :
    (xs : List ℕ) (out : Cmd)
    → ¬ IsFramed xs
    → proxy_cmd_parse xs out ≡ some (none_cmd, cleared out)
unfolding proxy_cmd_parse
parse-plain xs out h = rw (not-framed xs h)

-- Replacing any one byte of a framed packet by another byte makes the parser take the chunk for
-- plain data: no single corrupted byte passes the gate.
pub parse-corrupted :
    (xs : List ℕ) (i x v : ℕ) (out : Cmd)
    → IsFramed xs
    → get_elem? xs i ≡ some x
    → x < 256
    → v < 256
    → x ≢ v
    → proxy_cmd_parse (set xs i v) out ≡ some (none_cmd, cleared out)
parse-corrupted xs i x v out f e bx bv ne =
    parse-plain _ out (set-not-IsFramed xs i x v f e bx bv ne)

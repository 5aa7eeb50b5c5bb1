-- ===== src/Core/Command/Tests.antt =====
-- Packets on the wire, and the theorems of the command parser at concrete inputs.
use mathlib.Core.Equiv.{IsContr}
use nrf_proxy.Base.{ℕ, ◌≡◌, refl, [], ◌∷◌, arith, some, set, replicate}
use nrf_proxy.Core.Command.{Kind, none_cmd, set_baud, Cmd, cleared, proxy_cmd_parse}
use nrf_proxy.Core.Command.Framing.{IsFramed}
use nrf_proxy.Core.Command.Parse.{Answers, proxy_cmd_parse_lem}
use nrf_proxy.Core.Command.Table.{Classifies}
use nrf_proxy.Core.Command.Unique.{classified_once}
use nrf_proxy.Core.Command.Packets.{
  relay_packet, baud_packet, echoed, parse-baud_packet, parse-corrupted,
}

abbrev stale : Cmd
stale = record { kind = set_baud; baud = 1200; ack = replicate 16 7; ack_len = 16 }

-- The relay command of RELAY_COMMAND.md: checksum 0x34 for enable.
relay_wire :
    relay_packet 1 ≡ 0x22 ∷ 16 ∷ 1 ∷ 1 ∷ 0 ∷ 0 ∷ 0 ∷ 0 ∷ 0 ∷ 0 ∷ 0 ∷ 0 ∷ 0 ∷ 0 ∷ 0 ∷ 0x34 ∷ []
relay_wire = refl

short_chunk : proxy_cmd_parse (0x22 ∷ 16 ∷ []) stale ≡ some (none_cmd, cleared stale)
unfolding proxy_cmd_parse nrf_proxy.Core.Command.framed
short_chunk = refl

proxy_cmd_parse_lem_example :
    (k : Kind) × (c : Cmd) × (proxy_cmd_parse (baud_packet 9600) stale ≡ some (k, c))
    × Answers (baud_packet 9600) stale k c
proxy_cmd_parse_lem_example = proxy_cmd_parse_lem (baud_packet 9600) stale (omega arith)

parse-baud_packet_example :
    proxy_cmd_parse (baud_packet 19200) stale
    ≡ some (set_baud, echoed stale (baud_packet 19200) set_baud 19200)
unfolding nrf_proxy.Core.Command.proxy_baud_supported
parse-baud_packet_example = parse-baud_packet 19200 stale (omega arith)

relay_packet-IsFramed : IsFramed (relay_packet 1)
relay_packet-IsFramed = record { size = refl; start = refl; declared = refl; check = refl }

parse-corrupted_example :
    proxy_cmd_parse (set (relay_packet 1) 3 0) stale ≡ some (none_cmd, cleared stale)
parse-corrupted_example =
    parse-corrupted (relay_packet 1) 3 1 0 stale relay_packet-IsFramed refl (omega arith)
      (omega arith) (omega arith)

classified_once_example :
    (k : Kind) × (c : Cmd) × (proxy_cmd_parse (relay_packet 1) stale ≡ some (k, c))
    × (once : IsContr ((r : Kind × ℕ) × ∥ Classifies (relay_packet 1) r.0 r.1 ∥₁)) × (once.0.0
        ≡ (k, c.baud))
classified_once_example = classified_once (relay_packet 1) stale (omega arith)

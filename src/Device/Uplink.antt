-- ===== src/Device/Uplink.antt =====
-- What one chunk from a phone (`nus_received`) gives to the UART to transmit.
pub mod History
use native.Mathlib.Decide.{dec_lt}
use nrf_proxy.Base.{
  ◌<◌, ◌⊎◌, true, drop_all, ==_iff, ℕ, ◌≡◌, refl, sym, ap, ◌∙◌, inl, inr, subst, some, List, [],
  ◌∷◌, ◌++◌, arith, append-nil, append_assoc, take, drop, length, take-append-drop, if_both, ◌==◌,
  if◌then◌else◌, Bool-cases, Option-cases, some-injective,
}
use nrf_proxy.Platform.{Platform}
use nrf_proxy.RingBuf.{RingBuf}
use nrf_proxy.Retry.{uart_rx_retry_warn_once}
use nrf_proxy.Core.Command.{Kind, Cmd, cleared, proxy_cmd_parse}
use nrf_proxy.Core.Command.Framing.{IsFramed, framed-cases, framed_iff}
use nrf_proxy.Core.Command.Packets.{parse-plain}
use nrf_proxy.Core.Command.Echo.{parse-framed}
use nrf_proxy.Core.Hooks.{on_ble_rx, Forwards, hooks_forward}
use nrf_proxy.Bridge.State.{Bridge}
use nrf_proxy.Bridge.Receive.{retry_handler, enable_or_free}
use nrf_proxy.Bridge.Transmit.{send}
use nrf_proxy.Bridge.Api.{Arrivals, uart_bridge_send}
use nrf_proxy.Bridge.Pipeline.{accepted}
use nrf_proxy.Device.State.{Host, Board, Device}
use nrf_proxy.Device.Received.{forward, act_on, nus_received}
use nrf_proxy.Device.Commands.{act_parsed, gated}
use nrf_proxy.Device.Forwarding.{tx_kick-accepted, act_on-accepted}

-- The bytes that chunks, newest first, put into a stream: a command none, any other chunk some of
-- its bytes from the front, and all of them unless `May` allows a loss.
pub data Carried (May : Type 0) : List (List ℕ) → List ℕ → Type 0 where
  nothing : Carried May [] []
  command :
      (chunk : List ℕ) (chunks : List (List ℕ)) (out : List ℕ)
      → IsFramed chunk
      → Carried May chunks out
      → Carried May (chunk ∷ chunks) out
  plain :
      (piece rest : List ℕ) (chunks : List (List ℕ)) (out : List ℕ)
      → ¬ IsFramed (piece ++ rest)
      → (rest ≡ []) ⊎ May
      → Carried May chunks out
      → Carried May ((piece ++ rest) ∷ chunks) (out ++ piece)

pub Carried-map :
    (May Might : Type 0) (chunks : List (List ℕ)) (out : List ℕ)
    → (May → Might)
    → Carried May chunks out
    → Carried Might chunks out
Carried-map May Might _ _ f nothing = nothing
Carried-map May Might _ _ f (command chunk chunks out framed c) =
    command chunk chunks out framed (Carried-map May Might chunks out f c)
Carried-map May Might _ _ f (plain piece rest chunks out unframed all c) =
    plain piece rest chunks out unframed (elim all [ inl end ↦ inl end | inr may ↦ inr (f may) ])
      (Carried-map May Might chunks out f c)

module _ {Ring : Type 0} where
  -- A piece from the front of `chunk` goes into the stream.
  abbrev Gives : Type 0 → List ℕ → Device Ring → Device Ring → Type 0
  Gives May chunk s t =
      (piece : List ℕ) × (rest : List ℕ) × (chunk ≡ piece ++ rest)
      × ((rest ≡ []) ⊎ May)
      × (accepted t.bridge.calls ≡ accepted s.bridge.calls ++ piece)

  -- What the transmit ring took since it had taken `base` is what `chunks` put into the stream.
  abbrev pub Carries : Type 0 → List ℕ → List (List ℕ) → Device Ring → Type 0
  Carries May base chunks s =
      (out : List ℕ) × (accepted s.bridge.calls ≡ base ++ out) × Carried May chunks out

  -- A chunk whose bytes from the front went into the stream.
  Gives-Carries :
      (May : Type 0) (bytes : List ℕ) (s t : Device Ring) (base : List ℕ) (chunks : List (List ℕ))
      → ¬ IsFramed bytes
      → Gives May bytes s t
      → Carries May base chunks s
      → Carries May base (bytes ∷ chunks) t
  Gives-Carries May bytes s t base chunks unframed (piece, rest, whole, all, added)
        (out, taken, carried) =
      (
        out ++ piece,
        added ∙ ap (λ l. l ++ piece) taken ∙ append_assoc base out piece,
        subst (λ l. Carried May (l ∷ chunks) (out ++ piece)) (sym whole)
            (plain piece rest chunks out (subst (λ l. ¬ IsFramed l) whole unframed) all carried),
      )

module _ (R : RingBuf) (p : Platform) where
  open R use {Ring, put}

  sent-accepted :
      (bytes : List ℕ) (b : Bridge Ring)
      → accepted (uart_bridge_send R p bytes b).1.calls
        ≡ accepted b.calls ++ take (put b.tx_ring bytes).0 bytes
  unfolding uart_bridge_send send
  sent-accepted bytes b = tx_kick-accepted R p _

  pub retried-accepted : (b : Bridge Ring) → accepted (retry_handler p b).1.calls ≡ accepted b.calls
  unfolding retry_handler uart_rx_retry_warn_once enable_or_free
  retried-accepted b = ground arith

module _ (R : RingBuf) (p : Platform) (board : Board) (host : Host) where
  open R use {Ring, put}

  -- A chunk loses bytes from its end: the scratch buffer is shorter, or the transmit ring takes less
  -- than the hook's output.
  abbrev pub Crops : List ℕ → List ℕ → Device Ring → Type 0
  Crops bytes scratch s =
      let (n, out) = on_ble_rx bytes scratch in
      (length scratch < length bytes)
      ⊎ ((put s.bridge.tx_ring (take n out)).0 < length (take n out))

  forward-Gives :
      (May : Type 0) (bytes scratch : List ℕ) (s : Device Ring)
      → (Crops bytes scratch s → May)
      → Gives May bytes s (forward R p board host bytes scratch s)
  unfolding forward
  forward-Gives May bytes scratch s may =
      if_both (Gives May bytes s) (n == 0) s _
        (λ z. ([], bytes, refl, nothing_left z, sym (append-nil _)))
        (λ _. (
          take m (take n out),
          drop m (take n out) ++ drop size bytes,
          sym (
              sym (append_assoc (take m (take n out)) (drop m (take n out)) (drop size bytes))
              ∙ ap (λ l. l ++ drop size bytes) (take-append-drop m (take n out) ∙ copied.1)
              ∙ take-append-drop size bytes),
          all_through,
          sent-accepted R p (take n out) s.bridge,
        ))
    where
      n : ℕ
      n = (on_ble_rx bytes scratch).0

      out : List ℕ
      out = (on_ble_rx bytes scratch).1

      size : ℕ
      size = length scratch

      copied : Forwards bytes scratch (on_ble_rx bytes scratch)
      copied = (hooks_forward bytes scratch).1

      m : ℕ
      m = (put s.bridge.tx_ring (take n out)).0

      nothing_left : (n == 0) ≡ true → (bytes ≡ []) ⊎ May
      nothing_left z = elim (dec_lt size (length bytes)) [
        | yes over ↦ inr (may (inl over))
        | no fits ↦
            let none = (==_iff n 0).0 z in inl (drop_all 0 bytes (omega (arith, none, copied.0)))
      ]

      all_through : (drop m (take n out) ++ drop size bytes ≡ []) ⊎ May
      all_through = elim (dec_lt size (length bytes)) [
        | yes over ↦ inr (may (inl over))
        | no fits ↦ elim (dec_lt m (length (take n out))) [
          | yes full ↦ inr (may (inr full))
          | no took ↦ inl (
              ap (λ l. l ++ drop size bytes) (drop_all m (take n out) (omega arith))
              ∙ drop_all size bytes (omega arith))
        ]
      ]

  -- What the parser says of a chunk decides between the two.
  acted-Carries :
      (May : Type 0) (bytes : List ℕ) (cmd : Cmd) (scratch : List ℕ) (arrivals : Arrivals)
      (s : Device Ring) (base : List ℕ) (chunks : List (List ℕ)) (r : Kind × Cmd)
      → proxy_cmd_parse bytes cmd ≡ some r
      → ((¬ IsFramed bytes) × Crops bytes scratch s → May)
      → Carries May base chunks s
      → Carries May base (bytes ∷ chunks) (act_on R p board host r.0 r.1 bytes scratch arrivals s)
  unfolding act_on
  acted-Carries May bytes cmd scratch arrivals s base chunks r parsed may (out, taken, carried) =
      elim (framed-cases bytes) [
        | inl gate ↦
            let f = (framed_iff bytes).0 gate in
            let kind = parse-framed bytes cmd r f parsed in
            let kept = act_on-accepted R p board host r.0 r.1 bytes scratch arrivals s kind in
            (out, kept ∙ taken, command bytes chunks out f carried)
        | inr shut ↦
            let unframed : ¬ IsFramed bytes = λ f. cc (shut, (framed_iff bytes).1 f) in
            let same : r ≡ (Kind.none_cmd, cleared cmd) =
              some-injective r _ (sym parsed ∙ parse-plain bytes cmd unframed) in
            subst
              (λ (k : Kind × Cmd).
                Carries May base (bytes ∷ chunks)
                  (act_on R p board host k.0 k.1 bytes scratch arrivals s))
              (sym same)
              (Gives-Carries May bytes s (forward R p board host bytes scratch s) base chunks
                unframed (forward-Gives May bytes scratch s (λ crops. may (unframed, crops)))
                (out, taken, carried))
      ]

  pub heard-Carries :
      (May : Type 0) (bytes : List ℕ) (cmd : Cmd) (scratch : List ℕ) (arrivals : Arrivals)
      (s t : Device Ring) (base : List ℕ) (chunks : List (List ℕ))
      → nus_received R p board host bytes cmd scratch arrivals s ≡ some t
      → ((s.link_secure ≡ true) × (¬ IsFramed bytes) × Crops bytes scratch s → May)
      → Carries May base chunks s
      → Carries May base (if s.link_secure then bytes ∷ chunks else chunks) t
  unfolding nus_received
  heard-Carries May bytes cmd scratch arrivals s t base chunks e may h =
      elim (Bool-cases s.link_secure) [
        | inr unsafe ↦
            let shut = gated R p board host bytes cmd scratch arrivals s unsafe in
            rw unsafe (subst (Carries May base chunks) (some-injective s t (sym shut ∙ e)) h)
        | inl sec ↦ rw sec (elim (Option-cases (proxy_cmd_parse bytes cmd)) [
          | inl failed ↦ absurd (ground (arith, e, sec, failed))
          | inr (r, parsed) ↦
              let did = act_parsed R p board host bytes cmd scratch arrivals s r sec parsed in
              subst (Carries May base (bytes ∷ chunks)) (some-injective _ t (sym did ∙ e)) (
                acted-Carries May bytes cmd scratch arrivals s base chunks r parsed
                  (λ c. may (sec, c.0, c.1)) h)
        ])
      ]

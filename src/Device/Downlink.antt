-- ===== src/Device/Downlink.antt =====
-- What `ble_write_thread` notifies to phones, against what the receive ring took.
pub mod Writer
pub mod Replies
pub mod History
use nrf_proxy.Base.{
  ℕ, ◌+◌, ◌-◌, ◌<◌, ◌≡◌, ◌⊎◌, inl, inr, refl, sym, ap, ◌∙◌, List, [], ◌∷◌, ◌++◌, append_assoc, take,
  drop, take-append-drop, drop-drop,
}
use nrf_proxy.Platform.{Platform}
use nrf_proxy.RingBuf.{RingBuf}
use nrf_proxy.Core.Command.Framing.{IsFramed}
use nrf_proxy.Bridge.Growth.{stored}
use nrf_proxy.Device.Phase.{Phase, sending, releasing}
use nrf_proxy.Device.State.{Host, Device}
use nrf_proxy.Device.Aside.{sends}

-- Chunks that phones sent, newest first, the notifications that they got, newest first, and the
-- bytes of the stream that are through: a notification is the next piece of the stream, or the echo
-- of a command just sent; other chunks get no answer; bytes of the stream may be lost where `May`
-- allows it.
pub data Notified (May : Type 0) : List (List ℕ) → List (List ℕ) → List ℕ → Type 0 where
  nothing : Notified May [] [] []
  unanswered :
      (chunk : List ℕ) (chunks notes : List (List ℕ)) (stream : List ℕ)
      → Notified May chunks notes stream
      → Notified May (chunk ∷ chunks) notes stream
  echoed :
      (chunk : List ℕ) (chunks notes : List (List ℕ)) (stream : List ℕ)
      → IsFramed chunk
      → Notified May chunks notes stream
      → Notified May (chunk ∷ chunks) (chunk ∷ notes) stream
  passed :
      (piece : List ℕ) (chunks notes : List (List ℕ)) (stream : List ℕ)
      → Notified May chunks notes stream
      → Notified May chunks (piece ∷ notes) (stream ++ piece)
  lost :
      (piece : List ℕ) (chunks notes : List (List ℕ)) (stream : List ℕ)
      → May
      → Notified May chunks notes stream
      → Notified May chunks notes (stream ++ piece)

Notified-map :
    (May Might : Type 0) (chunks notes : List (List ℕ)) (stream : List ℕ)
    → (May → Might)
    → Notified May chunks notes stream
    → Notified Might chunks notes stream
Notified-map May Might _ _ _ f nothing = nothing
Notified-map May Might _ _ _ f (unanswered chunk chunks notes stream n) =
    unanswered chunk chunks notes stream (Notified-map May Might chunks notes stream f n)
Notified-map May Might _ _ _ f (echoed chunk chunks notes stream framed n) =
    echoed chunk chunks notes stream framed (Notified-map May Might chunks notes stream f n)
Notified-map May Might _ _ _ f (passed piece chunks notes stream n) =
    passed piece chunks notes stream (Notified-map May Might chunks notes stream f n)
Notified-map May Might _ _ _ f (lost piece chunks notes stream may n) =
    lost piece chunks notes stream (f may) (Notified-map May Might chunks notes stream f n)

-- What the writer has taken off the ring and not dealt with: the rest of its input, and what the
-- hook cut off.
abbrev pub Pending : Phase → List ℕ → List ℕ → Type 0
Pending (Phase.hooking chunk max_send) left cut = (left ≡ []) × (0 < max_send)
Pending (Phase.sending input sent max_send) left cut =
    (left ≡ drop sent input ++ cut) × (0 < max_send)
Pending _ left cut = left ≡ []

-- Every byte that the ring took is through, with the writer, or in the ring, in this order; the hook
-- cuts only where `May` allows a loss.
abbrev pub Accounts : Type 0 → List (List ℕ) → Phase → List (List ℕ) → List ℕ → List ℕ → Type 0
Accounts May chunks phase notes took held =
    (stream : List ℕ) × (left : List ℕ) × (cut : List ℕ) × Notified May chunks notes stream
    × Pending phase left cut
    × ((cut ≡ []) ⊎ May)
    × (took ≡ stream ++ (left ++ held))

pub Accounts-map :
    (May Might : Type 0) (chunks : List (List ℕ)) (phase : Phase) (notes : List (List ℕ))
    (took held : List ℕ)
    → (May → Might)
    → Accounts May chunks phase notes took held
    → Accounts Might chunks phase notes took held
Accounts-map May Might chunks phase notes took held f (stream, left, cut, told, waits, whole, e) = (
  stream,
  left,
  cut,
  Notified-map May Might chunks notes stream f told,
  waits,
  elim whole [ inl none_cut ↦ inl none_cut | inr may ↦ inr (f may) ],
  e,
)

module _ (May : Type 0) where
  -- Chunks and notifications that account for the same stream.
  pub Accounts-told :
      (before after : List (List ℕ)) (phase : Phase) (notes notes' : List (List ℕ))
      (took held : List ℕ)
      → ((stream : List ℕ) → Notified May before notes stream → Notified May after notes' stream)
      → Accounts May before phase notes took held
      → Accounts May after phase notes' took held
  Accounts-told before after phase notes notes' took held f
        (stream, left, cut, told, waits, whole, e) =
      (stream, left, cut, f stream told, waits, whole, e)

  pub Accounts-more :
      (chunks : List (List ℕ)) (phase : Phase) (notes : List (List ℕ)) (took held more : List ℕ)
      → Accounts May chunks phase notes took held
      → Accounts May chunks phase notes (took ++ more) (held ++ more)
  Accounts-more chunks phase notes took held more (stream, left, cut, told, waits, whole, e) = (
    stream,
    left,
    cut,
    told,
    waits,
    whole,
    ap (λ l. l ++ more) e
        ∙ append_assoc stream (left ++ held) more
        ∙ ap (λ l. stream ++ l) (append_assoc left held more),
  )

  -- The writer lets go of its bytes and of the oldest `xs` in the ring.
  pub Accounts-lose :
      (chunks : List (List ℕ)) (phase : Phase) (notes : List (List ℕ)) (took xs held : List ℕ)
      → May
      → Accounts May chunks phase notes took (xs ++ held)
      → Accounts May chunks Phase.releasing notes took held
  Accounts-lose chunks phase notes took xs held may (stream, left, cut, told, waits, whole, e) = (
    stream ++ (left ++ xs),
    [],
    [],
    lost (left ++ xs) chunks notes stream may told,
    refl,
    inl refl,
    e
        ∙ ap (λ l. stream ++ l) (sym (append_assoc left xs held))
        ∙ sym (append_assoc stream (left ++ xs) held),
  )

  -- The host has taken all of the writer's input.
  pub Accounts-done :
      (chunks : List (List ℕ)) (input : List ℕ) (sent max_send : ℕ) (notes : List (List ℕ))
      (took held : List ℕ)
      → drop sent input ≡ []
      → Accounts May chunks (Phase.sending input sent max_send) notes took held
      → Accounts May chunks Phase.releasing notes took held
  Accounts-done chunks input sent max_send notes took held end
        (stream, left, cut, told, waits, whole, e) =
      elim whole [
        | inl none_cut ↦
            let empty : left ≡ [] = waits.0 ∙ ap (λ l. l ++ cut) end ∙ none_cut in
            (stream, left, cut, told, empty, inl none_cut, e)
        | inr may ↦
            Accounts-lose chunks (Phase.sending input sent max_send) notes took [] held may
              (stream, left, cut, told, waits, inr may, e)
      ]

  -- The host took the next `slice` bytes of the writer's input.
  pub Accounts-pass :
      (chunks : List (List ℕ)) (input : List ℕ) (sent slice max_send : ℕ) (notes : List (List ℕ))
      (took held : List ℕ)
      → Accounts May chunks (Phase.sending input sent max_send) notes took held
      → Accounts May chunks
          (Phase.sending input (sent + slice) max_send)
          (take slice (drop sent input) ∷ notes)
          took
          held
  Accounts-pass chunks input sent slice max_send notes took held
        (stream, left, cut, told, (f, limit), whole, e) =
      let piece = take slice (drop sent input) in
      let rest = drop (sent + slice) input in
      let split =
        f
        ∙ ap (λ l. l ++ cut)
            (sym (take-append-drop slice (drop sent input))
              ∙ ap (λ l. piece ++ l) (drop-drop slice sent input))
        ∙ append_assoc piece rest cut in
      (
        stream ++ piece,
        rest ++ cut,
        cut,
        passed piece chunks notes stream told,
        (refl, limit),
        whole,
        e
            ∙ ap (λ l. stream ++ (l ++ held)) split
            ∙ ap (λ l. stream ++ l) (append_assoc piece (rest ++ cut) held)
            ∙ sym (append_assoc stream piece ((rest ++ cut) ++ held)),
      )

module _ (R : RingBuf) (p : Platform) (host : Host) where
  open R use {Ring, contents, pending, claim, finish, claim_bytes, claim_contents, finish_contents}

  abbrev pub InAccount : Type 0 → List (List ℕ) → Device Ring → Type 0
  InAccount May chunks s =
      Accounts May chunks s.writer (sends s.calls) (stored s.bridge.calls)
        (contents s.bridge.rx_ring)

-- ===== src/Bridge/Drain.antt =====
-- The consumer side of the receive ring: `uart_bridge_rx_drain`.
use native.Mathlib.Decide.{ℕ_discrete}
use nrf_proxy.Base.{
  ℕ, zero, suc, ◌-◌, ◌≤◌, ◌<◌, ◌≡◌, ◌≢◌, refl, sym, ap, ◌∙◌, List, [], ◌∷◌, arith, some, length,
  drop, length-drop, length-take, ◌^◌, ==_ne,
}
use nrf_proxy.Platform.{Platform}
use nrf_proxy.RingBuf.{RingBuf}
use nrf_proxy.Bridge.State.{Bridge}
use nrf_proxy.Bridge.Api.{drain_loop, uart_bridge_rx_drain}

nil_or_length : (xs : List ℕ) → (xs ≢ []) → length xs ≢ 0
nil_or_length [] h e = h refl
nil_or_length (x ∷ xs) h e = omega arith

module _ (R : RingBuf) (p : Platform) where
  open R use {
    Ring, contents, pending, put, claim, finish, put_count, put_contents, claim_bound, claim_bytes,
    claim_some, claim_contents, claim_pending, finish_contents, finish_pending,
  }

  -- An empty claim means an empty ring.
  pub claim_empty :
      (r : Ring) (n : ℕ) → pending r ≡ 0 → 0 < n → length (claim r n).0 ≡ 0 → contents r ≡ []
  claim_empty r n free h z = empty (contents r) refl
    where
      empty : (xs : List ℕ) → contents r ≡ xs → contents r ≡ []
      empty [] e = e
      empty (x ∷ xs) e = absurd (omega (arith, claim_some r n free (λ c. cc (sym e ∙ c)) h))

  pub claim_le_contents :
      (r : Ring) (n : ℕ) → pending r ≡ 0 → length (claim r n).0 ≤ length (contents r)
  claim_le_contents r n free =
      omega
        (arith, ap length (claim_bytes r n free), length-take (length (claim r n).0) (contents r))

  -- A claim and its finish take the claimed bytes from the front, and leave no claim open.
  pub taken_contents :
      (r : Ring) (n : ℕ)
      → pending r ≡ 0
      → let k = length (claim r n).0 in
        (contents (finish (claim r n).1 k) ≡ drop k (contents r))
        × (pending (finish (claim r n).1 k) ≡ 0)
  taken_contents r n free =
      let k = length (claim r n).0 in
      let open_claim : k ≤ pending (claim r n).1 = omega (arith, claim_pending r n) in
      (
        finish_contents (claim r n).1 k open_claim ∙ ap (drop k) (claim_contents r n),
        finish_pending (claim r n).1 k open_claim,
      )

  drain_loop_total :
      (fuel : ℕ) (r : Ring)
      → pending r ≡ 0
      → length (contents r) < fuel
      → (t : Ring) × (drain_loop R p fuel r ≡ some t) × (contents t ≡ []) × (pending t ≡ 0)
  unfolding drain_loop
  drain_loop_total zero r free h = absurd (omega arith)
  drain_loop_total (suc fuel) r free h = elim (ℕ_discrete (length (claim r (2 ^ 32 - 1)).0) 0) [
    | yes z ↦ (
      (claim r (2 ^ 32 - 1)).1,
      rw z refl,
      claim_contents r _ ∙ claim_empty r _ free (omega arith) z,
      omega (arith, claim_pending r (2 ^ 32 - 1)),
    )
    | no nz ↦
        let k = length (claim r (2 ^ 32 - 1)).0 in
        let (left, closed) = taken_contents r (2 ^ 32 - 1) free in
        let (t, e, empty, closed') =
          drain_loop_total fuel (finish (claim r (2 ^ 32 - 1)).1 k) closed (
            omega (
              arith,
              ap length left,
              length-drop k (contents r),
              claim_le_contents r (2 ^ 32 - 1) free,
            )) in
        (t, rw (==_ne k 0 nz) e, empty, closed')
  ]

  -- Called with no claim open and more fuel than the ring holds bytes, the drain ends, and leaves
  -- the receive ring empty, with no claim open, and everything else as it was.
  pub rx_drain_total :
      (fuel : ℕ) (s : Bridge Ring)
      → pending s.rx_ring ≡ 0
      → length (contents s.rx_ring) < fuel
      → (ring : Ring) × (uart_bridge_rx_drain R p fuel s ≡ some (record s { rx_ring = ring }))
        × (contents ring ≡ [])
        × (pending ring ≡ 0)
  unfolding uart_bridge_rx_drain
  rx_drain_total fuel s free h =
      let (ring, e, empty, closed) = drain_loop_total fuel s.rx_ring free h in
      (ring, rw (e, uart_bridge_rx_drain), empty, closed)

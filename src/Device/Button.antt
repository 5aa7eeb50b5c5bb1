-- ===== src/Device/Button.antt =====
-- What the bond-reset button needs at boot.
use nrf_proxy.Base.{ℕ, zero, suc, ◌%◌, ◌≡◌, refl, Bool, true, ◌&&◌, ◌==◌, arith}
use nrf_proxy.Device.State.{Board, Device, Status}
use nrf_proxy.Device.Leds.{set_led}
use nrf_proxy.Device.Boot.{hold_loop, bond_reset_requested}

-- Every reading from `i` on, for `n` rounds.
abbrev pub held_for : (ℕ → Bool) → ℕ → ℕ → Bool
held_for pressed zero i = true
held_for pressed (suc n) i = pressed i && held_for pressed n (suc i)

module _ {Ring : Type 0} (board : Board) where
  hold_loop_lem :
      (pressed : ℕ → Bool) (n i : ℕ) (s : Device Ring)
      → (hold_loop board pressed n i s).0 ≡ held_for pressed n i
  unfolding hold_loop
  hold_loop_lem pressed zero i s = refl
  hold_loop_lem pressed (suc n) i s =
      ground
        (arith, hold_loop_lem pressed n (suc i) (set_led board Status.advertising (i % 2 == 1) s))

  -- `bond_reset_requested` answers that a reset is asked for exactly when the board has a button, it
  -- is ready, and it is down at boot and at each of the 30 polls.
  pub bond_reset_needs_hold :
      (at_boot : Bool) (pressed : ℕ → Bool) (s : Device Ring)
      → (bond_reset_requested board at_boot pressed s).0
        ≡ (board.button_port && board.button_ready && at_boot && held_for pressed 30 0)
  unfolding bond_reset_requested
  bond_reset_needs_hold at_boot pressed s = ground (arith, hold_loop_lem pressed 30 0 s)

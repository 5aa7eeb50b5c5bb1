-- ===== src/Core/Hooks/Tests.antt =====
-- The hooks at a concrete chunk.
use nrf_proxy.Base.{◌≡◌, refl, [], ◌∷◌}
use nrf_proxy.Core.Hooks.{on_ble_rx}

truncates : on_ble_rx (1 ∷ 2 ∷ 3 ∷ []) (9 ∷ 9 ∷ []) ≡ (2, 1 ∷ 2 ∷ [])
unfolding on_ble_rx
truncates = refl

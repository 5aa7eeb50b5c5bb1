-- ===== src/Core/Link.antt =====
-- The link and advertising policy of src/proxy_core.c, over the snapshot of src/proxy_core.h.
use nrf_proxy.Base.{ℕ, Bool, not, ◌&&◌}

-- `struct proxy_link_state`
pub record LinkState : Type 0 where
  pub connected : Bool
  pub adv_active : Bool
  pub link_secure : Bool
  pub locked_mode : Bool

unfoldable pub proxy_should_start_adv : LinkState → Bool
proxy_should_start_adv state = not state.connected && not state.adv_active

unfoldable pub proxy_may_forward : LinkState → Bool
proxy_may_forward state = state.connected && state.link_secure

abbrev pub security_window_ms : ℕ
security_window_ms = 60000

-- The parameter is not used.
unfoldable pub proxy_security_window_ms : Bool → ℕ
proxy_security_window_ms locked_mode = security_window_ms

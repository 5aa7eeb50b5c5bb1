-- ===== src/Device/Payload/Air.antt =====
-- What a unit advertises after its boot.
use nrf_proxy.Base.{
  ℕ, ◌+◌, ◌-◌, ◌≤◌, ◌<◌, ◌≡◌, refl, ap, ap₂, ◌∙◌, Bool, true, not, some, List, [], ◌∷◌, ◌++◌, arith,
  All, if◌then◌else◌, length, take, drop, replicate, length-append, take-append_length, if_both,
}
use nrf_proxy.Base.Int.{pos, ◌==ℤ◌}
use nrf_proxy.Platform.{Platform}
use nrf_proxy.RingBuf.{RingBuf}
use nrf_proxy.Core.Link.{proxy_should_start_adv}
use nrf_proxy.Core.Identity.{Identity}
use nrf_proxy.Core.Identity.Derive.{IsSized, identity_of, derive_identified}
use nrf_proxy.Device.State.{HostCall, Host, Board, Device, Status, log_host}
use nrf_proxy.Device.Leds.{set_led, set_status_leds}
use nrf_proxy.Device.Advertising.{advertising_start}
use nrf_proxy.Device.Link.{accept_bonds, clear_accept_list, refresh_locked_mode}
use nrf_proxy.Device.Boot.{identity_init, strlen, name_and_advertise}
use nrf_proxy.Device.Payload.{
  ad, payload_len, name_assertion, letters, fields, fits, name_parts, strlen-text, letters-text,
}

module _ {Ring : Type 0} (board : Board) (host : Host) where
  -- What the payload is made of stays as it is.
  abbrev SamePayload : Device Ring → Device Ring → Type 0
  SamePayload s t =
      (t.identity ≡ s.identity) × (t.mfg_data ≡ s.mfg_data) × (t.name_len ≡ s.name_len)

  started-payload : (s : Device Ring) → SamePayload s (advertising_start board host s)
  unfolding advertising_start proxy_should_start_adv set_status_leds set_led
  started-payload s = ground arith

  error-payload : (s : Device Ring) → SamePayload s (set_status_leds board Status.error s)
  unfolding set_status_leds set_led
  error-payload s = (refl, refl, refl)

  accept_bonds-payload :
      (bonds : List ℕ) (s t : Device Ring)
      → SamePayload s t
      → SamePayload s (accept_bonds board host bonds t)
  unfolding accept_bonds
  accept_bonds-payload [] s t e = e
  accept_bonds-payload (addr ∷ bonds) s t e = accept_bonds-payload bonds s _ (ground arith)

  refreshed-payload : (s : Device Ring) → SamePayload s (refresh_locked_mode board host s)
  unfolding refresh_locked_mode
  refreshed-payload s =
      let a =
        accept_bonds-payload (host.bonds s.calls) s (clear_accept_list board host s)
          (refl, refl, refl) in
      ground arith

  -- `identity_init` with a hardware ID of six bytes or more.
  identified :
      (a0 a1 a2 a3 a4 a5 : ℕ) (rest : List ℕ) (n : ℕ) (s : Device Ring)
      → host.id_bytes ≡ a0 ∷ a1 ∷ a2 ∷ a3 ∷ a4 ∷ a5 ∷ rest
      → host.id_len ≡ pos n
      → 6 ≤ n
      → IsSized s.identity
      → s.mfg_data ≡ 255 ∷ 255 ∷ b'N' ∷ b'P' ∷ 0 ∷ 0 ∷ 0 ∷ 0 ∷ []
      → (u : Device Ring) × (identity_init board host s ≡ some u)
        × (u.identity ≡ identity_of board.device_name a0 a1 a2 a3 a4 a5)
        × (u.mfg_data ≡ 255 ∷ 255 ∷ b'N' ∷ b'P' ∷ a0 ∷ a1 ∷ a2 ∷ a3 ∷ [])
  unfolding identity_init
  identified a0 a1 a2 a3 a4 a5 rest n s bytes len enough sized tagged =
      let id = identity_of board.device_name a0 a1 a2 a3 a4 a5 in
      let u : Device Ring = record s {
        identity = id;
        mfg_data = take 4 s.mfg_data ++ id.mfg_id ++ drop 8 s.mfg_data;
        calls = HostCall.id_create id.addr (host.id_create_err s.calls id.addr) ∷ s.calls;
      } in
      let derived =
        derive_identified board.device_name a0 a1 a2 a3 a4 a5 rest n s.identity enough sized in
      (u, rw (bytes, len, derived) refl, refl, rw tagged refl)

module _ {Ring : Type 0} where
  shown :
      (u v w t : Device Ring)
      → (v.identity ≡ u.identity)
        × (v.mfg_data ≡ u.mfg_data)
        × (v.name_len ≡ strlen u.identity.name)
      → (w.identity ≡ v.identity) × (w.mfg_data ≡ v.mfg_data) × (w.name_len ≡ v.name_len)
      → (t.identity ≡ w.identity) × (t.mfg_data ≡ w.mfg_data) × (t.name_len ≡ w.name_len)
      → (t.identity ≡ u.identity)
        × (t.mfg_data ≡ u.mfg_data)
        × (t.name_len ≡ strlen u.identity.name)
  shown u v w t (a, b, c) (d, e, f) (g, h, i) = (g ∙ d ∙ a, h ∙ e ∙ b, i ∙ f ∙ c)

module _ (R : RingBuf) (p : Platform) (board : Board) (host : Host) where
  open R use {Ring}

  abbrev Shows : Device Ring → Device Ring → Type 0
  Shows u t =
      (t.identity ≡ u.identity) × (t.mfg_data ≡ u.mfg_data) × (t.name_len ≡ strlen u.identity.name)

  named-Shows :
      (reset : Bool) (u : Device Ring) → Shows u (name_and_advertise R p board host reset u)
  unfolding name_and_advertise
  named-Shows reset u =
      let named : Device Ring =
        record (log_host (HostCall.set_name u.identity.name (host.set_name_err u.calls)) u) {
          name_len = strlen u.identity.name;
        } in
      let nus_err = host.nus_init_err named.calls in
      let up = log_host (HostCall.nus_init nus_err) named in
      let unpaired = log_host (HostCall.unpair (host.unpair_err up.calls)) up in
      let wiped : Device Ring = if reset then unpaired else up in
      let locked = refresh_locked_mode board host wiped in
      if_both (Shows u) (not (nus_err ==ℤ pos 0)) (set_status_leds board Status.error up)
        (advertising_start board host locked) (λ _. error-payload board host up)
        (λ _.
          shown u wiped locked (advertising_start board host locked)
            (if_both (Shows u) reset unpaired up (λ _. (refl, refl, refl))
              (λ _. (refl, refl, refl)))
            (refreshed-payload board host wiped) (started-payload board host locked))

  -- A unit with a hardware ID of six bytes or more and a base name that passes the build's
  -- assertion, all of it characters: after `identity_init`, and the name set, whatever else fails in
  -- the boot, its advertising data are the flags, the base name with the suffix and no more, and
  -- the manufacturer data with the tag and the first four bytes of the ID; their size is 20 bytes
  -- and the base name's.
  pub unit_on_air :
      (reset : Bool) (a0 a1 a2 a3 a4 a5 : ℕ) (rest : List ℕ) (n : ℕ) (s : Device Ring)
      → host.id_bytes ≡ a0 ∷ a1 ∷ a2 ∷ a3 ∷ a4 ∷ a5 ∷ rest
      → host.id_len ≡ pos n
      → 6 ≤ n
      → IsSized s.identity
      → s.mfg_data ≡ 255 ∷ 255 ∷ b'N' ∷ b'P' ∷ 0 ∷ 0 ∷ 0 ∷ 0 ∷ []
      → name_assertion board.device_name ≡ true
      → All (λ c. 0 < c) board.device_name
      → (u : Device Ring) × (identity_init board host s ≡ some u)
        × (let t = name_and_advertise R p board host reset u in
            (ad t
              ≡ record { kind = 0x01; bytes = 0x06 ∷ [] }
                ∷ record { kind = 0x09; bytes = board.device_name ++ letters a5 a4 }
                ∷ record { kind = 0xff; bytes = 255 ∷ 255 ∷ b'N' ∷ b'P' ∷ a0 ∷ a1 ∷ a2 ∷ a3 ∷ [] }
                ∷ [])
            × (payload_len (ad t) ≡ 20 + length board.device_name))
  unit_on_air reset a0 a1 a2 a3 a4 a5 rest n s bytes len enough sized tagged short text =
      let (u, e, id, mfg) =
        identified board host a0 a1 a2 a3 a4 a5 rest n s bytes len enough sized tagged in
      let (same, tag, count) = named-Shows reset u in
      let t = name_and_advertise R p board host reset u in
      let base = board.device_name in
      let parts = name_parts base a5 a4 (fits base short) in
      let chars = letters-text base a5 a4 text in
      let name = ap (λ (r : Identity). r.name) (same ∙ id) ∙ parts in
      let size =
        count
        ∙ ap (λ (r : Identity). strlen r.name) id
        ∙ ap strlen parts
        ∙ strlen-text (base ++ letters a5 a4) (replicate (14 - length base) 0) chars in
      let shown =
        ap₂ take size name
        ∙ take-append_length (base ++ letters a5 a4) _ (length (base ++ letters a5 a4)) refl in
      let air = ap₂ fields shown (tag ∙ mfg) in
      (u, e, (air, ap payload_len air ∙ omega (arith, length-append base (letters a5 a4))))

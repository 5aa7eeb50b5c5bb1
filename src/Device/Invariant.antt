-- ===== src/Device/Invariant.antt =====
-- What holds of the link, the relay and the advertiser between the steps of the device.
use nrf_proxy.Base.{◌+◌, ◌≡◌, ◌⊎◌, Bool, true, false, [], ◌∷◌, if◌then◌else◌}
use nrf_proxy.Bridge.Recovery.{armed}
use nrf_proxy.Device.Phase.{writer_refs}
use nrf_proxy.Device.State.{HostCall, Calls, Board, Device, Status}

-- Whether a disconnection has been asked for since the last link came up.
abbrev pub dropping : Calls → Bool
dropping [] = false
dropping (HostCall.disconnect err ∷ tr) = true
dropping (HostCall.link_up ∷ tr) = false
dropping (_ ∷ tr) = dropping tr

module _ {Ring : Type 0} (board : Board) where
  pub record IsLinked (s : Device Ring) : Type 0 where
    -- only a link that is up is secure, and no advertiser runs beside it
    pub secure : s.link_secure ≡ true → s.current_conn ≡ true
    pub one : s.current_conn ≡ true → s.adv_active ≡ false
    -- an enabled relay has its owner on an encrypted link, or the grace timer runs
    pub held :
        s.relay_enabled ≡ true
        → (s.current_conn ≡ true) × (s.link_secure ≡ true) ⊎ (armed s.relay_grace_work ≡ true)
    pub wired : s.relay_enabled ≡ true → board.relay_port ≡ true
    pub pin : s.relay_pin ≡ s.relay_enabled
    -- an unencrypted link has its watchdog armed, or is being dropped
    pub watched :
        s.current_conn ≡ true
        → s.link_secure ≡ false
        → (armed s.security_timeout_work ≡ true) ⊎ (dropping s.calls ≡ true)
    -- `current_conn` is one reference to the connection object, the writer's own is another
    pub counted : s.conn_refs ≡ (if s.current_conn then 1 else 0) + writer_refs s.writer
    -- the LED roles follow
    pub shown : s.current_conn ≡ true → s.current_status ≡ Status.connected
    pub blinks : s.adv_active ≡ true → s.current_status ≡ Status.advertising

  -- The invariant as one product, for automation.
  abbrev pub Facts : Device Ring → Type 0
  Facts s =
      (s.link_secure ≡ true → s.current_conn ≡ true)
      × (s.current_conn ≡ true → s.adv_active ≡ false)
      × (s.relay_enabled ≡ true
          → (s.current_conn ≡ true) × (s.link_secure ≡ true) ⊎ (armed s.relay_grace_work ≡ true))
      × (s.relay_enabled ≡ true → board.relay_port ≡ true)
      × (s.relay_pin ≡ s.relay_enabled)
      × (s.current_conn ≡ true
          → s.link_secure ≡ false
          → (armed s.security_timeout_work ≡ true) ⊎ (dropping s.calls ≡ true))
      × (s.conn_refs ≡ (if s.current_conn then 1 else 0) + writer_refs s.writer)
      × (s.current_conn ≡ true → s.current_status ≡ Status.connected)
      × (s.adv_active ≡ true → s.current_status ≡ Status.advertising)

  pub Facts-IsLinked : (s : Device Ring) → Facts s → IsLinked s
  Facts-IsLinked s (a, b, c, d, e, f, g, h, i) = record {
    secure = a;
    one = b;
    held = c;
    wired = d;
    pin = e;
    watched = f;
    counted = g;
    shown = h;
    blinks = i;
  }

  -- Someone can reach the device: a link or an advertiser is up, or one of them will be.
  abbrev pub IsReachable : Bool → Device Ring → Type 0
  IsReachable recycling s =
      (s.current_conn ≡ true)
      ⊎ (s.adv_active ≡ true)
      ⊎ (armed s.adv_retry_work ≡ true)
      ⊎ (recycling ≡ true)

  -- The same link, seen from the invariant.
  pub record Same (s t : Device Ring) : Type 0 where
    pub conn : t.current_conn ≡ s.current_conn
    pub sec : t.link_secure ≡ s.link_secure
    pub adv : t.adv_active ≡ s.adv_active
    pub relay : t.relay_enabled ≡ s.relay_enabled
    pub level : t.relay_pin ≡ s.relay_pin
    pub grace : t.relay_grace_work ≡ s.relay_grace_work
    pub timeout : t.security_timeout_work ≡ s.security_timeout_work
    pub retry : t.adv_retry_work ≡ s.adv_retry_work
    pub drops : dropping t.calls ≡ dropping s.calls
    pub refs : t.conn_refs ≡ s.conn_refs
    pub phase : t.writer ≡ s.writer
    pub status : t.current_status ≡ s.current_status

  abbrev pub Agree : Device Ring → Device Ring → Type 0
  Agree s t =
      (t.current_conn ≡ s.current_conn)
      × (t.link_secure ≡ s.link_secure)
      × (t.adv_active ≡ s.adv_active)
      × (t.relay_enabled ≡ s.relay_enabled)
      × (t.relay_pin ≡ s.relay_pin)
      × (t.relay_grace_work ≡ s.relay_grace_work)
      × (t.security_timeout_work ≡ s.security_timeout_work)
      × (t.adv_retry_work ≡ s.adv_retry_work)
      × (dropping t.calls ≡ dropping s.calls)
      × (t.conn_refs ≡ s.conn_refs)
      × (t.writer ≡ s.writer)
      × (t.current_status ≡ s.current_status)

  pub Agree-Same : (s t : Device Ring) → Agree s t → Same s t
  Agree-Same s t (a, b, c, d, e, f, g, h, i, j, l, k) = record {
    conn = a;
    sec = b;
    adv = c;
    relay = d;
    level = e;
    grace = f;
    timeout = g;
    retry = h;
    drops = i;
    refs = j;
    phase = l;
    status = k;
  }

  pub Same-IsLinked : (s t : Device Ring) → Same s t → IsLinked s → IsLinked t
  Same-IsLinked s t e v = record {
    secure = rw (e.sec, e.conn) v.secure;
    one = rw (e.conn, e.adv) v.one;
    held = rw (e.relay, e.conn, e.sec, e.grace) v.held;
    wired = rw e.relay v.wired;
    pin = rw (e.level, e.relay) v.pin;
    watched = rw (e.conn, e.sec, e.timeout, e.drops) v.watched;
    counted = rw (e.refs, e.conn, e.phase) v.counted;
    shown = rw (e.conn, e.status) v.shown;
    blinks = rw (e.adv, e.status) v.blinks;
  }

  pub Same-IsReachable :
      (s t : Device Ring) (w : Bool) → Same s t → IsReachable w s → IsReachable w t
  Same-IsReachable s t w e h = rw (e.conn, e.adv, e.retry) h

-- ===== src/Device/Timers.antt =====
-- The slow interval and the bonds keep the invariant.
use nrf_proxy.Base.{
  ℕ, ◌≡◌, refl, ◌∙◌, Bool, true, false, not, ◌||◌, List, [], ◌∷◌, arith, if◌then◌else◌, ltb, length,
  if_both,
}
use nrf_proxy.Base.Int.{ℤ, pos, ◌==ℤ◌}
use nrf_proxy.Platform.{rescheduled}
use nrf_proxy.Device.State.{HostCall, Calls, Host, Board, Device, log_host}
use nrf_proxy.Device.Advertising.{slow_failed, adv_slow_handler}
use nrf_proxy.Device.Link.{accept_bonds, clear_accept_list, refresh_locked_mode}
use nrf_proxy.Device.Invariant.{Agree-Same, Facts-IsLinked, dropping, IsLinked, IsReachable, Same}
use nrf_proxy.Device.Keeps.{slow_failed-IsLinked}
use nrf_proxy.Platform.{Work}

module _ {Ring : Type 0} (board : Board) (host : Host) where
  -- The slow start failed, with the mutex still held.
  failed_start : ℤ → ℤ → Device Ring → Device Ring
  failed_start stop_err start_err s = record s {
    adv_active = false;
    calls =
        HostCall.adv_start (record { slow = true; filtered = s.locked_mode }) start_err
        ∷ HostCall.adv_stop stop_err
        ∷ s.calls;
  }

  failed_start-IsLinked :
      (a b : ℤ) (s : Device Ring) → IsLinked board s → IsLinked board (failed_start a b s)
  unfolding failed_start
  failed_start-IsLinked a b s v = Facts-IsLinked board _ (ground arith)

  steady-IsLinked :
      (s : Device Ring) (work : Work) (phase : Bool) (tr : Calls)
      → dropping tr ≡ dropping s.calls
      → IsLinked board s
      → IsLinked board (record s { adv_slow_work = work; adv_slow_phase = phase; calls = tr })
  steady-IsLinked s work phase tr e v = Facts-IsLinked board _ (ground arith)

  pub slow-IsLinked :
      (gap : Device Ring → Device Ring) (s : Device Ring)
      → ((t : Device Ring) → t.current_conn ≡ false → IsLinked board t → IsLinked board (gap t))
      → IsLinked board s
      → IsLinked board (adv_slow_handler board host gap s)
  unfolding adv_slow_handler failed_start
  slow-IsLinked gap s keep v =
      if_both (IsLinked board) (s.current_conn || not s.adv_active) s _ (λ _. v)
        (λ free.
          if_both (IsLinked board) (not (stop_err ==ℤ pos 0)) stopped switched
            (λ _.
              steady-IsLinked s (rescheduled 1000) s.adv_slow_phase
                (HostCall.adv_stop stop_err ∷ s.calls) refl v)
            (λ _.
              if_both (IsLinked board) (not (start_err ==ℤ pos 0))
                (slow_failed board host (gap failed)) restarted
                (λ _.
                  slow_failed-IsLinked board host (gap failed)
                    (keep failed (down free) (failed_start-IsLinked stop_err start_err s v)))
                (λ _. steady-IsLinked s s.adv_slow_work true restarted.calls refl v)))
    where
      stop_err : ℤ
      stop_err = host.adv_stop_err s.calls

      start_err : ℤ
      start_err =
          host.adv_start_err (HostCall.adv_stop stop_err ∷ s.calls)
            (record { slow = true; filtered = s.locked_mode })

      stopped : Device Ring
      stopped = record s {
        adv_slow_work = rescheduled 1000;
        calls = HostCall.adv_stop stop_err ∷ s.calls;
      }

      failed : Device Ring
      failed = failed_start stop_err start_err s

      restarted : Device Ring
      restarted = record s { adv_slow_phase = true; calls = failed.calls }

      switched : Device Ring
      switched =
          if not (start_err ==ℤ pos 0) then slow_failed board host (gap failed) else restarted

      down : (s.current_conn || not s.adv_active) ≡ false → s.current_conn ≡ false
      down free = ground arith

  pub slow-IsReachable :
      (gap : Device Ring → Device Ring) (s : Device Ring) (w : Bool)
      → IsReachable board w s
      → IsReachable board w (adv_slow_handler board host gap s)
  unfolding adv_slow_handler slow_failed
  slow-IsReachable gap s w h = ground arith

  pub Same-trans : (s t u : Device Ring) → Same board s t → Same board t u → Same board s u
  Same-trans s t u e f = record {
    conn = f.conn ∙ e.conn;
    sec = f.sec ∙ e.sec;
    adv = f.adv ∙ e.adv;
    relay = f.relay ∙ e.relay;
    level = f.level ∙ e.level;
    grace = f.grace ∙ e.grace;
    timeout = f.timeout ∙ e.timeout;
    retry = f.retry ∙ e.retry;
    drops = f.drops ∙ e.drops;
    refs = f.refs ∙ e.refs;
    phase = f.phase ∙ e.phase;
    status = f.status ∙ e.status;
  }

  added-Same :
      (s : Device Ring) (addr : ℕ) (err : ℤ)
      → let t = log_host (HostCall.accept_add addr err) s in
        Same board s (if err ==ℤ pos 0 then record t { accept_list = addr ∷ t.accept_list } else t)
  added-Same s addr err = Agree-Same board _ _ (ground arith)

  accept_bonds-Same :
      (bonds : List ℕ) (s : Device Ring) → Same board s (accept_bonds board host bonds s)
  unfolding accept_bonds
  accept_bonds-Same [] s = Agree-Same board _ _ (ground arith)
  accept_bonds-Same (addr ∷ bonds) s =
      Same-trans s _ _ (added-Same s addr (host.accept_add_err s.calls addr))
        (accept_bonds-Same bonds _)

  locked-Same :
      (s t : Device Ring) (locked : Bool)
      → Same board s t
      → Same board s (record t { locked_mode = locked })
  locked-Same s t locked e = Agree-Same board _ _ (ground arith)

  pub refresh-Same : (s : Device Ring) → Same board s (refresh_locked_mode board host s)
  unfolding refresh_locked_mode
  refresh-Same s = locked-Same s _ (ltb 0 (length bonds)) (
      if_both (Same board s) (ltb 0 (length bonds)) _ _
        (λ _. Same-trans s cleared _ start (accept_bonds-Same bonds cleared)) (λ _. start))
    where
      bonds : List ℕ
      bonds = host.bonds s.calls

      cleared : Device Ring
      cleared = clear_accept_list board host s

      start : Same board s cleared
      start = Agree-Same board _ _ (ground arith)

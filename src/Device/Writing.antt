-- ===== src/Device/Writing.antt =====
-- What holds of a partial result, and that `send_processed` leaves the link alone.
use nrf_proxy.Base.{
  ℕ, zero, suc, ◌+◌, Option, none, some, List, ◌==◌, ◌>>=◌, take, drop, length, if_both,
}
use nrf_proxy.Core.Send.{Verdict, proxy_send_result, proxy_next_slice}
use nrf_proxy.Device.State.{Host, Board, Device}
use nrf_proxy.Device.Received.{nus_send}
use nrf_proxy.Device.Writer.{send_loop}
use nrf_proxy.Device.Invariant.{Same}
use nrf_proxy.Device.Timers.{Same-trans}
use nrf_proxy.Device.Traffic.{bridge-Same, sent-Same}

-- A partial result that, where there is one, satisfies `P`.
abbrev pub Leaves : {A : Type 0} → (A → Type 0) → Option A → Type 0
Leaves P none = Unit
Leaves P (some a) = P a

pub Leaves-bind :
    {A B : Type 0} (P : A → Type 0) (Q : B → Type 0) (o : Option A) (f : A → Option B)
    → Leaves P o
    → ((a : A) → P a → Leaves Q (f a))
    → Leaves Q (o >>= f)
Leaves-bind P Q none f h k = tt
Leaves-bind P Q (some a) f h k = k a h

pub Leaves-weaken :
    {A : Type 0} (P Q : A → Type 0) (o : Option A) → ((a : A) → P a → Q a) → Leaves P o → Leaves Q o
Leaves-weaken P Q none f h = tt
Leaves-weaken P Q (some a) f h = f a h

pub Leaves-trivial : {A : Type 0} (o : Option A) → Leaves (λ _. Unit) o
Leaves-trivial none = tt
Leaves-trivial (some a) = tt

pub Verdict_both :
    {A : Type 0} (P : A → Type 0) (v : Verdict) (x y z : A)
    → P x
    → P y
    → P z
    → P (elim v [ Verdict.consumed ↦ x | Verdict.retry ↦ y | Verdict.dropped ↦ z ])
Verdict_both P Verdict.consumed x y z h k l = h
Verdict_both P Verdict.retry x y z h k l = k
Verdict_both P Verdict.dropped x y z h k l = l

module _ {Ring : Type 0} (board : Board) (host : Host) where
  later :
      (s t : Device Ring) (o : Option (Device Ring))
      → Same board s t
      → Leaves (Same board t) o
      → Leaves (Same board s) o
  later s t o e h =
      Leaves-weaken (Same board t) (Same board s) o (λ u. Same-trans board host s t u e) h

  pub send_loop-Same :
      (fuel : ℕ) (input : List ℕ) (sent max_send : ℕ) (s : Device Ring)
      → Leaves (Same board s) (send_loop host fuel input sent max_send s)
  unfolding send_loop
  send_loop-Same zero input sent max_send s = tt
  send_loop-Same (suc fuel) input sent max_send s =
      let slice = proxy_next_slice (length input) sent max_send in
      let bytes = take slice (drop sent input) in
      let t : Device Ring = (nus_send host bytes s).1 in
      let e : Same board s t = sent-Same board host s bytes in
      let P = Leaves (Same board s) in
      if_both P (slice == 0) (some s) _ (λ _. bridge-Same board host s s.bridge)
        (λ _.
          Verdict_both P (proxy_send_result (nus_send host bytes s).0)
            (send_loop host fuel input (sent + slice) max_send t)
            (send_loop host fuel input sent max_send t) (some t)
            (later s t _ e (send_loop-Same fuel input (sent + slice) max_send t))
            (later s t _ e (send_loop-Same fuel input sent max_send t)) e)

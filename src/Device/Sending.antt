-- ===== src/Device/Sending.antt =====
-- `send_processed` ends, and delivers the hook's output in order.
use native.Mathlib.Nat.{mul-le-mul_right}
use native.Mathlib.Decide.{ℕ_discrete}
use nrf_proxy.Base.{
  ℕ, zero, suc, ◌+◌, ◌-◌, ◌*◌, ◌≤◌, ◌<◌, ◌≡◌, refl, sym, ap, ◌∙◌, subst, ◌⊎◌, inl, inr, Bool, true,
  false, some, List, [], ◌∷◌, ◌++◌, append-nil, append_assoc, ==_ne, arith, if◌then◌else◌, take,
  drop, length, drop_all, drop-drop, take-append-drop,
}
use nrf_proxy.Base.Int.{ℤ, pos, ◌==ℤ◌}
use nrf_proxy.Core.Send.{Verdict, proxy_send_result, proxy_next_slice, next_slice-min}
use nrf_proxy.Device.State.{HostCall, Calls, Host, Device}
use nrf_proxy.Device.Received.{nus_send}
use nrf_proxy.Device.Writer.{send_loop, send_processed}

-- The bytes that the host took, in order.
abbrev pub delivered : Calls → List ℕ
delivered [] = []
delivered (HostCall.nus_send bytes err ∷ tr) =
    if err ==ℤ pos 0 then delivered tr ++ bytes else delivered tr
delivered (_ ∷ tr) = delivered tr

abbrev drops : Verdict → Bool
drops Verdict.dropped = true
drops _ = false

-- The last send failed for good.
abbrev pub gave_up : Calls → Bool
gave_up (HostCall.nus_send bytes err ∷ tr) = drops (proxy_send_result err)
gave_up _ = false

-- Shortages of buffers end: what is left of the host's patience shrinks with every retry.
pub record Settles (host : Host) (bound : ℕ) : Type 0 where
  pub waits : Calls → ℕ
  pub bounded : (tr : Calls) → waits tr ≤ bound
  pub shrinks :
      (tr : Calls) (bytes : List ℕ)
      → proxy_send_result (host.nus_send_err tr bytes) ≡ Verdict.retry
      → waits (HostCall.nus_send bytes (host.nus_send_err tr bytes) ∷ tr) < waits tr

pub Verdict-cases :
    (v : Verdict) → (v ≡ Verdict.consumed) ⊎ (v ≡ Verdict.retry) ⊎ (v ≡ Verdict.dropped)
Verdict-cases Verdict.consumed = inl refl
Verdict-cases Verdict.retry = inr (inl refl)
Verdict-cases Verdict.dropped = inr (inr refl)

pub consumed_ok : (err : ℤ) → proxy_send_result err ≡ Verdict.consumed → (err ==ℤ pos 0) ≡ true
unfolding proxy_send_result
consumed_ok err h = ground arith

pub retry_failed : (err : ℤ) → proxy_send_result err ≡ Verdict.retry → (err ==ℤ pos 0) ≡ false
unfolding proxy_send_result
retry_failed err h = ground arith

pub dropped_failed : (err : ℤ) → proxy_send_result err ≡ Verdict.dropped → (err ==ℤ pos 0) ≡ false
unfolding proxy_send_result
dropped_failed err h = ground arith

pub mul_mono : (a b c : ℕ) → a ≤ b → a * c ≤ b * c
mul_mono a b c h = mul-le-mul_right c h

add_one_mul : (a c : ℕ) → (a + 1) * c ≡ a * c + c
add_one_mul a c = omega arith

-- A slice uses up at least one unit of the fuel's budget.
budget : (left slice c : ℕ) → 0 < slice → slice ≤ left → (left - slice) * c + c ≤ left * c
budget left slice c h k =
    omega (arith, mul_mono (left - slice + 1) left c (omega arith), add_one_mul (left - slice) c)

suc_add : (m n : ℕ) → suc m + n ≡ suc (m + n)
suc_add m n = omega arith

minus_zero : (n : ℕ) → n - 0 ≡ n
minus_zero n = omega arith

take_nil : (n : ℕ) → take {A = ℕ} n [] ≡ []
take_nil zero = refl
take_nil (suc n) = refl

take_add : (m n : ℕ) (xs : List ℕ) → take (m + n) xs ≡ take m xs ++ take n (drop m xs)
take_add zero n xs = ap (λ k. take k xs) (omega arith)
take_add (suc m) n [] = ap (λ k. take k []) (suc_add m n) ∙ sym (take_nil n)
take_add (suc m) n (x ∷ xs) =
    ap (λ k. take k (x ∷ xs)) (suc_add m n) ∙ ap (λ l. x ∷ l) (take_add m n xs)

-- What became of the bytes `rest` between `s` and `t`: delivered, or cut where the host gave up.
abbrev pub Outcome : {Ring : Type 0} → List ℕ → Device Ring → Device Ring → Type 0
Outcome rest s t =
    (delivered t.calls ≡ delivered s.calls ++ rest)
    ⊎ (gave_up t.calls ≡ true) × (k : ℕ) × (delivered t.calls ≡ delivered s.calls ++ take k rest)

-- A slice that was taken, then the rest.
onward-Outcome :
    {Ring : Type 0} (rest : List ℕ) (slice : ℕ) (s t u : Device Ring)
    → delivered t.calls ≡ delivered s.calls ++ take slice rest
    → Outcome (drop slice rest) t u
    → Outcome rest s u
onward-Outcome rest slice s t u e (inl all) = inl (
    all
    ∙ ap (λ l. l ++ drop slice rest) e
    ∙ append_assoc (delivered s.calls) (take slice rest) (drop slice rest)
    ∙ ap (λ l. delivered s.calls ++ l) (take-append-drop slice rest))
onward-Outcome rest slice s t u e (inr (cut, k, some_of)) = inr (
  cut,
  slice + k,
  some_of
      ∙ ap (λ l. l ++ take k (drop slice rest)) e
      ∙ append_assoc (delivered s.calls) (take slice rest) (take k (drop slice rest))
      ∙ ap (λ l. delivered s.calls ++ l) (sym (take_add slice k rest)),
)

again-Outcome :
    {Ring : Type 0} (rest : List ℕ) (s t u : Device Ring)
    → delivered t.calls ≡ delivered s.calls
    → Outcome rest t u
    → Outcome rest s u
again-Outcome rest s t u e o = rw (sym e) o

module _ {Ring : Type 0} (host : Host) (bound : ℕ) where
  pub taken :
      (bytes : List ℕ) (s : Device Ring)
      → (host.nus_send_err s.calls bytes ==ℤ pos 0) ≡ true
      → delivered (nus_send host bytes s).1.calls ≡ delivered s.calls ++ bytes
  taken bytes s h = rw h

  pub refused :
      (bytes : List ℕ) (s : Device Ring)
      → (host.nus_send_err s.calls bytes ==ℤ pos 0) ≡ false
      → delivered (nus_send host bytes s).1.calls ≡ delivered s.calls
  refused bytes s h = rw h

  send_loop_total :
      (fuel : ℕ) (settles : Settles host bound) (input : List ℕ) (sent max_send : ℕ)
      (s : Device Ring)
      → 0 < max_send
      → (length input - sent) * (bound + 1) + settles.waits s.calls < fuel
      → (t : Device Ring) × (send_loop host fuel input sent max_send s ≡ some t)
        × Outcome (drop sent input) s t
  unfolding send_loop
  send_loop_total zero settles input sent max_send s pos_max enough = absurd (omega arith)
  send_loop_total (suc fuel) settles input sent max_send s pos_max enough =
      let slice = proxy_next_slice (length input) sent max_send in
      let cut = next_slice-min (length input) sent max_send in
      let bytes = take slice (drop sent input) in
      let t = (nus_send host bytes s).1 in
      elim (ℕ_discrete slice 0) [
        | yes none_left ↦ (
          s,
          rw none_left refl,
          inl (
              sym (
                ap (λ l. delivered s.calls ++ l) (drop_all sent input (omega arith))
                ∙ append-nil _)),
        )
        | no some_left ↦
            elim (Verdict-cases (proxy_send_result (host.nus_send_err s.calls bytes))) [
              | inl consumed ↦
                  let (u, e, o) =
                    send_loop_total fuel settles input (sent + slice) max_send t pos_max (
                      omega (
                        arith,
                        budget (length input - sent) slice (bound + 1) (omega arith) (omega arith),
                        settles.bounded t.calls,
                        part_left,
                      )) in
                  (
                    u,
                    rw (==_ne slice 0 some_left, consumed) e,
                    onward-Outcome (drop sent input) slice s t u
                        (taken bytes s (consumed_ok _ consumed))
                        (subst (λ l. Outcome l t u) (after) o),
                  )
              | inr (inl retry) ↦
                  let (u, e, o) =
                    send_loop_total fuel settles input sent max_send t pos_max
                      (omega (arith, settles.shrinks s.calls bytes retry)) in
                  (
                    u,
                    rw (==_ne slice 0 some_left, retry) e,
                    again-Outcome (drop sent input) s t u (refused bytes s (retry_failed _ retry))
                        o,
                  )
              | inr (inr dropped) ↦ (
                t,
                rw (==_ne slice 0 some_left, dropped) refl,
                inr (
                  ap drops dropped,
                  0,
                  refused bytes s (dropped_failed _ dropped) ∙ sym (append-nil _),
                ),
              )
            ]
      ]
    where
      after :
          drop (sent + proxy_next_slice (length input) sent max_send) input
          ≡ drop (proxy_next_slice (length input) sent max_send) (drop sent input)
      after = sym (drop-drop (proxy_next_slice (length input) sent max_send) sent input)

      part_left :
          (length input - (sent + proxy_next_slice (length input) sent max_send)) * (bound + 1)
          ≡ (length input - sent - proxy_next_slice (length input) sent max_send) * (bound + 1)
      part_left = ap (λ k. k * (bound + 1)) (omega arith)

  -- When shortages of buffers end (at most `bound` retries in a row), `send_processed` returns, and
  -- by then the host took exactly the hook's output, in order, or a prefix of it that ends where a
  -- send failed for good. Fuel for one slice per byte, each with all its retries, is enough.
  pub send_processed_total :
      (fuel : ℕ) (settles : Settles host bound) (input : List ℕ) (max_send : ℕ) (s : Device Ring)
      → 0 < max_send
      → length input * (bound + 1) + bound < fuel
      → (t : Device Ring) × (send_processed host fuel input max_send s ≡ some t) × Outcome input s t
  unfolding send_processed
  send_processed_total fuel settles input max_send s pos_max enough =
      send_loop_total fuel settles input 0 max_send s pos_max (
        omega
          (arith, settles.bounded s.calls, ap (λ k. k * (bound + 1)) (minus_zero (length input))))

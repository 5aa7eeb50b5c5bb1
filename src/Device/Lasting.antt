-- ===== src/Device/Lasting.antt =====
-- `send_processed` when no send fails for good.
use nrf_proxy.Base.{
  ℕ, zero, suc, ◌+◌, ◌<◌, ◌≡◌, ◌≢◌, refl, sym, ap, ◌∙◌, Option, none, some, List, [], ◌∷◌, ◌++◌,
  ◌==◌, arith, take, drop, length, append-nil, append_assoc, take-append-drop, drop_all, drop-drop,
  Bool-cases, inl, inr, ==_iff,
}
use nrf_proxy.Core.Send.{Verdict, proxy_send_result, proxy_next_slice, next_slice-min}
use nrf_proxy.Device.State.{Host, Device, Calls}
use nrf_proxy.Device.Received.{nus_send}
use nrf_proxy.Device.Writer.{send_loop}
use nrf_proxy.Device.Sending.{delivered, Verdict-cases, consumed_ok, retry_failed, taken, refused}
use nrf_proxy.Device.Writing.{Leaves, Leaves-weaken}

pub Leaves-and :
    {A : Type 0} (P Q : A → Type 0) (o : Option A)
    → Leaves P o
    → Leaves Q o
    → Leaves (λ a. P a × Q a) o
Leaves-and P Q none h k = tt
Leaves-and P Q (some a) h k = (h, k)

-- No send fails for good.
abbrev pub Lasting : Host → Type 0
Lasting host =
    (tr : Calls) (bytes : List ℕ) → proxy_send_result (host.nus_send_err tr bytes) ≢ Verdict.dropped

sliced :
    (xs input : List ℕ) (sent slice : ℕ)
    → (xs ++ take slice (drop sent input)) ++ drop (sent + slice) input ≡ xs ++ drop sent input
sliced xs input sent slice =
    append_assoc xs (take slice (drop sent input)) (drop (sent + slice) input)
    ∙ ap (λ l. xs ++ (take slice (drop sent input) ++ l)) (sym (drop-drop slice sent input))
    ∙ ap (λ l. xs ++ l) (take-append-drop slice (drop sent input))

pub drop_zero : (xs : List ℕ) → drop 0 xs ≡ xs
drop_zero [] = refl
drop_zero (x ∷ xs) = refl

pub moved :
    (xs ys chunk rest : List ℕ) (k : ℕ)
    → chunk ≡ take k ys
    → rest ≡ drop k ys
    → (xs ++ chunk) ++ rest ≡ xs ++ ys
moved xs ys chunk rest k e f =
    append_assoc xs chunk rest
    ∙ ap (λ l. xs ++ (l ++ rest)) e
    ∙ ap (λ l. xs ++ (take k ys ++ l)) f
    ∙ ap (λ l. xs ++ l) (take-append-drop k ys)

module _ {Ring : Type 0} (host : Host) where
  pub send_loop-all :
      (fuel : ℕ) (input : List ℕ) (sent max_send : ℕ) (s : Device Ring)
      → Lasting host
      → 0 < max_send
      → Leaves
          (λ t. delivered t.calls ≡ delivered s.calls ++ drop sent input)
          (send_loop host fuel input sent max_send s)
  unfolding send_loop
  send_loop-all zero input sent max_send s lasting pos_max = tt
  send_loop-all (suc fuel) input sent max_send s lasting pos_max =
      let slice = proxy_next_slice (length input) sent max_send in
      let cut = next_slice-min (length input) sent max_send in
      let bytes = take slice (drop sent input) in
      let t : Device Ring = (nus_send host bytes s).1 in
      let Reached = λ (u : Device Ring). delivered u.calls ≡ delivered s.calls ++ drop sent input in
      elim (Bool-cases (slice == 0)) [
        | inl done ↦ rw done (
            sym (
              ap (λ l. delivered s.calls ++ l)
                (drop_all sent input (omega (arith, cut, (==_iff slice 0).0 done)))
              ∙ append-nil _))
        | inr more ↦ elim (Verdict-cases (proxy_send_result (nus_send host bytes s).0)) [
          | inl consumed ↦
              let got = taken host 0 bytes s (consumed_ok _ consumed) in
              rw (more, consumed)
                (Leaves-weaken
                  (λ u. delivered u.calls ≡ delivered t.calls ++ drop (sent + slice) input) Reached
                  (send_loop host fuel input (sent + slice) max_send t)
                  (λ u e.
                    e
                    ∙ ap (λ l. l ++ drop (sent + slice) input) got
                    ∙ sliced (delivered s.calls) input sent slice)
                  (send_loop-all fuel input (sent + slice) max_send t lasting pos_max))
          | inr (inl retry) ↦
              let same = refused host 0 bytes s (retry_failed _ retry) in
              rw (more, retry)
                (Leaves-weaken (λ u. delivered u.calls ≡ delivered t.calls ++ drop sent input)
                  Reached (send_loop host fuel input sent max_send t)
                  (λ u e. e ∙ ap (λ l. l ++ drop sent input) same)
                  (send_loop-all fuel input sent max_send t lasting pos_max))
          | inr (inr dropped) ↦ absurd (lasting s.calls bytes dropped)
        ]
      ]

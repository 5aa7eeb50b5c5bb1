-- ===== src/RingBuf/Fifo.antt =====
-- A ring buffer that meets the laws: a bounded list whose claims stop at the end of the array.
use nrf_proxy.Base.{
  ℕ, zero, suc, ◌+◌, ◌-◌, ◌≤◌, ◌<◌, ◌≡◌, refl, ap, ◌≢◌, ◌↔◌, Bool, true, false, List, [], ◌∷◌, ◌++◌,
  arith, length, take, drop, min, length-take,
}
use nrf_proxy.RingBuf.{RingBuf}

-- `room` bytes in all, `claimed` of them claimed and not finished; a claim yields at most `run` bytes, as at the end of the array.
pub record Fifo : Type 0 where
  pub held : List ℕ
  pub claimed : ℕ
  pub room : ℕ
  pub run : ℕ

abbrev pub empty_test : List ℕ → Bool
empty_test [] = true
empty_test (_ ∷ _) = false

pub count-le : (xs : List ℕ) (n : ℕ) → min (length xs) n ≤ length xs
count-le xs n = omega arith

pub claim_take : (xs : List ℕ) (k : ℕ) → take k xs ≡ take (length (take k xs)) xs
claim_take [] zero = refl
claim_take [] (suc k) = refl
claim_take (x ∷ xs) zero = refl
claim_take (x ∷ xs) (suc k) = ap (λ l. x ∷ l) (claim_take xs k)

pub claim_first :
    (c k : ℕ) (xs : List ℕ) → c ≡ 0 → take k (drop c xs) ≡ take (length (take k (drop c xs))) xs
claim_first zero k xs h = claim_take xs k
claim_first (suc c) k xs h = absurd (omega arith)

pub claim_pos :
    (c : ℕ) (xs : List ℕ) (n k : ℕ)
    → c ≡ 0
    → xs ≢ []
    → 0 < n
    → 0 < length (take (min n (suc k)) (drop c xs))
claim_pos (suc c) xs n k z h p = absurd (omega arith)
claim_pos zero [] n k z h p = absurd (h refl)
claim_pos zero (x ∷ xs) n k z h p = omega (arith, length-take (min n (suc k)) (x ∷ xs))

pub claim_le : (xs : List ℕ) (n k : ℕ) → length (take (min n k) xs) ≤ n
claim_le xs n k = omega (arith, length-take (min n k) xs)

pub empty_test_iff : (c : ℕ) (xs : List ℕ) → c ≡ 0 → (empty_test (drop c xs) ≡ true) ↔ (xs ≡ [])
empty_test_iff zero xs h = ground arith
empty_test_iff (suc c) xs h = absurd (omega arith)

abbrev pub fifo : RingBuf
fifo = record {
  Ring = Fifo;
  contents = λ r. r.held;
  pending = λ r. r.claimed;
  put = λ r xs.
      let n = min (length xs) (r.room - length r.held) in
      (n, record r { held = r.held ++ take n xs });
  get = λ r n. (take n r.held, record r { held = drop n r.held });
  claim = λ r n.
      let bytes = take (min n (suc r.run)) (drop r.claimed r.held) in
      (bytes, record r { claimed = r.claimed + length bytes });
  finish = λ r n. record r { held = drop n r.held; claimed = 0 };
  is_empty = λ r. empty_test (drop r.claimed r.held);
  put_count = λ r xs. count-le xs (r.room - length r.held);
  put_contents = λ r xs. refl;
  put_pending = λ r xs. refl;
  get_bytes = λ r n. refl;
  get_contents = λ r n. refl;
  claim_bytes = λ r n h. claim_first r.claimed (min n (suc r.run)) r.held h;
  claim_bound = λ r n. claim_le (drop r.claimed r.held) n (suc r.run);
  claim_some = λ r n h some_held p. claim_pos r.claimed r.held n r.run h some_held p;
  claim_contents = λ r n. refl;
  claim_pending = λ r n. refl;
  finish_contents = λ r k h. refl;
  finish_pending = λ r k h. refl;
  is_empty_iff = λ r h. empty_test_iff r.claimed r.held h;
}

-- ===== src/RingBuf.antt =====
-- Zephyr's ring buffer as its users see it: the calls that the repository makes, with the
-- documented meaning of each as a law over the bytes held, oldest first.
pub mod Fifo
use nrf_proxy.Base.{ℕ, ◌+◌, ◌≤◌, ◌<◌, ◌≡◌, ◌≢◌, ◌↔◌, Bool, true, List, [], ◌++◌, length, take, drop}

pub record RingBuf : Type 1 where
  pub Ring : Type 0
  -- the bytes not yet finished, those claimed included
  pub contents : Ring → List ℕ
  -- the count of bytes claimed and not finished
  pub pending : Ring → ℕ
  -- `ring_buf_put`: the count of bytes stored.
  pub put : Ring → List ℕ → ℕ × Ring
  -- `ring_buf_get`: the bytes copied out.
  pub get : Ring → ℕ → List ℕ × Ring
  -- `ring_buf_get_claim`: the bytes claimed, up to the number asked for.
  pub claim : Ring → ℕ → List ℕ × Ring
  pub finish : Ring → ℕ → Ring
  pub is_empty : Ring → Bool
  pub put_count : (r : Ring) (xs : List ℕ) → (put r xs).0 ≤ length xs
  pub put_contents :
      (r : Ring) (xs : List ℕ) → contents (put r xs).1 ≡ contents r ++ take (put r xs).0 xs
  pub get_bytes : (r : Ring) (n : ℕ) → (get r n).0 ≡ take n (contents r)
  pub get_contents : (r : Ring) (n : ℕ) → contents (get r n).1 ≡ drop n (contents r)
  pub put_pending : (r : Ring) (xs : List ℕ) → pending (put r xs).1 ≡ pending r
  pub claim_bytes :
      (r : Ring) (n : ℕ) → pending r ≡ 0 → (claim r n).0 ≡ take (length (claim r n).0) (contents r)
  pub claim_bound : (r : Ring) (n : ℕ) → length (claim r n).0 ≤ n
  pub claim_some :
      (r : Ring) (n : ℕ) → pending r ≡ 0 → contents r ≢ [] → 0 < n → 0 < length (claim r n).0
  pub claim_contents : (r : Ring) (n : ℕ) → contents (claim r n).1 ≡ contents r
  pub claim_pending : (r : Ring) (n : ℕ) → pending (claim r n).1 ≡ pending r + length (claim r n).0
  pub finish_contents :
      (r : Ring) (k : ℕ) → k ≤ pending r → contents (finish r k) ≡ drop k (contents r)
  pub finish_pending : (r : Ring) (k : ℕ) → k ≤ pending r → pending (finish r k) ≡ 0
  pub is_empty_iff : (r : Ring) → pending r ≡ 0 → (is_empty r ≡ true) ↔ (contents r ≡ [])

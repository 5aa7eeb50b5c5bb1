-- ===== src/Core/Hooks.antt =====
-- The interception hooks of src/proxy_core.c. `out` is the scratch buffer, of `out_size` bytes;
-- a hook returns the count and leaves the buffer changed.
mod Tests
use native.Mathlib.Decide.{dec_lt}
use nrf_proxy.Base.{
  sym, lt→ltb, le→ltb, ℕ, ◌≤◌, ◌≡◌, refl, ◌∙◌, ap, Bool, List, ◌++◌, arith, ltb, if◌then◌else◌,
  length, take, drop, memcpy, min, take-append_length, drop-append_length, length-take,
  length-memcpy, take_all,
}

abbrev pub proc_buf_size : ℕ
proc_buf_size = 512

-- `(in_len < out_size) ? in_len : out_size`
abbrev pub hook_len : ℕ → ℕ → ℕ
hook_len in_len out_size = if ltb in_len out_size then in_len else out_size

unfoldable pub on_uart_rx : List ℕ → List ℕ → ℕ × List ℕ
on_uart_rx xs out = let n = hook_len (length xs) (length out) in (n, memcpy out xs n)

unfoldable pub on_ble_rx : List ℕ → List ℕ → ℕ × List ℕ
on_ble_rx xs out = let n = hook_len (length xs) (length out) in (n, memcpy out xs n)

pub hook_len-min : (a b : ℕ) → hook_len a b ≡ min a b
hook_len-min a b = ground arith

take-hook_len : (xs : List ℕ) (m : ℕ) → take (hook_len (length xs) m) xs ≡ take m xs
take-hook_len xs m = elim (dec_lt (length xs) m) [
  | yes h ↦
      rw (lt→ltb _ _ h) (take_all (length xs) xs (omega arith) ∙ sym (take_all m xs (omega arith)))
  | no h ↦ rw (le→ltb (length xs) m (omega arith))
]

-- What a hook leaves: the buffer keeps its size, and its first `n` bytes are the input's, cut at
-- the size of the buffer.
abbrev pub Forwards : List ℕ → List ℕ → ℕ × List ℕ → Type 0
Forwards xs out (n, out') =
    (n ≡ min (length xs) (length out))
    × (take n out' ≡ take (length out) xs)
    × (length out' ≡ length out)

copy_lem :
    (xs out : List ℕ)
    → let n = hook_len (length xs) (length out) in Forwards xs out (n, memcpy out xs n)
copy_lem xs out =
    let n = hook_len (length xs) (length out) in
    let e = hook_len-min (length xs) (length out) in
    let front : take n (memcpy out xs n) ≡ take (length out) xs =
      take-append_length (take n xs) (drop n out) n (omega (arith, e, length-take n xs))
      ∙ take-hook_len xs (length out) in
    (e, front, length-memcpy out xs n (omega (arith, e)) (omega (arith, e)))

-- Both hooks copy the input through: they report as many bytes as fit, those bytes are the input's
-- in order, and nothing is written outside the buffer.
pub hooks_forward :
    (xs out : List ℕ) → Forwards xs out (on_uart_rx xs out) × Forwards xs out (on_ble_rx xs out)
unfolding on_uart_rx on_ble_rx
hooks_forward xs out = (copy_lem xs out, copy_lem xs out)

-- An input that fits the buffer is forwarded whole.
pub on_uart_rx_whole :
    (xs out : List ℕ)
    → length xs ≤ length out
    → take (on_uart_rx xs out).0 (on_uart_rx xs out).1 ≡ xs
on_uart_rx_whole xs out h = (hooks_forward xs out).0.1 ∙ take_all (length out) xs h

-- ===== src/Core/Command/Unique.antt =====
-- The header's table gives every chunk one kind and one rate.
use mathlib.Core.Equiv.{IsContr}
use mathlib.Core.HLevel.{Σ_prop_path}
use mathlib.Core.Logic.{∥∥₁_elim, ∥∥₁_prop}
use nrf_proxy.Base.{
  ℕ, ◌≡◌, refl, sym, ap, ◌∙◌, true, some, List, arith, get_elem?, drop, All, get_elem?-drop,
  Bool-cases, inl, inr, some-injective,
}
use nrf_proxy.Core.Command.{
  Kind, invalid, relay_disable, relay_enable, set_baud, Cmd, proxy_baud_supported, le32, decide_op,
  fill_ack, cleared, proxy_cmd_parse,
}
use nrf_proxy.Core.Command.Framing.{IsFramed, framed_iff, not-framed}
use nrf_proxy.Core.Command.Parse.{proxy_cmd_parse_lem}
use nrf_proxy.Core.Command.Table.{
  IsByte, IsByte-at, word_of, le32_lem, proxy_baud_supported_iff, Classifies, plain, relay_off,
  relay_on, relay_bad, rate, rate_bad, op_bad,
}

fill_ack-kind :
    (xs : List ℕ) (d : Cmd) → ((fill_ack xs d).kind ≡ d.kind) × ((fill_ack xs d).baud ≡ d.baud)
unfolding fill_ack
fill_ack-kind xs d = ground arith

module _ (xs : List ℕ) (out : Cmd) where
  -- The parser's answer has the kind `k` and the rate `n`.
  abbrev Says : Kind → ℕ → Type 0
  Says k n = (c : Cmd) × (proxy_cmd_parse xs out ≡ some (k, c)) × (c.baud ≡ n)

  decided-Says :
      (op : ℕ) (d : Cmd)
      → IsFramed xs
      → get_elem? xs 2 ≡ some op
      → decide_op (drop 3 xs) op (cleared out) ≡ some d
      → Says d.kind d.baud
  unfolding proxy_cmd_parse
  decided-Says op d f e ed =
      let ours = (framed_iff xs).1 f in
      let same = fill_ack-kind xs d in
      (fill_ack xs d, rw (ours, e, ed) (ap (λ k. some (k, fill_ack xs d)) same.0), same.1)

  word_at :
      (b0 b1 b2 b3 : ℕ)
      → All IsByte xs
      → get_elem? xs 3 ≡ some b0
      → get_elem? xs 4 ≡ some b1
      → get_elem? xs 5 ≡ some b2
      → get_elem? xs 6 ≡ some b3
      → le32 (drop 3 xs) ≡ some (word_of b0 b1 b2 b3)
  word_at b0 b1 b2 b3 h e3 e4 e5 e6 =
      le32_lem (drop 3 xs) b0 b1 b2 b3 (IsByte-at xs 3 b0 h e3) (IsByte-at xs 4 b1 h e4)
        (IsByte-at xs 5 b2 h e5) (IsByte-at xs 6 b3 h e6) (get_elem?-drop xs 3 0 ∙ e3)
        (get_elem?-drop xs 3 1 ∙ e4) (get_elem?-drop xs 3 2 ∙ e5) (get_elem?-drop xs 3 3 ∙ e6)

  -- What the table says, the parser answers.
  Classifies-Says : (k : Kind) (n : ℕ) → All IsByte xs → Classifies xs k n → Says k n
  unfolding proxy_cmd_parse decide_op
  Classifies-Says _ _ h (plain not_ours) = (cleared out, rw (not-framed xs not_ours) refl, refl)
  Classifies-Says _ _ h (relay_off f e2 e3) =
      decided-Says 1 (record (cleared out) { kind = relay_disable }) f e2
        (ground (arith, get_elem?-drop xs 3 0))
  Classifies-Says _ _ h (relay_on f e2 e3) =
      decided-Says 1 (record (cleared out) { kind = relay_enable }) f e2
        (ground (arith, get_elem?-drop xs 3 0))
  Classifies-Says _ _ h (relay_bad p f e2 e3 big) =
      decided-Says 1 (record (cleared out) { kind = invalid }) f e2
        (ground (arith, get_elem?-drop xs 3 0))
  Classifies-Says _ n h (rate b0 b1 b2 b3 f e2 e3 e4 e5 e6 word good) =
      let spelled = word_at b0 b1 b2 b3 h e3 e4 e5 e6 in
      let live : proxy_baud_supported n ≡ true = (proxy_baud_supported_iff n).1 good in
      decided-Says 2 (record (cleared out) { kind = set_baud; baud = n }) f e2
        (rw spelled (rw (sym word) (rw live refl)))
  Classifies-Says _ _ h (rate_bad b0 b1 b2 b3 f e2 e3 e4 e5 e6 bad) =
      let spelled = word_at b0 b1 b2 b3 h e3 e4 e5 e6 in
      elim (Bool-cases (proxy_baud_supported (word_of b0 b1 b2 b3))) [
        | inl good ↦ absurd (bad ((proxy_baud_supported_iff _).0 good))
        | inr dead ↦
            decided-Says 2 (record (cleared out) { kind = invalid }) f e2
              (rw spelled (rw dead refl))
      ]
  Classifies-Says _ _ h (op_bad op f e2 no_relay no_baud) =
      decided-Says op (record (cleared out) { kind = invalid }) f e2 (ground arith)

  Says-unique : (k l : Kind) (m n : ℕ) → Says k m → Says l n → ◌≡◌ {A = Kind × ℕ} (l, n) (k, m)
  Says-unique k l m n (c, e, b) (d, f, g) =
      let same = some-injective (l, d) (k, c) (sym f ∙ e) in
      rw (sym g, sym b) (ap (λ (r : Kind × Cmd). (r.0, r.1.baud)) same)

-- For every chunk of bytes, whatever `*out` held: there is exactly one pair of a kind and a rate
-- that the header's table gives the chunk, up to how the table gives it, and `proxy_cmd_parse`
-- answers with that pair.
pub classified_once :
    (xs : List ℕ) (out : Cmd)
    → All IsByte xs
    → (k : Kind) × (c : Cmd) × (proxy_cmd_parse xs out ≡ some (k, c))
      × (once : IsContr ((r : Kind × ℕ) × ∥ Classifies xs r.0 r.1 ∥₁)) × (once.0.0 ≡ (k, c.baud))
classified_once xs out h =
    let (k, c, e, a) = proxy_cmd_parse_lem xs out h in
    (
      k,
      c,
      e,
      (
        ((k, c.baud), ∣ a.class ∣₁),
        λ r.
            Σ_prop_path (λ q. ∥∥₁_prop)
              (∥∥₁_elim r.1 (hlevel) (λ d.
                Says-unique xs out k r.0.0 c.baud r.0.1 (c, e, refl)
                  (Classifies-Says xs out r.0.0 r.0.1 h d))),
      ),
      refl,
    )

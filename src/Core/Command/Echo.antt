-- ===== src/Core/Command/Echo.antt =====
-- What `proxy_cmd_parse` answers on a framed packet, whatever its payload.
use nrf_proxy.Base.{
  ℕ, ◌≡◌, ◌≢◌, refl, sym, ap, ◌∙◌, inl, inr, some, Option, List, ◌++◌, arith, get_elem?, take, drop,
  ◌>>=◌, get_elem?_of_lt, take_all, take-append_length, Option-cases, some-injective,
}
use nrf_proxy.Core.Command.{
  Kind, none_cmd, invalid, Cmd, decide_op, fill_ack, cleared, proxy_cmd_parse,
}
use nrf_proxy.Core.Command.Framing.{IsFramed, framed_iff}
use nrf_proxy.Core.Command.Parse.{fill_ack_actionable}

decide_op-ne-none_cmd :
    (payload : List ℕ) (op : ℕ) (out d : Cmd)
    → decide_op payload op out ≡ some d
    → d.kind ≢ none_cmd
unfolding decide_op
decide_op-ne-none_cmd payload op out d e = λ h. ground arith

fill_ack-kind : (xs : List ℕ) (d : Cmd) → (fill_ack xs d).kind ≡ d.kind
unfolding fill_ack
fill_ack-kind xs d = ground arith

-- The answer on a framed packet: the opcode's, completed by the echo.
framed-answer :
    (xs : List ℕ) (out : Cmd) (r : Kind × Cmd)
    → IsFramed xs
    → proxy_cmd_parse xs out ≡ some r
    → (d : Cmd) × (d.kind ≢ none_cmd) × (((fill_ack xs d).kind, fill_ack xs d) ≡ r)
unfolding proxy_cmd_parse
framed-answer xs out r f e = elim (Option-cases (decide_op (drop 3 xs) op (cleared out))) [
  | inl failed ↦ absurd (cc (e, parsed, failed))
  | inr (d, decided) ↦ (
    d,
    decide_op-ne-none_cmd (drop 3 xs) op (cleared out) d decided,
    some-injective _ r (sym (parsed ∙ ap rest decided) ∙ e),
  )
]
  where
    third : (b : ℕ) × (get_elem? xs 2 ≡ some b)
    third = get_elem?_of_lt xs 2 (omega (arith, f.size))

    op : ℕ
    op = third.0

    rest : Option Cmd → Option (Kind × Cmd)
    rest o = do decided ← o; some ((fill_ack xs decided).kind, fill_ack xs decided)

    parsed : proxy_cmd_parse xs out ≡ rest (decide_op (drop 3 xs) op (cleared out))
    parsed = rw ((framed_iff xs).1 f, third.1) refl

-- A framed packet is never taken for plain data.
pub parse-framed :
    (xs : List ℕ) (out : Cmd) (r : Kind × Cmd)
    → IsFramed xs
    → proxy_cmd_parse xs out ≡ some r
    → r.0 ≢ none_cmd
parse-framed xs out r f e =
    let (d, ours, same) = framed-answer xs out r f e in
    λ h. ours (sym (fill_ack-kind xs d) ∙ ap (λ (k : Kind × Cmd). k.0) same ∙ h)

fill_ack-echo :
    (xs : List ℕ) (d : Cmd)
    → IsFramed xs
    → d.kind ≢ invalid
    → take (fill_ack xs d).ack_len (fill_ack xs d).ack ≡ xs
fill_ack-echo xs d f good = rw (fill_ack_actionable xs d good) (
    ap (λ l. take 16 (l ++ drop 16 d.ack)) (take_all 16 xs (omega (arith, f.size)))
    ∙ take-append_length xs (drop 16 d.ack) 16 f.size)

-- The echo of an actionable packet is the packet.
pub parse-echo :
    (xs : List ℕ) (out : Cmd) (r : Kind × Cmd)
    → IsFramed xs
    → proxy_cmd_parse xs out ≡ some r
    → r.0 ≢ invalid
    → take r.1.ack_len r.1.ack ≡ xs
parse-echo xs out r f e good =
    let (d, ours, same) = framed-answer xs out r f e in
    let fine : d.kind ≢ invalid =
      λ h. good (sym (ap (λ (k : Kind × Cmd). k.0) same) ∙ fill_ack-kind xs d ∙ h) in
    ap (λ (k : Kind × Cmd). take k.1.ack_len k.1.ack) (sym same) ∙ fill_ack-echo xs d f fine

-- ===== src/Core/Command/Parse.antt =====
-- What `proxy_cmd_parse` answers on every chunk.
use native.Mathlib.Decide.{ℕ_discrete}
use nrf_proxy.Base.{
  ℕ, ◌≡◌, refl, ap, ◌∙◌, ◌≢◌, inl, inr, Bool, true, false, some, List, arith, get_elem?, take, drop,
  All, memcpy, get_elem?_of_lt, get_elem?-drop, take_all, take-append_length, ◌++◌, Bool-cases,
}
use nrf_proxy.Core.Command.{
  Kind, none_cmd, invalid, relay_disable, relay_enable, set_baud, Cmd, proxy_baud_supported,
  decide_op, fill_ack, cleared, proxy_cmd_parse,
}
use nrf_proxy.Core.Command.Framing.{IsFramed, framed_iff, framed-cases}
use nrf_proxy.Core.Command.Table.{
  IsByte, word_of, le32_lem, proxy_baud_supported_iff, Classifies, plain, relay_off, relay_on,
  relay_bad, rate, rate_bad, op_bad, IsByte-at,
}

pub Kind-discrete : Discrete Kind
Kind-discrete = hlevel

-- What the `switch` leaves in `*out` for a framed packet.
record Decided (xs : List ℕ) (out d : Cmd) : Type 0 where
  ours : d.kind ≢ none_cmd
  class : Classifies xs d.kind d.baud
  ack : d.ack ≡ out.ack
  no_echo : d.ack_len ≡ 0

decide_relay :
    (xs : List ℕ) (out : Cmd) (p : ℕ)
    → IsFramed xs
    → get_elem? xs 2 ≡ some 1
    → get_elem? xs 3 ≡ some p
    → (d : Cmd) × (decide_op (drop 3 xs) 1 (cleared out) ≡ some d) × Decided xs out d
unfolding decide_op
decide_relay xs out p f e2 e3 = elim (ℕ_discrete p 0) [
  | yes z ↦ (
    record (cleared out) { kind = relay_disable },
    ground (arith, get_elem?-drop xs 3 0),
    record { ours = λ c. cc; class = relay_off f e2 (cc); ack = refl; no_echo = refl },
  )
  | no nz ↦ elim (ℕ_discrete p 1) [
    | yes o ↦ (
      record (cleared out) { kind = relay_enable },
      ground (arith, get_elem?-drop xs 3 0),
      record { ours = λ c. cc; class = relay_on f e2 (cc); ack = refl; no_echo = refl },
    )
    | no no_one ↦ (
      record (cleared out) { kind = invalid },
      ground (arith, get_elem?-drop xs 3 0),
      record {
        ours = λ c. cc;
        class = relay_bad p f e2 e3 (omega arith);
        ack = refl;
        no_echo = refl;
      },
    )
  ]
]

decide_baud :
    (xs : List ℕ) (out : Cmd)
    → All IsByte xs
    → IsFramed xs
    → get_elem? xs 2 ≡ some 2
    → (d : Cmd) × (decide_op (drop 3 xs) 2 (cleared out) ≡ some d) × Decided xs out d
unfolding decide_op
decide_baud xs out h f e2 =
    let (b0, e3) = get_elem?_of_lt xs 3 (omega (arith, f.size)) in
    let (b1, e4) = get_elem?_of_lt xs 4 (omega (arith, f.size)) in
    let (b2, e5) = get_elem?_of_lt xs 5 (omega (arith, f.size)) in
    let (b3, e6) = get_elem?_of_lt xs 6 (omega (arith, f.size)) in
    let word =
      le32_lem (drop 3 xs) b0 b1 b2 b3 (IsByte-at xs 3 b0 h e3) (IsByte-at xs 4 b1 h e4)
        (IsByte-at xs 5 b2 h e5) (IsByte-at xs 6 b3 h e6) (get_elem?-drop xs 3 0 ∙ e3)
        (get_elem?-drop xs 3 1 ∙ e4) (get_elem?-drop xs 3 2 ∙ e5) (get_elem?-drop xs 3 3 ∙ e6) in
    elim (Bool-cases (proxy_baud_supported (word_of b0 b1 b2 b3))) [
      | inl good ↦ (
        record (cleared out) { kind = set_baud; baud = word_of b0 b1 b2 b3 },
        rw (word, good),
        record {
          ours = λ c. cc;
          class = rate b0 b1 b2 b3 f e2 e3 e4 e5 e6 refl ((proxy_baud_supported_iff _).0 good);
          ack = refl;
          no_echo = refl;
        },
      )
      | inr bad ↦ (
        record (cleared out) { kind = invalid },
        rw (word, bad),
        record {
          ours = λ c. cc;
          class =
              rate_bad b0 b1 b2 b3 f e2 e3 e4 e5 e6
                (λ s. cc (bad, (proxy_baud_supported_iff (word_of b0 b1 b2 b3)).1 s));
          ack = refl;
          no_echo = refl;
        },
      )
    ]

decide_lem :
    (xs : List ℕ) (out : Cmd) (op : ℕ)
    → All IsByte xs
    → IsFramed xs
    → get_elem? xs 2 ≡ some op
    → (d : Cmd) × (decide_op (drop 3 xs) op (cleared out) ≡ some d) × Decided xs out d
decide_lem xs out op h f e2 = elim (ℕ_discrete op 1) [
  | yes r ↦
      let (p, e3) = get_elem?_of_lt xs 3 (omega (arith, f.size)) in
      rw r (decide_relay xs out p f (cc) e3)
  | no nr ↦ elim (ℕ_discrete op 2) [
    | yes b ↦ rw b (decide_baud xs out h f (cc))
    | no nb ↦ (
      record (cleared out) { kind = invalid },
      unfold decide_op in ground arith,
      record { ours = λ c. cc; class = op_bad op f e2 nr nb; ack = refl; no_echo = refl },
    )
  ]
]

abbrev pub actionable : Kind → Bool
actionable none_cmd = false
actionable invalid = false
actionable _ = true

-- The answer of the parser to a chunk: the kind with its rate, and the echo.
pub record Answers (xs : List ℕ) (out : Cmd) (k : Kind) (c : Cmd) : Type 0 where
  pub returned : c.kind ≡ k
  pub class : Classifies xs k c.baud
  pub echo : actionable k ≡ true → (c.ack_len ≡ 16) × (take 16 c.ack ≡ xs)
  pub silent : actionable k ≡ false → (c.ack_len ≡ 0) × (c.ack ≡ out.ack)

fill_ack_invalid : (xs : List ℕ) (d : Cmd) → d.kind ≡ invalid → fill_ack xs d ≡ d
unfolding fill_ack
fill_ack_invalid xs d h = ground arith

pub fill_ack_actionable :
    (xs : List ℕ) (d : Cmd)
    → d.kind ≢ invalid
    → fill_ack xs d ≡ record d { ack = memcpy d.ack xs 16; ack_len = 16 }
unfolding fill_ack
fill_ack_actionable xs d h = ground arith

fill-Answers :
    (xs : List ℕ) (out d : Cmd)
    → IsFramed xs
    → Decided xs out d
    → Answers xs out (fill_ack xs d).kind (fill_ack xs d)
fill-Answers xs out d f h = elim (Kind-discrete d.kind invalid) [
  | yes bad ↦ rw (fill_ack_invalid xs d bad) (record {
    returned = refl;
    class = h.class;
    echo = λ c. cc;
    silent = λ _. (h.no_echo, h.ack);
  })
  | no good ↦ rw (fill_ack_actionable xs d good) (record {
    returned = refl;
    class = h.class;
    echo = λ _. (refl, whole);
    silent = λ c. ground (arith, h.ours);
  })
]
  where
    whole : take 16 (memcpy d.ack xs 16) ≡ xs
    whole =
        ap (λ l. take 16 (l ++ drop 16 d.ack)) (take_all 16 xs (omega (arith, f.size)))
        ∙ take-append_length xs (drop 16 d.ack) 16 f.size

-- For every chunk of bytes `proxy_cmd_parse` reads inside the chunk and returns the kind that the
-- header's table gives it; `*out` holds that kind, the rate (0 unless it is a baud command), and
-- for an actionable command exactly the 16 bytes to echo. Otherwise there is no echo.
pub proxy_cmd_parse_lem :
    (xs : List ℕ) (out : Cmd)
    → All IsByte xs
    → (k : Kind) × (c : Cmd) × (proxy_cmd_parse xs out ≡ some (k, c)) × Answers xs out k c
unfolding proxy_cmd_parse
proxy_cmd_parse_lem xs out h = elim (framed-cases xs) [
  | inr e ↦ (
    none_cmd,
    cleared out,
    rw e,
    record {
      returned = refl;
      class = plain (λ f. cc (e, (framed_iff xs).1 f));
      echo = λ c. cc;
      silent = λ _. (refl, refl);
    },
  )
  | inl e ↦
      let f = (framed_iff xs).0 e in
      let (op, e2) = get_elem?_of_lt xs 2 (omega (arith, f.size)) in
      let (d, ed, dec) = decide_lem xs out op h f e2 in
      ((fill_ack xs d).kind, fill_ack xs d, rw (e, e2, ed), fill-Answers xs out d f dec)
]

-- ===== src/Core/Command/Framing.antt =====
-- `cmd_checksum` and the framing gate of `proxy_cmd_parse`.
use nrf_proxy.Base.{
  ℕ, zero, suc, ◌+◌, ◌%◌, ◌≤◌, ◌<◌, ◌≡◌, refl, ap, ◌≢◌, ◌↔◌, ◌⊎◌, inl, inr, true, false, ◌&&◌, some,
  List, [], ◌∷◌, arith, ◌==◌, get_elem?, set, length, take, drop, get_elem?_of_lt,
  drop_of_get_elem?, get_elem?-set_self, get_elem?-set_ne, lt_of_get_elem?, ==_refl, ==_ne, ◌∙◌,
}
use native.Mathlib.Decide.{ℕ_discrete, dec_lt}
use nrf_proxy.Core.Command.{sum_loop, cmd_checksum, framed}

-- The sum of the bytes, without wrap-around.
abbrev pub byte_sum : List ℕ → ℕ
byte_sum [] = 0
byte_sum (b ∷ bs) = b + byte_sum bs

sum_loop_lem :
    (xs : List ℕ) (n i acc : ℕ)
    → i + n ≤ length xs
    → acc < 256
    → sum_loop xs n i acc ≡ some ((acc + byte_sum (take n (drop i xs))) % 256)
unfolding sum_loop
sum_loop_lem xs zero i acc h lt = ground arith
sum_loop_lem xs (suc n) i acc h lt =
    let (b, e) = get_elem?_of_lt xs i (omega arith) in
    ground (
      arith,
      e,
      drop_of_get_elem? xs i b e,
      sum_loop_lem xs n (i + 1) ((acc + b) % 256) (omega arith) (omega arith),
    )

-- The 8-bit checksum of a packet is the sum of its first 15 bytes, modulo 256.
pub cmd_checksum_lem :
    (xs : List ℕ) → length xs ≡ 16 → cmd_checksum xs ≡ some (byte_sum (take 15 xs) % 256)
unfolding cmd_checksum
cmd_checksum_lem xs h = ground (arith, sum_loop_lem xs 15 0 0 (omega arith) (omega arith))

-- What the header promises of a packet: start byte, declared length and checksum.
pub record IsFramed (xs : List ℕ) : Type 0 where
  pub size : length xs ≡ 16
  pub start : get_elem? xs 0 ≡ some 0x22
  pub declared : get_elem? xs 1 ≡ some 16
  pub check : get_elem? xs 15 ≡ some (byte_sum (take 15 xs) % 256)

-- The gate of a chunk of the right size, from the bytes that it reads.
framed_bytes :
    (xs : List ℕ) (b0 b1 b15 : ℕ)
    → length xs ≡ 16
    → get_elem? xs 0 ≡ some b0
    → get_elem? xs 1 ≡ some b1
    → get_elem? xs 15 ≡ some b15
    → framed xs ≡ some ((b0 == 0x22) && (b1 == 16) && (b15 == byte_sum (take 15 xs) % 256))
unfolding framed
framed_bytes xs b0 b1 b15 h e0 e1 e15 = rw (h, e0, e1, e15, cmd_checksum_lem xs h) (ground arith)

framed_short : (xs : List ℕ) → length xs ≢ 16 → framed xs ≡ some false
unfolding framed
framed_short xs h = rw (==_ne (length xs) 16 h)

-- The gate reads inside the chunk, whatever its length.
pub framed-cases : (xs : List ℕ) → (framed xs ≡ some true) ⊎ (framed xs ≡ some false)
framed-cases xs = elim (ℕ_discrete (length xs) 16) [
  | no h ↦ inr (framed_short xs h)
  | yes h ↦
      let (b0, e0) = get_elem?_of_lt xs 0 (omega arith) in
      let (b1, e1) = get_elem?_of_lt xs 1 (omega arith) in
      let (b15, e15) = get_elem?_of_lt xs 15 (omega arith) in
      ground (arith, framed_bytes xs b0 b1 b15 h e0 e1 e15)
]

-- The gate lets exactly the framed packets through.
pub framed_iff : (xs : List ℕ) → (framed xs ≡ some true) ↔ IsFramed xs
framed_iff xs =
    (to_spec, λ p. framed_bytes xs _ _ _ p.size p.start p.declared p.check ∙ ap some (==_refl _))
  where
    to_spec : framed xs ≡ some true → IsFramed xs
    to_spec e = elim (ℕ_discrete (length xs) 16) [
      | no h ↦ absurd (cc (framed_short xs h))
      | yes h ↦
          let (b0, e0) = get_elem?_of_lt xs 0 (omega arith) in
          let (b1, e1) = get_elem?_of_lt xs 1 (omega arith) in
          let (b15, e15) = get_elem?_of_lt xs 15 (omega arith) in
          ground (arith, framed_bytes xs b0 b1 b15 h e0 e1 e15)
    ]

pub not-framed : (xs : List ℕ) → ¬ IsFramed xs → framed xs ≡ some false
not-framed xs h = elim (framed-cases xs) [ inl e ↦ absurd (h ((framed_iff xs).0 e)) | inr e ↦ e ]

byte_sum-set :
    (xs : List ℕ) (n i x v : ℕ)
    → i < n
    → get_elem? xs i ≡ some x
    → byte_sum (take n (set xs i v)) + x ≡ byte_sum (take n xs) + v
byte_sum-set [] n i x v lt e = cc
byte_sum-set (y ∷ xs) zero i x v lt e = absurd (omega arith)
byte_sum-set (y ∷ xs) (suc n) zero x v lt e = ground arith
byte_sum-set (y ∷ xs) (suc n) (suc i) x v lt e =
    omega (arith, byte_sum-set xs n i x v (omega arith) e)

take-set_last : (xs : List ℕ) (n v : ℕ) → take n (set xs n v) ≡ take n xs
take-set_last [] zero v = refl
take-set_last [] (suc n) v = refl
take-set_last (x ∷ xs) zero v = refl
take-set_last (x ∷ xs) (suc n) v = ap (λ l. x ∷ l) (take-set_last xs n v)

-- A framed packet with one byte replaced by another is no longer framed.
pub set-not-IsFramed :
    (xs : List ℕ) (i x v : ℕ)
    → IsFramed xs
    → get_elem? xs i ≡ some x
    → x < 256
    → v < 256
    → x ≢ v
    → ¬ IsFramed (set xs i v)
set-not-IsFramed xs i x v p e bx bv ne q = elim (dec_lt i 15) [
  | yes lt ↦ ground (
    arith,
    p.check,
    q.check,
    byte_sum-set xs 15 i x v lt e,
    get_elem?-set_ne xs i 15 v (omega arith),
  )
  | no ge ↦ elim (ℕ_discrete i 15) [
    | yes h ↦ ground (
      arith,
      h,
      p.check,
      q.check,
      p.size,
      take-set_last xs 15 v,
      get_elem?-set_self xs 15 v (omega arith),
    )
    | no h ↦ omega (arith, p.size, lt_of_get_elem? xs i x e)
  ]
]

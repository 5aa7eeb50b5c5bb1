-- ===== src/Core/Identity/Name.antt =====
-- The advertised name: its size, its terminator, and that it tells units apart.
use nrf_proxy.Base.{
  ℕ, zero, suc, ◌+◌, ◌-◌, ◌/◌, ◌%◌, ◌≤◌, ◌<◌, ◌≡◌, refl, ap, ap₂, sym, ◌∙◌, List, [], ◌∷◌, ◌++◌,
  arith, some, min, get_elem?, length, take, drop, replicate, take-append_length,
  drop-append_length, drop-drop, length-append, length-take, length-drop, length-replicate,
  take_all,
}
use nrf_proxy.Core.Identity.{hex_digit, suffix, write_at, clip_base, base_name_buf}

pub drop-replicate : (n m a : ℕ) → drop n (replicate m a) ≡ replicate (m - n) a
drop-replicate zero m a = ap (λ k. replicate k a) (omega arith)
drop-replicate (suc n) zero a = ap (λ k. replicate k a) {x = 0} {y = 0 - suc n} (omega arith)
drop-replicate (suc n) (suc m) a = drop-replicate n m a ∙ ap (λ k. replicate k a) (omega arith)

pub clip_base_lem : (base : List ℕ) → clip_base base ≡ min (length base) 19
unfolding clip_base
clip_base_lem base = ground arith

-- The name without a suffix: the clipped base name, and zeros up to the end of the buffer.
pub base_name_buf_lem :
    (base : List ℕ)
    → base_name_buf base
      ≡ take (min (length base) 19) base ++ replicate (20 - min (length base) 19) 0
unfolding base_name_buf
base_name_buf_lem base =
    rw (clip_base_lem base)
      (ap (λ z. take (min (length base) 19) base ++ z) (drop-replicate (min (length base) 19) 20 0))

base_name_buf_fits :
    (base : List ℕ) → length base ≤ 19 → base_name_buf base ≡ base ++ replicate (20 - length base) 0
base_name_buf_fits base h =
    base_name_buf_lem base
    ∙ ap₂ (λ l k. l ++ replicate k 0) (take_all (min (length base) 19) base (omega arith))
        (omega arith)

length-write_at :
    (dst : List ℕ) (off : ℕ) (src : List ℕ)
    → off + length src ≤ length dst
    → length (write_at dst off src) ≡ length dst
length-write_at dst off src h = omega (
  arith,
  length-append (take off dst) (src ++ drop (off + length src) dst),
  length-append src (drop (off + length src) dst),
  length-take off dst,
  length-drop (off + length src) dst,
)

write_at-append :
    (xs zs src : List ℕ) (n : ℕ)
    → length xs ≡ n
    → write_at (xs ++ zs) n src ≡ xs ++ (src ++ drop (length src) zs)
write_at-append xs zs src n h =
    ap₂ (λ l r. l ++ (src ++ r)) (take-append_length xs zs n h)
      (sym (drop-drop (length src) n (xs ++ zs))
        ∙ ap (drop (length src)) (drop-append_length xs zs n h))

-- A base name of at most 14 characters carries the suffix: the name is the base, the suffix with
-- its terminator, and zeros up to the end of the buffer.
pub suffixed :
    (base : List ℕ) (hi lo : ℕ)
    → length base ≤ 14
    → write_at (base_name_buf base) (length base) (suffix hi lo)
      ≡ base ++ (suffix hi lo ++ replicate (14 - length base) 0)
suffixed base hi lo h = rw (base_name_buf_fits base (omega arith)) (
    write_at-append base (replicate (20 - length base) 0) (suffix hi lo) (length base) refl
    ∙ ap (λ z. base ++ (suffix hi lo ++ z))
        (drop-replicate 6 (20 - length base) 0 ∙ ap (λ k. replicate k 0) (omega arith)))

-- No digit is the terminator.
pub hex_digit-pos : (n : ℕ) → 0 < hex_digit n
unfolding hex_digit
hex_digit-pos n = ground arith

hex_digit-injective : (a b : ℕ) → a < 16 → b < 16 → hex_digit a ≡ hex_digit b → a ≡ b
unfolding hex_digit
hex_digit-injective a b ha hb h = ground arith

pub append_cancel : (xs ys zs : List ℕ) → xs ++ ys ≡ xs ++ zs → ys ≡ zs
append_cancel [] ys zs h = h
append_cancel (x ∷ xs) ys zs h = append_cancel xs ys zs (cc)

-- Two bytes can be read off their suffix.
pub suffix-injective :
    (a b c d : ℕ) (ys zs : List ℕ)
    → a < 256
    → b < 256
    → c < 256
    → d < 256
    → suffix a b ++ ys ≡ suffix c d ++ zs
    → (a ≡ c) × (b ≡ d)
suffix-injective a b c d ys zs ha hb hc hd h =
    let e1 : hex_digit (a / 16) ≡ hex_digit (c / 16) = cc in
    let e2 : hex_digit (a % 16) ≡ hex_digit (c % 16) = cc in
    let e3 : hex_digit (b / 16) ≡ hex_digit (d / 16) = cc in
    let e4 : hex_digit (b % 16) ≡ hex_digit (d % 16) = cc in
    omega (
      arith,
      hex_digit-injective (a / 16) (c / 16) (omega arith) (omega arith) e1,
      hex_digit-injective (a % 16) (c % 16) (omega arith) (omega arith) e2,
      hex_digit-injective (b / 16) (d / 16) (omega arith) (omega arith) e3,
      hex_digit-injective (b % 16) (d % 16) (omega arith) (omega arith) e4,
    )

get_elem?-append_right :
    (xs ys : List ℕ) (i n : ℕ) → i ≡ length xs + n → get_elem? (xs ++ ys) i ≡ get_elem? ys n
get_elem?-append_right [] ys i n h = ap (get_elem? ys) (omega arith)
get_elem?-append_right (x ∷ xs) ys zero n h = absurd (omega arith)
get_elem?-append_right (x ∷ xs) ys (suc i) n h = get_elem?-append_right xs ys i n (omega arith)

get_elem?-replicate : (m i a : ℕ) → i < m → get_elem? (replicate m a) i ≡ some a
get_elem?-replicate zero i a h = absurd (omega arith)
get_elem?-replicate (suc m) zero a h = refl
get_elem?-replicate (suc m) (suc i) a h = get_elem?-replicate m i a (omega arith)

-- A name in its buffer: 20 bytes, the last of them the terminator.
pub record IsName (name : List ℕ) : Type 0 where
  pub size : length name ≡ 20
  pub terminated : get_elem? name 19 ≡ some 0

pub base_name_buf-IsName : (base : List ℕ) → IsName (base_name_buf base)
base_name_buf-IsName base = rw (base_name_buf_lem base) (record {
  size = omega (
    arith,
    length-append (take n base) (replicate (20 - n) 0),
    length-take n base,
    length-replicate {A = ℕ} (20 - n) 0,
  );
  terminated =
      get_elem?-append_right (take n base) (replicate (20 - n) 0) 19 (19 - n)
        (omega (arith, length-take n base))
      ∙ get_elem?-replicate (20 - n) (19 - n) 0 (omega arith);
})
  where
    n : ℕ
    n = min (length base) 19

pub suffixed-IsName :
    (base : List ℕ) (hi lo : ℕ)
    → length base ≤ 14
    → IsName (write_at (base_name_buf base) (length base) (suffix hi lo))
suffixed-IsName base hi lo h = record {
  size =
      length-write_at (base_name_buf base) (length base) (suffix hi lo)
        (omega (arith, (base_name_buf-IsName base).size))
      ∙ (base_name_buf-IsName base).size;
  terminated = rw (suffixed base hi lo h) (
      get_elem?-append_right base (suffix hi lo ++ replicate (14 - length base) 0) 19
        (5 + (14 - length base)) (omega arith)
      ∙ get_elem?-append_right chars (replicate (suc k) 0) (5 + k) k (omega arith)
      ∙ get_elem?-replicate (suc k) k 0 (omega arith));
}
  where
    k : ℕ
    k = 14 - length base

    chars : List ℕ
    chars =
        b'-'
        ∷ hex_digit (hi / 16)
        ∷ hex_digit (hi % 16)
        ∷ hex_digit (lo / 16)
        ∷ hex_digit (lo % 16)
        ∷ []

-- ===== src/Frames/Counter.antt =====
-- The 48-bit counter is read back as it was written, so counters of an IV do not collide.
use sozvon.Base.{
  ℕ, zero, suc, ◌+◌, ◌*◌, ◌/◌, ◌%◌, ◌∙◌, ◌<◌, ◌≡◌, refl, [], ◌∷◌, ◌++◌, length, arith,
}
use sozvon.Frames.{Bytes, uint48, or_zero, byte_at, read_uint48}

pub byte_at-append :
    (xs ys : Bytes) (i j : ℕ) → i ≡ length xs + j → byte_at (xs ++ ys) i ≡ byte_at ys j
unfolding byte_at
byte_at-append [] ys i j e = let e' : i ≡ j = omega (arith, e) in rw e' refl
byte_at-append (x ∷ xs) ys zero j e = absurd (omega (arith, e))
byte_at-append (x ∷ xs) ys (suc i) j e = byte_at-append xs ys i j (omega (arith, e))

uint48_value :
    (n : ℕ)
    → n < 281474976710656
    → n / 1099511627776 % 256 * 1099511627776
        + n / 4294967296 % 256 * 4294967296
        + n % 4294967296 / 16777216 % 256 * 16777216
        + n % 4294967296 / 65536 % 256 * 65536
        + n % 4294967296 / 256 % 256 * 256
        + n % 256
      ≡ n
uint48_value n h = omega arith

read_six :
    (before after : Bytes) (a b c d e f off : ℕ)
    → off ≡ length before
    → read_uint48 (before ++ (a ∷ b ∷ c ∷ d ∷ e ∷ f ∷ after)) off
      ≡ a * 1099511627776 + b * 4294967296 + c * 16777216 + d * 65536 + e * 256 + f
unfolding read_uint48
read_six before after a b c d e f off h =
    let at = byte_at-append before (a ∷ b ∷ c ∷ d ∷ e ∷ f ∷ after) in
    rw
      (
        at off 0 (omega (arith, h)),
        at (off + 1) 1 (omega (arith, h)),
        at (off + 2) 2 (omega (arith, h)),
        at (off + 3) 3 (omega (arith, h)),
        at (off + 4) 4 (omega (arith, h)),
        at (off + 5) 5 (omega (arith, h)),
      )
      (unfold byte_at or_zero in refl)

-- What `writeUint48` writes `readUint48` reads, wherever it stands.
pub read_uint48-uint48 :
    (before after : Bytes) (n off : ℕ)
    → off ≡ length before
    → n < 281474976710656
    → read_uint48 (before ++ (uint48 n ++ after)) off ≡ n
unfolding uint48
read_uint48-uint48 before after n off e h =
    read_six before after _ _ _ _ _ _ off e ∙ uint48_value n h

pub uint48-injective :
    (m n : ℕ) → m < 281474976710656 → n < 281474976710656 → uint48 m ≡ uint48 n → m ≡ n
uint48-injective m n hm hn e =
    let p = read_uint48-uint48 [] [] m 0 refl hm in
    let q = read_uint48-uint48 [] [] n 0 refl hn in cc

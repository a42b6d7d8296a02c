-- ===== src/Attendance/Hash.antt =====
-- What `simpleHash` of packages/domain/src/attendance.ts tells apart.
use newport_ms.Base.{◌-◌}
use newport_ms.Base.{ltb}
use newport_ms.Base.{if◌then◌else◌}
use Prim.Native.Nat.{bit_xor, ◌*◌, ◌%◌}
use Prim.Native.Char.{Char, code as char_code}
use Prim.Native.String.{◌++◌ as str_append}
use Prim.Native.String.append as Append
use newport_ms.Base.{
  ℕ, zero, suc, ◌+◌, ◌<◌, ◌≡◌, ◌≢◌, refl, sym, ap, ◌∙◌, String, List, [], ◌∷◌, arith, All,
}
use newport_ms.Attendance.Summary.{
  hash_step, hash_from, hash_digits, simple_hash, written, hex_digit, value_of, hash_digits_lem,
}
use newport_ms.Attendance.Xor.{bit_xor_back, bit_xor_apart, bit_xor-lt}

-- The prime of the hash has an inverse to the base 2 ^ 32.
times_apart :
    (x y : ℕ)
    → x < 4294967296
    → y < 4294967296
    → (x * 16777619) % 4294967296 ≡ (y * 16777619) % 4294967296
    → x ≡ y
times_apart x y p q h = omega (arith, p, q, h)

abbrev IsWord : ℕ → Type 0
IsWord n = n < 4294967296

-- A text whose characters are of 16 bits.
abbrev pub Units : String → Type 0
Units String.[] = Unit
Units (String.◌∷◌ c s) = (char_code c < 65536) × Units s

xor-IsWord : (h c : ℕ) → IsWord h → c < 65536 → IsWord (bit_xor h c)
xor-IsWord h c p q = bit_xor-lt 32 h c p (omega arith)

-- One step tells two characters apart, and two hashes.
hash_step-code :
    (h c d : ℕ) → IsWord h → c < 65536 → d < 65536 → hash_step h c ≡ hash_step h d → c ≡ d
hash_step-code h c d p q r e =
    bit_xor_apart (h + c + d) h c d (omega arith) (omega arith) (omega arith)
      (times_apart (bit_xor h c) (bit_xor h d) (xor-IsWord h c p q) (xor-IsWord h d p r) e)

hash_step-hash :
    (h k c : ℕ) → IsWord h → IsWord k → c < 65536 → hash_step h c ≡ hash_step k c → h ≡ k
hash_step-hash h k c p q r e =
    sym (bit_xor_back (h + c) h c (omega arith) (omega arith))
    ∙ ap (λ x. bit_xor x c)
        (times_apart (bit_xor h c) (bit_xor k c) (xor-IsWord h c p r) (xor-IsWord k c q r) e)
    ∙ bit_xor_back (k + c) k c (omega arith) (omega arith)

hash_step-IsWord : (h c : ℕ) → IsWord (hash_step h c)
hash_step-IsWord h c = omega arith

hash_from-hash :
    (h k : ℕ) (s : String) → IsWord h → IsWord k → Units s → hash_from h s ≡ hash_from k s → h ≡ k
unfolding hash_from
hash_from-hash h k String.[] p q u e = e
hash_from-hash h k (String.◌∷◌ c s) p q u e = hash_step-hash h k (char_code c) p q u.0 (
    hash_from-hash (hash_step h (char_code c)) (hash_step k (char_code c)) s
      (hash_step-IsWord h (char_code c)) (hash_step-IsWord k (char_code c)) u.1 e)

-- Two texts that differ in one character at most have it in common if their hashes are the same.
hash_from-code :
    (h : ℕ) (s t : String) (c d : Char)
    → IsWord h
    → char_code c < 65536
    → char_code d < 65536
    → Units t
    → hash_from h (str_append s (String.◌∷◌ c t)) ≡ hash_from h (str_append s (String.◌∷◌ d t))
    → char_code c ≡ char_code d
unfolding hash_from
hash_from-code h String.[] t c d p q r u e = hash_step-code h (char_code c) (char_code d) p q r (
    hash_from-hash (hash_step h (char_code c)) (hash_step h (char_code d)) t
      (hash_step-IsWord h (char_code c)) (hash_step-IsWord h (char_code d)) u
      (ap (hash_from h) (sym (Append.nil (String.◌∷◌ c t)))
        ∙ e
        ∙ ap (hash_from h) (Append.nil (String.◌∷◌ d t))))
hash_from-code h (String.◌∷◌ x s) t c d p q r u e =
    hash_from-code (hash_step h (char_code x)) s t c d (hash_step-IsWord h (char_code x)) q r u (
      ap (hash_from h) (sym (Append.cons x s (String.◌∷◌ c t)))
      ∙ e
      ∙ ap (hash_from h) (Append.cons x s (String.◌∷◌ d t)))

-- The number that a text to base sixteen writes, after a number.
abbrev digit_of : ℕ → ℕ
digit_of c = if ltb c 97 then c - 48 else c - 87

abbrev read_hex : ℕ → String → ℕ
read_hex n String.[] = n
read_hex n (String.◌∷◌ c s) = read_hex (n * 16 + digit_of (char_code c)) s

read_hex-append : (n : ℕ) (s t : String) → read_hex n (str_append s t) ≡ read_hex (read_hex n s) t
read_hex-append n String.[] t = ap (read_hex n) (Append.nil t)
read_hex-append n (String.◌∷◌ c s) t =
    ap (read_hex n) (Append.cons c s t) ∙ read_hex-append (n * 16 + digit_of (char_code c)) s t

read_hex-digit : (n d : ℕ) → d < 16 → read_hex n (hex_digit d) ≡ n * 16 + d
read_hex-digit n zero h = omega arith
read_hex-digit n (suc zero) h = omega arith
read_hex-digit n (suc (suc zero)) h = omega arith
read_hex-digit n (suc (suc (suc zero))) h = omega arith
read_hex-digit n (suc (suc (suc (suc zero)))) h = omega arith
read_hex-digit n (suc (suc (suc (suc (suc zero))))) h = omega arith
read_hex-digit n (suc (suc (suc (suc (suc (suc zero)))))) h = omega arith
read_hex-digit n (suc (suc (suc (suc (suc (suc (suc zero))))))) h = omega arith
read_hex-digit n (suc (suc (suc (suc (suc (suc (suc (suc zero)))))))) h = omega arith
read_hex-digit n (suc (suc (suc (suc (suc (suc (suc (suc (suc zero))))))))) h = omega arith
read_hex-digit n (suc (suc (suc (suc (suc (suc (suc (suc (suc (suc zero)))))))))) h = omega arith
read_hex-digit n (suc (suc (suc (suc (suc (suc (suc (suc (suc (suc (suc zero))))))))))) h =
    omega arith
read_hex-digit n (suc (suc (suc (suc (suc (suc (suc (suc (suc (suc (suc (suc zero)))))))))))) h =
    omega arith
read_hex-digit n (suc (suc (suc (suc (suc (suc (suc (suc (suc (suc (suc (suc (suc zero)))))))))))))
      h =
    omega arith
read_hex-digit n
      (suc (suc (suc (suc (suc (suc (suc (suc (suc (suc (suc (suc (suc (suc zero)))))))))))))) h =
    omega arith
read_hex-digit n
      (suc (suc (suc (suc (suc (suc (suc (suc (suc (suc (suc (suc (suc (suc (suc zero)))))))))))))))
      h =
    omega arith
read_hex-digit n
      (suc
        (suc (suc (suc (suc (suc (suc (suc (suc (suc (suc (suc (suc (suc (suc (suc d))))))))))))))))
      h =
    absurd (omega arith)

read_hex-written : (ds : List ℕ) → All (λ d. d < 16) ds → read_hex 0 (written ds) ≡ value_of ds
read_hex-written [] h = refl
read_hex-written (d ∷ ds) h =
    read_hex-append 0 (written ds) (hex_digit d)
    ∙ read_hex-digit (read_hex 0 (written ds)) d h.0
    ∙ omega (arith, read_hex-written ds h.1)

-- The text that `simpleHash` gives, read to base sixteen, is the hash.
read_hex-simple_hash : (s : String) → read_hex 0 (simple_hash s) ≡ hash_from 2166136261 s
unfolding simple_hash
read_hex-simple_hash s =
    let (bound, l, a, v) = hash_digits_lem s in read_hex-written (hash_digits s) a ∙ v

-- Two texts with characters of 16 bits that differ in one of them, and in no other, have different hashes.
pub simple_hash_apart :
    (s t : String) (c d : Char)
    → char_code c < 65536
    → char_code d < 65536
    → Units t
    → char_code c ≢ char_code d
    → simple_hash (str_append s (String.◌∷◌ c t)) ≢ simple_hash (str_append s (String.◌∷◌ d t))
simple_hash_apart s t c d q r u n e = n (
    hash_from-code 2166136261 s t c d (omega arith) q r u (
      sym (read_hex-simple_hash (str_append s (String.◌∷◌ c t)))
      ∙ ap (read_hex 0) e
      ∙ read_hex-simple_hash (str_append s (String.◌∷◌ d t))))

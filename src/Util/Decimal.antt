-- ===== src/Util/Decimal.antt =====
-- The text of a number is read back.
use Prim.Native.Char.{code}
use go_signing_server_anywhe.Prelude.{
  ℕ, zero, suc, ◌+◌, ◌*◌, ◌/◌, ◌%◌, ◌≤◌, ◌<◌, String, ◌≡◌, refl, sym, ap, ◌∙◌, inl, inr, true,
  false, some, List, ◌∷◌, arith, ltb, ltb→lt, le→leb, Bool-cases, ℤ, pos, negsuc, sub_ℕ, ◌≤ℤ◌,
  nat_eq, int_eq, string_eq, ◌==◌, ◌<ℤ◌, int_beq, nat_beq, nat_beq_iff,
}
use go_signing_server_anywhe.Text.{codes, digits_value, unsigned, signed, parse_int, max_int64}
use go_signing_server_anywhe.Util.{digit, decimal, sprint_int, itoa}

code-digit : (d : ℕ) → d < 10 → code (digit d) ≡ 48 + d
unfolding digit
code-digit zero h = refl
code-digit (suc zero) h = refl
code-digit (suc (suc zero)) h = refl
code-digit (suc (suc (suc zero))) h = refl
code-digit (suc (suc (suc (suc zero)))) h = refl
code-digit (suc (suc (suc (suc (suc zero))))) h = refl
code-digit (suc (suc (suc (suc (suc (suc zero)))))) h = refl
code-digit (suc (suc (suc (suc (suc (suc (suc zero))))))) h = refl
code-digit (suc (suc (suc (suc (suc (suc (suc (suc zero)))))))) h = refl
code-digit (suc (suc (suc (suc (suc (suc (suc (suc (suc zero))))))))) h = refl
code-digit (suc (suc (suc (suc (suc (suc (suc (suc (suc (suc d)))))))))) h =
    absurd (omega (arith, h))

read_digit :
    (d n : ℕ) (cs : List ℕ)
    → d < 10
    → digits_value n (code (digit d) ∷ cs) ≡ digits_value (n * 10 + d) cs
unfolding digits_value
read_digit d n cs h =
    rw (code-digit d h, le→leb 48 (48 + d) (omega arith), le→leb (48 + d) 57 (omega (arith, h)))
      (ap (λ x. digits_value x cs) (omega arith))

smaller : (n fuel : ℕ) → n < suc fuel → ltb n 10 ≡ false → n / 10 < fuel
smaller n fuel h e = ground (arith, h, e)

-- With more fuel than the number, all its digits are written.
read_decimal :
    (fuel n : ℕ) (rest : String)
    → n < fuel
    → digits_value 0 (codes (decimal fuel n rest)) ≡ digits_value n (codes rest)
unfolding decimal codes
read_decimal zero n rest h = absurd (omega (arith, h))
read_decimal (suc fuel) n rest h = elim (Bool-cases (ltb n 10)) [
  | inl e ↦ rw e (
      read_digit n 0 (codes rest) (ltb→lt n 10 e)
      ∙ ap (λ x. digits_value x (codes rest)) (omega arith))
  | inr e ↦ rw e (
      read_decimal fuel (n / 10) (String.◌∷◌ (digit (n % 10)) rest) (smaller n fuel h e)
      ∙ read_digit (n % 10) (n / 10) (codes rest) (omega arith)
      ∙ ap (λ x. digits_value x (codes rest)) (omega arith))
]

first_digit :
    (fuel n : ℕ) (rest : String)
    → n < fuel
    → (c : ℕ) × (cs : List ℕ) × (codes (decimal fuel n rest) ≡ c ∷ cs) × (48 ≤ c)
unfolding decimal codes
first_digit zero n rest h = absurd (omega (arith, h))
first_digit (suc fuel) n rest h = elim (Bool-cases (ltb n 10)) [
  | inl e ↦ rw e (code (digit n), codes rest, refl, omega (arith, code-digit n (ltb→lt n 10 e)))
  | inr e ↦ rw e (first_digit fuel (n / 10) (String.◌∷◌ (digit (n % 10)) rest) (smaller n fuel h e))
]

unsigned_of : (c : ℕ) (cs l : List ℕ) → l ≡ c ∷ cs → unsigned l ≡ digits_value 0 l
unfolding unsigned
unsigned_of c cs l e = rw e refl

end_read : (n : ℕ) → digits_value n (codes "") ≡ some n
unfolding digits_value codes
end_read n = refl

unsigned_read : (fuel n : ℕ) → n < fuel → unsigned (codes (decimal fuel n "")) ≡ some n
unsigned_read fuel n h =
    let (c, cs, e, big) = first_digit fuel n "" h in
    unsigned_of c cs (codes (decimal fuel n "")) e ∙ (read_decimal fuel n "" h ∙ end_read n)

parse_digits :
    (c : ℕ) (cs : List ℕ) → 48 ≤ c → parse_int (c ∷ cs) ≡ signed false (unsigned (c ∷ cs))
unfolding parse_int
parse_digits c cs h = ground (arith, h)

parse_minus : (cs : List ℕ) → parse_int (b'-' ∷ cs) ≡ signed true (unsigned cs)
unfolding parse_int
parse_minus cs = refl

signed_small : (n : ℕ) → n ≤ max_int64 → signed false (some n) ≡ (pos n, true)
unfolding signed
signed_small n h = rw (le→leb n max_int64 h) refl

minus_suc : (n : ℕ) → sub_ℕ 0 (suc n) ≡ negsuc n
minus_suc n = ground arith

signed_minus : (n : ℕ) → suc n ≤ max_int64 + 1 → signed true (some (suc n)) ≡ (negsuc n, true)
unfolding signed
signed_minus n h = rw (le→leb (suc n) (max_int64 + 1) h) (ap (λ z. (z, true)) (minus_suc n))

-- The decimal text of every int64 is read back.
parse_int-sprint_int :
    (z : ℤ)
    → z ≤ℤ pos max_int64
    → negsuc max_int64 ≤ℤ z
    → parse_int (codes (sprint_int z)) ≡ (z, true)
unfolding sprint_int codes
parse_int-sprint_int (pos n) h k =
    let (c, cs, e, big) = first_digit (suc n) n "" (omega arith) in
    rw e (parse_digits c cs big)
    ∙ (ap (signed false) (sym (ap unsigned e) ∙ unsigned_read (suc n) n (omega arith))
        ∙ signed_small n (omega (arith, h)))
parse_int-sprint_int (negsuc n) h k =
    parse_minus (codes (decimal (suc (suc n)) (suc n) ""))
    ∙ (ap (signed true) (unsigned_read (suc (suc n)) (suc n) (omega arith))
        ∙ signed_minus n (omega (arith, k)))

least_beq : (n : ℕ) → n < max_int64 → (negsuc n == negsuc max_int64) ≡ false
unfolding int_beq
least_beq n h = elim (Bool-cases (nat_beq n max_int64)) [
  | inl e ↦ absurd (omega (arith, h, (nat_beq_iff n max_int64).0 e))
  | inr e ↦ e
]

not_least : (z : ℤ) → negsuc max_int64 <ℤ z → (z == negsuc max_int64) ≡ false
unfolding int_beq
not_least (pos n) h = refl
not_least (negsuc n) h = least_beq n (omega (arith, h))

-- The text that itoa writes of an int64 other than the least one is read back by ParseInt as that
-- number, without an error. So the fuel with which the digits are written is enough.
pub parse_int-itoa :
    (z : ℤ) → z ≤ℤ pos max_int64 → negsuc max_int64 <ℤ z → parse_int (codes (itoa z)) ≡ (z, true)
unfolding itoa
parse_int-itoa z h k = rw (not_least z k) (parse_int-sprint_int z h (omega (arith, k)))

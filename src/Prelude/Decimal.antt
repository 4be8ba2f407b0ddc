-- ===== src/Prelude/Decimal.antt =====
-- The decimal text of a number, `str(n)`, and that different numbers have different texts.
use Prim.Native.String.{String, ◌++◌}
use Prim.Native.Char.{code}
use Prim.Native.Nat.{ℕ, zero, suc, ◌+◌, ◌*◌, ◌-◌, ◌/◌, ◌%◌, ◌≤◌, ◌<◌}
use mathlib.Core.Path.{◌≡◌, refl, sym, ap, ◌∙◌}
use mathlib.Core.Bool.{false}
use mathlib.Core.Logic.{inl, inr}
use native.Mathlib.Omega.{arith}
use text.Mathlib.TextLemmas.{nil-append, cons-append}
use scrapeyard.Prelude.Tests.{ltb, ltb→lt, if◌then◌else◌, Bool-cases}

-- The text of one character of a text, at a place.
abbrev char_at : String → ℕ → String
char_at String.[] d = ""
char_at (String.◌∷◌ c s) zero = String.◌∷◌ c ""
char_at (String.◌∷◌ c s) (suc d) = char_at s d

abbrev digit_text : ℕ → String
digit_text = char_at "0123456789"

-- Fuel `n` is enough for the digits of `n`.
digits : ℕ → ℕ → String
digits zero n = digit_text n
digits (suc fuel) n =
    let front = digits fuel (n / 10) in
    if ltb n 10 then digit_text n else front ++ digit_text (n % 10)

unfoldable pub decimal : ℕ → String
unfolding digits
decimal n = digits n n

-- The number that a text of digits spells behind `n`.
value : ℕ → String → ℕ
value n String.[] = n
value n (String.◌∷◌ c s) = value (n * 10 + (code c - 48)) s

value-append : (n : ℕ) (s t : String) → value n (s ++ t) ≡ value (value n s) t
unfolding value
value-append n String.[] t = rw (nil-append t) refl
value-append n (String.◌∷◌ c s) t =
    rw (cons-append c s t) (value-append (n * 10 + (code c - 48)) s t)

-- The characters are the digits from `k` to 9.
abbrev FromTo9 : ℕ → String → Type 0
FromTo9 k String.[] = k ≡ 10
FromTo9 k (String.◌∷◌ c s) = (code c ≡ 48 + k) × FromTo9 (1 + k) s

value-char_at :
    (n k : ℕ) (s : String) (d : ℕ)
    → FromTo9 k s
    → k + d < 10
    → value n (char_at s d) ≡ n * 10 + (k + d)
unfolding value
value-char_at n k String.[] d e l = absurd (omega arith)
value-char_at n k (String.◌∷◌ c s) zero (e, rest) l = omega arith
value-char_at n k (String.◌∷◌ c s) (suc d) (e, rest) l =
    value-char_at n (1 + k) s d rest (omega arith) ∙ omega arith

value-digit : (n d : ℕ) → d < 10 → value n (digit_text d) ≡ n * 10 + d
value-digit n d l =
    value-char_at n 0 "0123456789" d
      (refl, (refl, (refl, (refl, (refl, (refl, (refl, (refl, (refl, (refl, refl))))))))))
      (omega arith)
    ∙ omega arith

value-digits : (fuel n : ℕ) → n ≤ fuel → value 0 (digits fuel n) ≡ n
unfolding digits
value-digits zero n l = value-digit 0 n (omega arith) ∙ omega arith
value-digits (suc fuel) n l = elim (Bool-cases (ltb n 10)) [
  | inl small ↦ rw small (value-digit 0 n (ltb→lt n 10 small) ∙ omega arith)
  | inr large ↦
      let tens = value-digits fuel (n / 10) (let big : ltb n 10 ≡ false = large in ground arith) in
      rw (large, value-append 0 (digits fuel (n / 10)) (digit_text (n % 10)), tens)
        (value-digit (n / 10) (n % 10) (omega arith) ∙ omega arith)
]

pub decimal_inj : (m n : ℕ) → decimal m ≡ decimal n → m ≡ n
unfolding decimal
decimal_inj m n e =
    sym (value-digits m m (omega arith)) ∙ ap (value 0) e ∙ value-digits n n (omega arith)

-- ===== src/Guard/Keys.antt =====
-- The keys that src/scrapeyard/engine/domain_guard.py uses in Redis.
use scrapeyard.Prelude.{◌≡◌, ◌≢◌, ◌∙◌, sym, ap, String, arith}
use Prim.Native.String.{◌++◌ as ◌++ᵗ◌}
use Prim.Native.Char.{Char, code}
use text.Mathlib.TextLemmas.{
  append_cancel_left, append_cancel_right, cons-append, head-eq_of_cons-eq,
}
use scrapeyard.Guard.Redis.{pages_key, cooldown_key}

pub pages_key_inj : (h j d : String) → pages_key h d ≡ pages_key j d → h ≡ j
unfolding pages_key
pages_key_inj h j d e =
    append_cancel_right h j (":" ++ᵗ d)
      (append_cancel_left "pages:" _ _ (append_cancel_left "scrapeyard:domain:" _ _ e))

pub cooldown_key_inj : (h j : String) → cooldown_key h ≡ cooldown_key j → h ≡ j
unfolding cooldown_key
cooldown_key_inj h j e =
    append_cancel_left "cooldown:" h j (append_cancel_left "scrapeyard:domain:" _ _ e)

abbrev p : Char
p = "p"

abbrev c : Char
c = "c"

letters_apart : p ≢ c
letters_apart e = omega (arith, ap code e)

pub pages_key-ne-cooldown_key : (h j d : String) → pages_key h d ≢ cooldown_key j
unfolding pages_key cooldown_key
pages_key-ne-cooldown_key h j d e =
    let rest : "pages:" ++ᵗ (h ++ᵗ (":" ++ᵗ d)) ≡ "cooldown:" ++ᵗ j =
      append_cancel_left "scrapeyard:domain:" _ _ e in
    let heads : p ≡ c =
      head-eq_of_cons-eq (sym (cons-append p "ages:" _) ∙ rest ∙ cons-append c "ooldown:" j) in
    letters_apart heads

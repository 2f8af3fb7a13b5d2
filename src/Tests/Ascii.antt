-- ===== src/Tests/Ascii.antt =====
-- A case mapping for ASCII text, which has the properties that `Unicode` asks for.
use mint_flow.Prelude.{ℕ, ◌+◌, ◌-◌, ◌≤◌, ◌≡◌, refl, [], ◌∷◌, ◌&&◌, leb, All, arith, if◌then◌else◌}
use mint_flow.Prelude.Text.{Text, Unicode}

abbrev up : ℕ → ℕ
up c = if leb b'a' c && leb c b'z' then c - 32 else c

abbrev down : ℕ → ℕ
down c = if leb b'A' c && leb c b'Z' then c + 32 else c

abbrev upper : Text → Text
upper [] = []
upper (c ∷ s) = up c ∷ upper s

abbrev lower : Text → Text
lower [] = []
lower (c ∷ s) = down c ∷ lower s

pub upper_fixes : (s : Text) → All (λ c. (b'A' ≤ c) × (c ≤ b'Z')) s → upper s ≡ s
upper_fixes [] h = refl
upper_fixes (c ∷ s) h = ground (arith, upper_fixes s h.1)

pub lower_fixes : (s : Text) → All (λ c. (b'a' ≤ c) × (c ≤ b'z')) s → lower s ≡ s
lower_fixes [] h = refl
lower_fixes (c ∷ s) h = ground (arith, lower_fixes s h.1)

instance abbrev pub ascii : Unicode
ascii = record {
  upper = upper;
  lower = lower;
  upper_ascii = upper_fixes;
  lower_ascii = lower_fixes;
}

-- ===== src/Text.antt =====
-- What the program asks of Python's `str`: its length, `strip`, `lstrip` and `rstrip`.
use ai_compliance_orquestrat.Prelude.{
  String, ℕ, ◌≡◌, suc, Bool, leb, if◌then◌else◌, true, refl, ◌&&◌, false, ◌||◌, eqb,
}
use Prim.Native.Char.{code}

-- `len(s)`, the number of code points
unfoldable pub code_points : String → ℕ
code_points String.[] = 0
code_points (String.◌∷◌ c s) = suc (code_points s)

-- `str.isspace` of one character
unfoldable pub is_space : ℕ → Bool
is_space c =
    (leb 9 c && leb c 13)
    || ((leb 28 c && leb c 32)
        || (eqb c 133
            || (eqb c 160
                || (eqb c 5760
                    || ((leb 8192 c && leb c 8202)
                        || (eqb c 8232
                            || (eqb c 8233 || (eqb c 8239 || (eqb c 8287 || eqb c 12288)))))))))

-- without the leading characters that pass a test
unfoldable pub drop_leading : (ℕ → Bool) → String → String
drop_leading p String.[] = String.[]
drop_leading p (String.◌∷◌ c s) =
    let rest = drop_leading p s in if p (code c) then rest else String.◌∷◌ c s

unfoldable pub is_empty : String → Bool
is_empty String.[] = true
is_empty (String.◌∷◌ c s) = false

-- without the trailing ones
unfoldable pub drop_trailing : (ℕ → Bool) → String → String
unfolding is_empty
drop_trailing p String.[] = String.[]
drop_trailing p (String.◌∷◌ c s) =
    let rest = drop_trailing p s in
    if is_empty rest && p (code c) then String.[] else String.◌∷◌ c rest

-- `s.strip()`
unfoldable pub strip : String → String
unfolding drop_leading drop_trailing is_space
strip s = drop_trailing is_space (drop_leading is_space s)

-- `Field(min_length=…, max_length=…)`
unfoldable pub has_length : ℕ → ℕ → String → Bool
unfolding code_points
has_length least most s = leb least (code_points s) && leb (code_points s) most

strips : strip " ok \u{a0}" ≡ "ok"
unfolding strip
strips = refl

-- ===== src/Identity/Whitespace.antt =====
-- What identity/seed.rs uses of the standard library's text: `split_whitespace` and `join(" ")`, on UTF-8.
use libre_drive.Prelude.{
  ℕ, zero, suc, ◌≤◌, ◌<◌, ◌≡◌, refl, sym, ap, ◌∙◌, Bool, ◌&&◌, ◌||◌, List, [], ◌∷◌, ◌++◌,
  append-nil, append_assoc, arith, leb, ◌==◌, if◌then◌else◌, All, length,
}
use libre_drive.Prelude.Text.{Str}

-- '\t', '\n', vertical tab, form feed, '\r' and ' '
abbrev pub is_ascii_space : ℕ → Bool
is_ascii_space c = (leb 9 c && leb c 13) || c == 32

-- The bytes after 0xe2 0x80 that complete a white space: U+2000 to U+200A, U+2028, U+2029, U+202F.
abbrev pub is_general_space : ℕ → Bool
is_general_space c = (leb 0x80 c && leb c 0x8a) || c == 0xa8 || c == 0xa9 || c == 0xaf

-- A white space of several bytes at the head: U+0085, U+00A0, U+1680, the above, U+205F and U+3000.
unfoldable pub wide_space : Str → ℕ
wide_space (a ∷ b ∷ c ∷ cs) =
    if a == 0xc2 && (b == 0x85 || b == 0xa0)
    then 2
    else if (a == 0xe1 && b == 0x9a && c == 0x80)
        || (a == 0xe2 && b == 0x80 && is_general_space c)
        || (a == 0xe2 && b == 0x81 && c == 0x9f)
        || (a == 0xe3 && b == 0x80 && c == 0x80)
    then 3
    else 0
wide_space (a ∷ b ∷ []) = if a == 0xc2 && (b == 0x85 || b == 0xa0) then 2 else 0
wide_space _ = 0

-- The bytes of the white space at the head of a text, 0 where there is none.
unfoldable pub space_at : Str → ℕ
space_at [] = 0
space_at (c ∷ cs) = if is_ascii_space c then 1 else wide_space (c ∷ cs)

-- A word that is not empty.
abbrev pub word_then : Str → List Str → List Str
word_then [] ws = ws
word_then (c ∷ w) ws = (c ∷ w) ∷ ws

-- The words of the rest of a text, after the bytes to skip, given the word so far.
unfoldable pub split_from : ℕ → Str → Str → List Str
split_from skip w [] = word_then w []
split_from (suc skip) w (c ∷ cs) = split_from skip w cs
split_from zero w (c ∷ cs) = elim (space_at (c ∷ cs)) [
  | zero ↦ split_from zero (w ++ c ∷ []) cs
  | suc skip ↦ word_then w (split_from skip [] cs)
]

-- split_whitespace().collect()
unfoldable pub split_whitespace : Str → List Str
split_whitespace s = split_from zero [] s

-- join(" ")
unfoldable pub join_words : List Str → Str
join_words [] = []
join_words (w ∷ []) = w
join_words (w ∷ v ∷ ws) = w ++ b' ' ∷ join_words (v ∷ ws)

-- A word of ASCII characters that are no white space or control characters.
abbrev pub IsWord : Str → Type 0
IsWord w = (0 < length w) × All (λ c. (33 ≤ c) × (c < 128)) w

plain-space_at : (c : ℕ) (cs : Str) → 33 ≤ c → c < 128 → space_at (c ∷ cs) ≡ 0
unfolding space_at wide_space
plain-space_at c [] low high = ground arith
plain-space_at c (b ∷ []) low high = ground arith
plain-space_at c (b ∷ a ∷ cs) low high = ground arith

blank-space_at : (cs : Str) → space_at (b' ' ∷ cs) ≡ 1
unfolding space_at
blank-space_at cs = refl

-- The step at a byte, as a function of the white space there.
abbrev step_at : Str → ℕ → Str → ℕ → List Str
step_at w c cs n = elim n [
  | zero ↦ split_from zero (w ++ c ∷ []) cs
  | suc skip ↦ word_then w (split_from skip [] cs)
]

split_from-step :
    (w : Str) (c : ℕ) (cs : Str) (n : ℕ)
    → space_at (c ∷ cs) ≡ n
    → split_from zero w (c ∷ cs) ≡ step_at w c cs n
unfolding split_from
split_from-step w c cs n e = ap (step_at w c cs) e

-- A word is taken in whole.
split_from-word :
    (w v rest : Str)
    → All (λ c. (33 ≤ c) × (c < 128)) v
    → split_from zero w (v ++ rest) ≡ split_from zero (w ++ v) rest
unfolding split_from
split_from-word w [] rest plain = rw (append-nil w)
split_from-word w (c ∷ v) rest plain =
    split_from-step w c (v ++ rest) 0 (plain-space_at c (v ++ rest) plain.0.0 plain.0.1)
    ∙ split_from-word (w ++ c ∷ []) v rest plain.1
    ∙ ap (λ u. split_from zero u rest) (append_assoc w (c ∷ []) v)

word_then-eq : (w : Str) (ws : List Str) → 0 < length w → word_then w ws ≡ w ∷ ws
word_then-eq [] ws h = absurd (omega arith)
word_then-eq (c ∷ w) ws h = refl

-- The words that were joined are the words of the text.
pub split_whitespace-join_words :
    (ws : List Str) → All IsWord ws → split_whitespace (join_words ws) ≡ ws
unfolding split_whitespace join_words split_from
split_whitespace-join_words [] plain = refl
split_whitespace-join_words (w ∷ []) plain =
    ap (split_from zero []) (sym (append-nil w))
    ∙ split_from-word [] w [] plain.0.1
    ∙ word_then-eq w [] plain.0.0
split_whitespace-join_words (w ∷ v ∷ ws) plain =
    split_from-word [] w (b' ' ∷ join_words (v ∷ ws)) plain.0.1
    ∙ split_from-step w b' ' (join_words (v ∷ ws)) 1 (blank-space_at (join_words (v ∷ ws)))
    ∙ word_then-eq w (split_from zero [] (join_words (v ∷ ws))) plain.0.0
    ∙ ap (◌∷◌ w) (split_whitespace-join_words (v ∷ ws) plain.1)
